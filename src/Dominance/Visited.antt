-- ===== src/Dominance/Visited.antt =====
-- What a depth-first visit has visited behind it.
use moksha.Base.{
  ℕ, zero, suc, ◌<◌, ◌≤◌, ◌≡◌, ◌==◌, refl, ap, sym, ◌∙◌, Bool, true, false, not, ◌&&◌, ◌||◌, List,
  [], ◌∷◌, arith, Bool-cases, inl, inr, ==_iff,
}
use moksha.Worklist.{contains, Reaches, further}
use moksha.Worklist.Bounds.{within, unseen, unseen-lt, contains-within}
use moksha.Dominance.{Visit, visit_all, enter, finish, compute_rpo}

abbrev pub distinct : List ℕ → Bool
distinct [] = true
distinct (x ∷ xs) = not (contains x xs) && distinct xs

module _ (next_of : ℕ → List ℕ) (all seeds : List ℕ) where
  -- A visit from the state `s` to the state `t`: it visits more, only what can be reached, with the
  -- successors of each, and orders what it visits.
  pub record IsVisit (s t : Visit) : Type 0 where
    pub grown : (x : ℕ) → contains x s.visited ≡ true → contains x t.visited ≡ true
    pub fewer : unseen t.visited all ≤ unseen s.visited all
    pub reached :
        (x : ℕ)
        → contains x t.visited ≡ true
        → contains x s.visited ≡ false
        → Reaches next_of seeds x
    pub followed :
        (x w : ℕ)
        → contains x t.visited ≡ true
        → contains x s.visited ≡ false
        → contains w (next_of x) ≡ true
        → contains w t.visited ≡ true
    pub ordered :
        (x : ℕ)
        → contains x t.order
          ≡ (contains x s.order || (contains x t.visited && not (contains x s.visited)))
    pub once :
        ((x : ℕ) → contains x s.order ≡ true → contains x s.visited ≡ true)
        → distinct s.order ≡ true
        → distinct t.order ≡ true

  neither : {b : Bool} → b ≡ true → b ≡ false → ⊥
  neither h k = cc

  IsVisit-refl : (s : Visit) → IsVisit s s
  IsVisit-refl s = record {
    grown = λ x h. h;
    fewer = omega arith;
    reached = λ x h k. absurd (neither h k);
    followed = λ x w h k n. absurd (neither h k);
    ordered = λ x. ground arith;
    once = λ inside d. d;
  }

  -- One visit behind another.
  IsVisit-trans : (s t u : Visit) → IsVisit s t → IsVisit t u → IsVisit s u
  IsVisit-trans s t u i j = record {
    grown = λ x h. j.grown x (i.grown x h);
    fewer = omega (arith, i.fewer, j.fewer);
    reached = λ x h k. elim (Bool-cases (contains x t.visited)) [
      | inl m ↦ i.reached x m k
      | inr m ↦ j.reached x h m
    ];
    followed = λ x w h k n. elim (Bool-cases (contains x t.visited)) [
      | inl m ↦ j.grown w (i.followed x w m k n)
      | inr m ↦ j.followed x w h m n
    ];
    ordered = λ x. ground (arith, i.ordered x, j.ordered x, i.grown x, j.grown x);
    once = λ inside d.
        j.once (λ x h. ground (arith, i.ordered x, inside x, i.grown x)) (i.once inside d);
  }

  module _ (f : ℕ → Visit → Visit) (fuel : ℕ)
      (f-IsVisit : (v : ℕ) (s : Visit)
        → Reaches next_of seeds v
        → contains v all ≡ true
        → unseen s.visited all < fuel
        → IsVisit s (f v s) × (contains v (f v s).visited ≡ true)) where
    -- The calls for several blocks visit each of them.
    pub visit_all-IsVisit :
        (vs : List ℕ) (s : Visit)
        → ((v : ℕ) → contains v vs ≡ true → Reaches next_of seeds v × (contains v all ≡ true))
        → unseen s.visited all < fuel
        → IsVisit s (visit_all f vs s)
          × ((v : ℕ) → contains v vs ≡ true → contains v (visit_all f vs s).visited ≡ true)
    visit_all-IsVisit [] s known less = (IsVisit-refl s, λ v h. absurd (neither h refl))
    visit_all-IsVisit (x ∷ vs) s known less =
        let first = known x (ground arith) in
        let (i, here) = f-IsVisit x s first.0 first.1 less in
        let t = f x s in
        let (j, later) =
          visit_all-IsVisit vs t (λ v h. known v (ground arith)) (omega (arith, less, i.fewer)) in
        let u = visit_all f vs t in
        (
          IsVisit-trans s t u i j,
          λ v h. elim (Bool-cases (v == x)) [
            | inl e ↦
                let same : v ≡ x = (==_iff v x).0 e in
                ap (λ y. contains y u.visited) same ∙ j.grown x here
            | inr e ↦ later v (ground (arith, h, e))
          ],
        )

  -- From the state behind the entering of a block, to that behind its finish.
  enter-IsVisit :
      (v : ℕ) (s t : Visit)
      → contains v s.visited ≡ false
      → Reaches next_of seeds v
      → contains v all ≡ true
      → IsVisit (enter v s) t
      → ((w : ℕ) → contains w (next_of v) ≡ true → contains w t.visited ≡ true)
      → IsVisit s (finish v t) × (contains v t.visited ≡ true)
  enter-IsVisit v s t new r known i onward =
      let there : contains v t.visited ≡ true = i.grown v (ground arith) in
      (
        record {
          grown = λ x h. i.grown x (ground (arith, h));
          fewer = omega (arith, i.fewer, unseen-lt v s.visited all known new);
          reached = λ x h k. elim (Bool-cases (x == v)) [
            | inl e ↦ rw ((==_iff x v).0 e) r
            | inr e ↦ i.reached x h (ground (arith, e, k))
          ];
          followed = λ x w h k n. elim (Bool-cases (x == v)) [
            | inl e ↦ onward w (ap (λ y. contains w (next_of y)) (sym ((==_iff x v).0 e)) ∙ n)
            | inr e ↦ i.followed x w h (ground (arith, e, k)) n
          ];
          ordered = λ x. elim (Bool-cases (x == v)) [
            | inl e ↦
                let old : contains x s.visited ≡ false =
                  ap (λ y. contains y s.visited) ((==_iff x v).0 e) ∙ new in
                let now : contains x t.visited ≡ true =
                  ap (λ y. contains y t.visited) ((==_iff x v).0 e) ∙ there in
                ground (arith, e, old, now)
            | inr e ↦ ground (arith, e, i.ordered x)
          ];
          once = λ inside d.
              let not_there : contains v s.order ≡ false = ground (arith, inside v, new) in
              let not_ordered : contains v t.order ≡ false =
                ground (arith, i.ordered v, not_there) in
              ground (arith, not_ordered, i.once (λ x h. ground (arith, inside x h)) d);
        },
        there,
      )

  module _ (closed : (v : ℕ) → contains v all ≡ true → within (next_of v) all ≡ true) where
    -- With enough fuel the visit of a block visits it, and all that can be reached from it.
    pub compute_rpo-IsVisit :
        (fuel v : ℕ) (s : Visit)
        → Reaches next_of seeds v
        → contains v all ≡ true
        → unseen s.visited all < fuel
        → IsVisit s (compute_rpo next_of fuel v s)
          × (contains v (compute_rpo next_of fuel v s).visited ≡ true)
    unfolding compute_rpo
    compute_rpo-IsVisit zero v s r known less = absurd (omega arith)
    compute_rpo-IsVisit (suc fuel) v s r known less = elim (Bool-cases (contains v s.visited)) [
      | inl e ↦ rw (compute_rpo, e) (IsVisit-refl s, e)
      | inr e ↦
          let (i, onward) =
            visit_all-IsVisit (compute_rpo next_of fuel) fuel (compute_rpo-IsVisit fuel) (next_of v)
              (enter v s)
              (λ w h. (further r h, contains-within w (next_of v) all (closed v known) h))
              (omega (arith, less, unseen-lt v s.visited all known e)) in
          rw (compute_rpo, e)
            (enter-IsVisit v s (visit_all (compute_rpo next_of fuel) (next_of v) (enter v s)) e r
              known i onward)
    ]
