-- ===== src/JumpThreading/Edges.antt =====
-- The edge of a threaded jump.
use moksha.Base.{
  ℕ, ◌≡◌, ◌≢◌, ◌==◌, refl, ap, sym, ◌∙◌, Bool, true, false, ◌||◌, some, List, [], ◌∷◌, arith,
  if◌then◌else◌, Bool-cases, inl, inr, ==_iff,
}
use mathlib.Core.Path.{subst}
use moksha.Mir.{Inst, br, cond_br, Instruction, Block}
use moksha.Mir.Blocks.{
  push_new, add_successor, add_predecessor, remove_successor, remove_predecessor, update,
  find_block, targets, link, push_instruction, add_instruction, remove_incoming, update_phis,
}
use moksha.Worklist.{contains}
use moksha.DeadCode.Edges.{contains-remove_all}
use moksha.SimplifyCfg.{pop_instruction}
use moksha.SimplifyCfg.Links.{contains-push_new}
use moksha.SimplifyCfg.Folding.{mapped, find_block-update, find_block-update_other}
use moksha.JumpThreading.{
  has_predecessor, has_pred, thread_br, true_block, false_block, set_targets, thread_cond, thread,
}

contains-push_new_self : (v : ℕ) (xs : List ℕ) → contains v (push_new v xs) ≡ true
contains-push_new_self v xs =
    let self = (==_iff v v).1 refl in ground (arith, contains-push_new v v xs, self)

-- The successors of a block that ends in a conditional branch to `v` or `w`.
set_targets-contains :
    (u v w : ℕ) (c : Block) → contains u (set_targets v w c).successors ≡ (u == v || u == w)
set_targets-contains u v w c = elim (Bool-cases (v == w)) [
  | inl e ↦
      let same : (u == v) ≡ (u == w) = ap (λ k. u == k) ((==_iff v w).0 e) in
      rw e (ground (arith, same))
  | inr e ↦ let other : (w == v) ≡ false = ground (arith, e) in rw (e, other) (ground arith)
]

true_block-false_block :
    (b t x y : ℕ)
    → contains b (x ∷ y ∷ []) ≡ true
    → (t == true_block b t x || t == false_block b t x y) ≡ true
true_block-false_block b t x y h = elim (Bool-cases (x == b)) [
  | inl e ↦ rw e (ground arith)
  | inr e ↦ let second : (y == b) ≡ true = ground (arith, h, e) in rw (e, second) (ground arith)
]

-- Block `p` leads to block `t`, which knows it.
pub IsEdge : ℕ → ℕ → List Block → Type 0
IsEdge p t bs =
    (q : Block) × (r : Block) × (find_block p bs ≡ some q)
    × (find_block t bs ≡ some r)
    × (contains t q.successors ≡ true)
    × (contains p r.predecessors ≡ true)

module _ (p b t : ℕ) (bs : List Block) (q r : Block) (p_b : (p == b) ≡ false)
    (p_t : (p == t) ≡ false) (t_b : (t == b) ≡ false) (t_p : (t == p) ≡ false)
    (at_p : find_block p bs ≡ some q) (at_t : find_block t bs ≡ some r) where
  module _ (fresh : ℕ → ℕ) where
    abbrev branch : Instruction
    branch = record { id = fresh p; inst = br t }

    abbrev popped : List Block
    popped = update p pop_instruction bs

    abbrev linked : List Block
    linked = update t (add_predecessor p) (update p (add_successor t) popped)

    abbrev pushed : List Block
    pushed = update p (push_instruction branch) linked

    abbrev cut : List Block
    cut = update b (remove_predecessor p) (update p (remove_successor b) pushed)

    abbrev led : Block
    led = remove_successor b (push_instruction branch (add_successor t (pop_instruction q)))

    find_block-led : find_block p cut ≡ some led
    find_block-led =
        find_block-update_other p b (remove_predecessor p) (update p (remove_successor b) pushed)
          (λ c. refl) p_b
        ∙ find_block-update p (remove_successor b) pushed (λ c. refl)
        ∙ ap (mapped (remove_successor b)) (
            find_block-update p (push_instruction branch) linked (λ c. refl)
            ∙ ap (mapped (push_instruction branch)) (
                find_block-update_other p t (add_predecessor p) (update p (add_successor t) popped)
                  (λ c. refl) p_t
                ∙ find_block-update p (add_successor t) popped (λ c. refl)
                ∙ ap (mapped (add_successor t)) (
                    find_block-update p pop_instruction bs (λ c. refl)
                    ∙ ap (mapped pop_instruction) at_p)))

    find_block-bailout : find_block t cut ≡ some (add_predecessor p r)
    find_block-bailout =
        find_block-update_other t b (remove_predecessor p) (update p (remove_successor b) pushed)
          (λ c. refl) t_b
        ∙ find_block-update_other t p (remove_successor b) pushed (λ c. refl) t_p
        ∙ find_block-update_other t p (push_instruction branch) linked (λ c. refl) t_p
        ∙ find_block-update t (add_predecessor p) (update p (add_successor t) popped) (λ c. refl)
        ∙ ap (mapped (add_predecessor p)) (
            find_block-update_other t p (add_successor t) popped (λ c. refl) t_p
            ∙ find_block-update_other t p pop_instruction bs (λ c. refl) t_p
            ∙ at_t)

    has_pred-cut : has_pred p t cut ≡ true
    has_pred-cut = rw find_block-bailout (contains-push_new_self p r.predecessors)

    thread_br-IsEdge : IsEdge p t (thread_br fresh p b t bs)
    unfolding IsEdge thread_br add_instruction targets link
    thread_br-IsEdge = rw has_pred-cut (
      led,
      add_predecessor p r,
      find_block-update_other p b (update_phis (remove_incoming p)) cut (λ c. refl) p_b
          ∙ find_block-led,
      find_block-update_other t b (update_phis (remove_incoming p)) cut (λ c. refl) t_b
          ∙ find_block-bailout,
      ground (
        arith,
        contains-remove_all t b (push_new t q.successors),
        contains-push_new_self t q.successors,
        t_b,
      ),
      contains-push_new_self p r.predecessors,
    )

  module _ (x y : ℕ) where
    abbrev set : List Block
    set =
        update b (remove_predecessor p)
          (update p (set_targets (true_block b t x) (false_block b t x y)) bs)

    -- Whether or not block `b` is still led to, the blocks at other addresses stay.
    abbrev mended : Bool → List Block
    mended still =
        if still
        then update b (add_predecessor p) set
        else update b (update_phis (remove_incoming p)) set

    find_block-mended :
        (still : Bool) (a : ℕ) → (a == b) ≡ false → find_block a (mended still) ≡ find_block a set
    find_block-mended true a n = find_block-update_other a b (add_predecessor p) set (λ c. refl) n
    find_block-mended false a n =
        find_block-update_other a b (update_phis (remove_incoming p)) set (λ c. refl) n

    set_targets-id : (v w : ℕ) (c : Block) → (set_targets v w c).id ≡ c.id
    set_targets-id v w c = elim (Bool-cases (v == w)) [ inl e ↦ rw e refl | inr e ↦ rw e refl ]

    find_block-set :
        find_block p set ≡ some (set_targets (true_block b t x) (false_block b t x y) q)
    find_block-set =
        find_block-update_other p b (remove_predecessor p)
          (update p (set_targets (true_block b t x) (false_block b t x y)) bs) (λ c. refl) p_b
        ∙ find_block-update p (set_targets (true_block b t x) (false_block b t x y)) bs
            (set_targets-id (true_block b t x) (false_block b t x y))
        ∙ ap (mapped (set_targets (true_block b t x) (false_block b t x y))) at_p

    find_block-set_bailout : find_block t set ≡ some r
    find_block-set_bailout =
        find_block-update_other t b (remove_predecessor p)
          (update p (set_targets (true_block b t x) (false_block b t x y)) bs) (λ c. refl) t_b
        ∙ find_block-update_other t p (set_targets (true_block b t x) (false_block b t x y)) bs
            (set_targets-id (true_block b t x) (false_block b t x y)) t_p
        ∙ at_t

    set_targets-successors :
        contains b (x ∷ y ∷ []) ≡ true
        → contains t (set_targets (true_block b t x) (false_block b t x y) q).successors ≡ true
    set_targets-successors h =
        set_targets-contains t (true_block b t x) (false_block b t x y) q
        ∙ true_block-false_block b t x y h

    thread_cond-IsEdge : contains b (x ∷ y ∷ []) ≡ true → IsEdge p t (thread_cond p b t x y bs)
    unfolding IsEdge thread_cond
    thread_cond-IsEdge h =
        let still = true_block b t x == b || false_block b t x y == b in
        let led_p = find_block-mended still p p_b ∙ find_block-set in
        let led_t = find_block-mended still t t_b ∙ find_block-set_bailout in
        let moved = set_targets (true_block b t x) (false_block b t x y) q in
        elim (Bool-cases (has_pred p t (mended still))) [
          | inl e ↦
              let listed : contains p r.predecessors ≡ true =
                ap (has_predecessor p) (sym led_t) ∙ e in
              rw e (moved, r, led_p, led_t, set_targets-successors h, listed)
          | inr e ↦ rw e (
            moved,
            add_predecessor p r,
            find_block-update_other p t (add_predecessor p) (mended still) (λ c. refl) p_t ∙ led_p,
            find_block-update t (add_predecessor p) (mended still) (λ c. refl)
                ∙ ap (mapped (add_predecessor p)) led_t,
            set_targets-successors h,
            contains-push_new_self p r.predecessors,
          )
        ]

-- Let `p`, `b` and `t` be different, `p` and `t` blocks of the function, and let an instruction lead
-- to `b`. Where this jump of `p` is threaded to `t`, the two are linked: `t` is among the successors
-- of `p`, and `p` among the predecessors of `t`.
pub thread-IsEdge :
    (fresh : ℕ → ℕ) (p b t : ℕ) (term : Inst) (bs cs : List Block) (q r : Block)
    → p ≢ b
    → p ≢ t
    → b ≢ t
    → find_block p bs ≡ some q
    → find_block t bs ≡ some r
    → contains b (targets term) ≡ true
    → thread fresh p b t (some term) bs ≡ some cs
    → IsEdge p t cs
unfolding thread targets
thread-IsEdge fresh p b t (br x) bs cs q r n m k at_p at_t h e =
    let same : thread_br fresh p b t bs ≡ cs = cc in
    subst (IsEdge p t) same (
      thread_br-IsEdge p b t bs q r (ground arith) (ground arith) (ground arith) (ground arith) at_p
        at_t fresh)
thread-IsEdge fresh p b t (cond_br c x y) bs cs q r n m k at_p at_t h e =
    let same : thread_cond p b t x y bs ≡ cs = cc in
    subst (IsEdge p t) same (
      thread_cond-IsEdge p b t bs q r (ground arith) (ground arith) (ground arith) (ground arith)
        at_p at_t x y h)
thread-IsEdge fresh p b t _ bs cs q r n m k at_p at_t h e = cc
