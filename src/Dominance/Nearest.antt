-- ===== src/Dominance/Nearest.antt =====
-- `intersect` finds the nearest block above two others.
use moksha.Base.{
  ℕ, zero, suc, ◌+◌, ◌<◌, ◌≤◌, ◌≡◌, ◌≢◌, ◌==◌, refl, ap, sym, ◌∙◌, true, Option, none, some, List,
  [], ◌∷◌, ltb, arith, Bool-cases, inl, inr, ==_iff,
}
use mathlib.Core.Path.{subst}
use moksha.Worklist.{contains}
use moksha.Dominance.Intersect.{at, rpo_index, climb, intersect, ◌>>=◌}
use moksha.Dominance.Rank.{
  rank, at-rpo_index, rank-injective, differ, fits_below, all_fit, Above, here, up, Above-trans,
}

module _ (idoms : List (ℕ × ℕ)) (rpo : List ℕ) (fit : all_fit idoms rpo rpo ≡ true) where
  Known : ℕ → Type 0
  Known b = contains b rpo ≡ true

  fits :
      (b : ℕ) (bs : List ℕ)
      → all_fit idoms rpo bs ≡ true
      → contains b bs ≡ true
      → fits_below rpo b (at idoms b) ≡ true
  unfolding all_fit
  fits b [] f h = cc
  fits b (x ∷ xs) f h = elim (Bool-cases (b == x)) [
    | inl e ↦ ap (λ y. fits_below rpo y (at idoms y)) ((==_iff b x).0 e) ∙ ground (arith, f)
    | inr e ↦
        let rest : all_fit idoms rpo xs ≡ true = ground (arith, f) in
        fits b xs rest (ground (arith, h, e))
  ]

  -- A known block has an immediate dominator, which is known, and earlier or the block itself.
  parent :
      (b : ℕ)
      → Known b
      → (d : ℕ) × (at idoms b ≡ some d)
        × Known d
        × (rank rpo d ≤ rank rpo b)
        × (0 < rank rpo b → rank rpo d < rank rpo b)
  unfolding Known
  parent b h = go (at idoms b) refl
    where
      go :
          (o : Option ℕ)
          → at idoms b ≡ o
          → (d : ℕ) × (at idoms b ≡ some d)
            × (contains d rpo ≡ true)
            × (rank rpo d ≤ rank rpo b)
            × (0 < rank rpo b → rank rpo d < rank rpo b)
      go none e = let fitting = ap (fits_below rpo b) (sym e) ∙ fits b rpo fit h in cc
      go (some d) e =
          let fitting : fits_below rpo b (some d) ≡ true =
            ap (fits_below rpo b) (sym e) ∙ fits b rpo fit h in
          let same : (d == b) ≡ true → rank rpo d ≡ rank rpo b =
            (λ i. ap (rank rpo) ((==_iff d b).0 i)) in
          (
            d,
            e,
            ground (arith, fitting),
            ground (arith, fitting, same),
            (λ pos. ground (arith, fitting, pos)),
          )

  Above-Known : {a b : ℕ} → Above idoms a b → Known b → Known a × (rank rpo a ≤ rank rpo b)
  Above-Known here h = (h, omega arith)
  Above-Known {a} {b} (up {d = d} e r) h =
      let (p, at_p, p_known, less, strict) = parent b h in
      let same : p ≡ d = cc in
      let (a_known, a_less) = Above-Known r (rw (sym same) p_known) in
      let order : rank rpo p ≡ rank rpo d = ap (rank rpo) same in
      (a_known, omega (arith, less, a_less, order))

  number : (b : ℕ) → Known b → at (rpo_index 0 rpo) b ≡ some (rank rpo b)
  unfolding Known
  number b h = at-rpo_index 0 b rpo h ∙ ap some (omega arith)

  -- What `climb` gives: a block above `b`, no later than `c`, and below everything that is both.
  record IsClimb (c b r : ℕ) : Type 0 where
    known : Known r
    early : rank rpo r ≤ rank rpo c
    lower : rank rpo r ≤ rank rpo b
    moved : r ≢ b → rank rpo r < rank rpo b
    above : Above idoms r b
    kept : (a : ℕ) → Above idoms a b → rank rpo a ≤ rank rpo c → Above idoms a r

  climb-IsClimb :
      (fuel c b : ℕ)
      → Known c
      → Known b
      → rank rpo b < fuel
      → (r : ℕ) × (climb idoms (rpo_index 0 rpo) fuel c b ≡ some r) × IsClimb c b r
  unfolding climb
  climb-IsClimb zero c b k h less = absurd (omega arith)
  climb-IsClimb (suc fuel) c b k h less = elim (Bool-cases (ltb (rank rpo c) (rank rpo b))) [
    | inr e ↦ (
      b,
      rw (climb, number b h, ◌>>=◌) (rw (number c k, ◌>>=◌) (rw e refl)),
      record {
        known = h;
        early = ground (arith, e);
        lower = omega arith;
        moved = λ n. absurd (n refl);
        above = here;
        kept = λ a r l. r;
      },
    )
    | inl e ↦
        let (d, at_d, d_known, d_less, strict) = parent b h in
        let later : rank rpo c < rank rpo b = ground (arith, e) in
        let fell : rank rpo d < rank rpo b = strict (omega (arith, later)) in
        let (r, runs, i) = climb-IsClimb fuel c d k d_known (omega (arith, fell, less)) in
        (
          r,
          rw (climb, number b h, ◌>>=◌) (rw (number c k, ◌>>=◌) (rw e (rw (at_d, ◌>>=◌) runs))),
          record {
            known = i.known;
            early = i.early;
            lower = omega (arith, i.lower, fell);
            moved = λ n. omega (arith, i.lower, fell);
            above = up at_d i.above;
            kept = λ a r l. onward d at_d later i r l;
          },
        )
  ]
    where
      onward :
          (d : ℕ) {a r : ℕ}
          → at idoms b ≡ some d
          → rank rpo c < rank rpo b
          → IsClimb c d r
          → Above idoms a b
          → rank rpo a ≤ rank rpo c
          → Above idoms a r
      onward d at_d later i here l = absurd (omega (arith, later, l))
      onward d {a} {r} at_d later i (up {d = x} e s) l =
          let same : x ≡ d = cc in i.kept a (subst (λ y. Above idoms a y) same s) l

  -- Two climbs that do not leave both blocks in place bring them closer to the first block.
  fall :
      {b c b2 c2 : ℕ}
      → IsClimb c b b2
      → IsClimb b2 c c2
      → b ≢ c
      → Known b
      → Known c
      → rank rpo b2 + rank rpo c2 < rank rpo b + rank rpo c
  unfolding Known
  fall {b} {c} {b2} {c2} i j n h k = elim (Bool-cases (b2 == b)) [
    | inr e ↦ omega (arith, i.moved (λ s. differ e s), j.lower)
    | inl e ↦ elim (Bool-cases (c2 == c)) [
      | inr f ↦ omega (arith, j.moved (λ s. differ f s), i.lower)
      | inl f ↦
          let b_place : rank rpo b2 ≡ rank rpo b = ap (rank rpo) ((==_iff b2 b).0 e) in
          let c_place : rank rpo c2 ≡ rank rpo c = ap (rank rpo) ((==_iff c2 c).0 f) in
          let same : rank rpo b ≡ rank rpo c = omega (arith, i.early, j.early, b_place, c_place) in
          absurd (n (rank-injective b c rpo h k same))
    ]
  ]

  -- Let every block of the order have an immediate dominator in the order, which is earlier; only
  -- the first block is its own. With more fuel than the sum of the places of two blocks of the order
  -- `intersect` ends. The block that it finds is above both, and every block above both is above it.
  pub intersect-nearest :
      (fuel b c : ℕ)
      → contains b rpo ≡ true
      → contains c rpo ≡ true
      → rank rpo b + rank rpo c < fuel
      → (r : ℕ) × (intersect idoms (rpo_index 0 rpo) fuel b c ≡ some r)
        × Above idoms r b
        × Above idoms r c
        × ((a : ℕ) → Above idoms a b → Above idoms a c → Above idoms a r)
  unfolding intersect Known
  intersect-nearest zero b c h k less = absurd (omega arith)
  intersect-nearest (suc fuel) b c h k less = elim (Bool-cases (b == c)) [
    | inl e ↦
        let same : b ≡ c = (==_iff b c).0 e in
        (b, rw (intersect, e) refl, here, subst (λ y. Above idoms b y) same here, λ a r s. r)
    | inr e ↦
        let (b2, b_runs, i) = climb-IsClimb (suc fuel) c b k h (omega (arith, less)) in
        let (c2, c_runs, j) = climb-IsClimb (suc fuel) b2 c i.known k (omega (arith, less)) in
        let (r, runs, r_b, r_c, nearest) =
          intersect-nearest fuel b2 c2 i.known j.known
            (omega (arith, less, fall i j (λ same. differ e same) h k)) in
        (
          r,
          rw (intersect, e) (rw (b_runs, ◌>>=◌) (rw (c_runs, ◌>>=◌) runs)),
          Above-trans r_b i.above,
          Above-trans r_c j.above,
          λ a s t.
              let a_b2 = i.kept a s (Above-Known t k).1 in
              nearest a a_b2 (j.kept a t (Above-Known a_b2 i.known).1),
        )
  ]
