-- ===== src/Dominance/Rank.antt =====
-- The places of blocks in the order, and the blocks above a block.
use moksha.Base.{
  ℕ, suc, ◌+◌, ◌≡◌, ◌≢◌, ◌==◌, ap, sym, ◌∙◌, Bool, true, false, ◌&&◌, ◌||◌, Option, none, some,
  List, [], ◌∷◌, ltb, arith, if◌then◌else◌, Bool-cases, inl, inr, ==_iff,
}
use moksha.Worklist.{contains}
use moksha.Dominance.Intersect.{at, rpo_index}

-- The place of a block in the order.
unfoldable pub rank : List ℕ → ℕ → ℕ
rank [] b = 0
rank (x ∷ xs) b = if b == x then 0 else suc (rank xs b)

pub at-rpo_index :
    (n b : ℕ) (bs : List ℕ) → contains b bs ≡ true → at (rpo_index n bs) b ≡ some (n + rank bs b)
unfolding at rpo_index rank
at-rpo_index n b [] h = cc
at-rpo_index n b (x ∷ xs) h = elim (Bool-cases (b == x)) [
  | inl e ↦ rw e (ap some (omega arith))
  | inr e ↦
      let later : contains b xs ≡ true = ground (arith, h, e) in
      rw e (at-rpo_index (suc n) b xs later ∙ ap some (omega arith))
]

pub rank-injective :
    (b c : ℕ) (bs : List ℕ)
    → contains b bs ≡ true
    → contains c bs ≡ true
    → rank bs b ≡ rank bs c
    → b ≡ c
unfolding rank
rank-injective b c [] h k e = cc
rank-injective b c (x ∷ xs) h k e = elim (Bool-cases (b == x)) [
  | inl i ↦ elim (Bool-cases (c == x)) [
    | inl j ↦ (==_iff b x).0 i ∙ sym ((==_iff c x).0 j)
    | inr j ↦ absurd (ground (arith, i, j, e))
  ]
  | inr i ↦ elim (Bool-cases (c == x)) [
    | inl j ↦ absurd (ground (arith, i, j, e))
    | inr j ↦
        let b_later : contains b xs ≡ true = ground (arith, h, i) in
        let c_later : contains c xs ≡ true = ground (arith, k, j) in
        let same : rank xs b ≡ rank xs c = ground (arith, i, j, e) in
        rank-injective b c xs b_later c_later same
  ]
]

pub differ : {a b : ℕ} → (a == b) ≡ false → a ≢ b
differ {a} {b} e s = let test = (==_iff a b).1 s in cc

abbrev pub fits_below : List ℕ → ℕ → Option ℕ → Bool
fits_below rpo b none = false
fits_below rpo b (some d) =
    contains d rpo && (ltb (rank rpo d) (rank rpo b) || (d == b && rank rpo b == 0))

-- The immediate dominator of a block is earlier in the order; the first block is its own.
unfoldable pub all_fit : List (ℕ × ℕ) → List ℕ → List ℕ → Bool
all_fit idoms rpo [] = true
all_fit idoms rpo (b ∷ bs) = fits_below rpo b (at idoms b) && all_fit idoms rpo bs

-- The block itself, its immediate dominator, and so on.
pub data Above (idoms : List (ℕ × ℕ)) : ℕ → ℕ → Type 0 where
  here : {b : ℕ} → Above idoms b b
  up : {a b d : ℕ} → at idoms b ≡ some d → Above idoms a d → Above idoms a b

pub Above-trans :
    {idoms : List (ℕ × ℕ)} {a b c : ℕ} → Above idoms a b → Above idoms b c → Above idoms a c
Above-trans r here = r
Above-trans r (up e s) = up e (Above-trans r s)
