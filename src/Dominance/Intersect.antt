-- ===== src/Dominance/Intersect.antt =====
-- `MIRDominance::intersect` in lib/middle/analysis/MIRDominance.cpp, with the numbers of the blocks
-- that `analyze` gives it.
use moksha.Base.{
  ℕ, zero, suc, ◌==◌, true, false, Option, none, some, List, [], ◌∷◌, ltb, if◌then◌else◌,
}

-- `at` of a map: `none` is its exception for a missing key.
unfoldable pub at : List (ℕ × ℕ) → ℕ → Option ℕ
at [] k = none
at ((key, v) ∷ m) k = if k == key then some v else at m k

-- `rpoIndex[*it] = idx++`
unfoldable pub rpo_index : ℕ → List ℕ → List (ℕ × ℕ)
rpo_index n [] = []
rpo_index n (b ∷ bs) = (b, n) ∷ rpo_index (suc n) bs

infixl 5 ◌>>=◌
abbrev pub ◌>>=◌ : Option ℕ → (ℕ → Option ℕ) → Option ℕ
◌>>=◌ none f = none
◌>>=◌ (some v) f = f v

module _ (idoms index : List (ℕ × ℕ)) where
  -- `while (rpoIndex.at(b) > rpoIndex.at(c)) b = idoms.at(b);`
  unfoldable pub climb : ℕ → ℕ → ℕ → Option ℕ
  climb zero c b = none
  climb (suc fuel) c b = do
    i ← at index b
    j ← at index c
    elim (ltb j i) [ false ↦ some b | true ↦ do d ← at idoms b; climb fuel c d ]

  -- With more fuel than the sum of the numbers of the two blocks it ends.
  unfoldable pub intersect : ℕ → ℕ → ℕ → Option ℕ
  intersect zero b c = none
  intersect (suc fuel) b c = elim (b == c) [
    | true ↦ some b
    | false ↦ do b2 ← climb (suc fuel) c b; c2 ← climb (suc fuel) b2 c; intersect fuel b2 c2
  ]
