-- ===== src/ConstantFolding/Compare.antt =====
-- What a folded comparison says.
use moksha.Base.{
  ℕ, ◌+◌, ◌%◌, ◌^◌, ◌<◌, ◌≤◌, ◌↔◌, ◌≡◌, ◌≢◌, ◌==◌, refl, Bool, true, false, Option, some, arith,
  ltb,
}
use moksha.ConstantFolding.{
  MirType, int_type, CastKind, MirValue, constant_int, cast, address, unwrap_casts, eq, ne, lt, le,
  gt, ge, ugt, compare_ints, compare_signed, compare_unsigned, fold_compare,
}

-- The place of a 64-bit word in the order of the comparison: a signed word has its sign bit flipped,
-- which is adding 2^63 modulo 2^64.
abbrev pub place : Bool → ℕ → ℕ
place true n = (n + 2 ^ 63) % 2 ^ 64
place false n = n

-- On 64-bit words each of the six predicates is folded to true exactly if it holds of the words, or,
-- where the type is signed, of the words with the sign bit flipped: `==` and `!=` of the words
-- themselves, `<`, `<=`, `>` and `>=` in the order of the numbers.
pub compare_ints_iff :
    (signed : Bool) (l r : ℕ)
    → l < 2 ^ 64
    → r < 2 ^ 64
    → ((compare_ints signed eq l r ≡ true) ↔ (l ≡ r))
      × ((compare_ints signed ne l r ≡ true) ↔ (l ≢ r))
      × ((compare_ints signed lt l r ≡ true) ↔ (place signed l < place signed r))
      × ((compare_ints signed le l r ≡ true) ↔ (place signed l ≤ place signed r))
      × ((compare_ints signed gt l r ≡ true) ↔ (place signed r < place signed l))
      × ((compare_ints signed ge l r ≡ true) ↔ (place signed r ≤ place signed l))
unfolding compare_ints compare_signed compare_unsigned
compare_ints_iff true l r h k =
    (ground arith, ground arith, ground arith, ground arith, ground arith, ground arith)
compare_ints_iff false l r h k =
    (ground arith, ground arith, ground arith, ground arith, ground arith, ground arith)

eq_refl : (n : ℕ) → (n == n) ≡ true
eq_refl n = ground arith

-- The comparison of any value with a cast of it is folded, whatever the cast: `==` to true, and `!=`
-- to false, a truncation included.
pub cast_compare_folded :
    (a : ℕ) (k : CastKind) (t : Option MirType) (v : MirValue)
    → (fold_compare eq (cast a k t v) v ≡ some true)
      × (fold_compare ne (cast a k t v) v ≡ some false)
unfolding fold_compare unwrap_casts
cast_compare_folded a k t v =
    let same = eq_refl (address (unwrap_casts v)) in (rw same refl, rw same refl)

-- Of two constants of unsigned types with the larger one first, `GT` is folded to true, and `UGT`,
-- its unsigned form, to false.
pub ugt_folded :
    (a b l r width : ℕ)
    → a ≢ b
    → r < l
    → (fold_compare gt
          (constant_int a l (some (int_type width false)))
          (constant_int b r (some (int_type width false)))
        ≡ some true)
      × (fold_compare ugt
            (constant_int a l (some (int_type width false)))
            (constant_int b r (some (int_type width false)))
          ≡ some false)
unfolding fold_compare unwrap_casts compare_ints
ugt_folded a b l r width n h =
    let other : (a == b) ≡ false = ground arith in
    let less : ltb r l ≡ true = ground arith in (rw (other, less) refl, rw other refl)
