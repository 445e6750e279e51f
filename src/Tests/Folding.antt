-- ===== src/Tests/Folding.antt =====
-- The theorems on constant folding at concrete inputs.
use moksha.Base.{◌↔◌, ◌≢◌, ◌≤◌, ℕ, ◌+◌, ◌^◌, ◌<◌, ◌≡◌, ◌%◌, refl, none, true, false, some, arith}
use moksha.ConstantFolding.{
  unwrap_casts, int_type, constant_int, eq, ne, lt, le, gt, ge, compare_ints, add, sub, div,
  unsigned_math,
}
use moksha.ConstantFolding.Compare.{place, compare_ints_iff}
use moksha.ConstantFolding.Signed.{constant, undefined, signed_math, fold_binary, fold_binary_wraps}
use moksha.ConstantFolding.Arithmetic.{unsigned_math-add-sub}

two_less_three : signed_math sub 2 3 ≡ constant 18446744073709551615
unfolding signed_math
two_less_three = refl

wide_sum :
    fold_binary add (int_type 8 false) (constant_int 1 200 none) (constant_int 2 100 none)
    ≡ constant 300
unfolding fold_binary unwrap_casts unsigned_math
wide_sum = refl

-- 3 and -1.
abbrev three : ℕ
three = 3

abbrev minus_one : ℕ
minus_one = 18446744073709551615

compare_ints_iff_example :
    ((compare_ints true eq three minus_one ≡ true) ↔ (three ≡ minus_one))
    × ((compare_ints true ne three minus_one ≡ true) ↔ (three ≢ minus_one))
    × ((compare_ints true lt three minus_one ≡ true) ↔ (place true three < place true minus_one))
    × ((compare_ints true le three minus_one ≡ true) ↔ (place true three ≤ place true minus_one))
    × ((compare_ints true gt three minus_one ≡ true) ↔ (place true minus_one < place true three))
    × ((compare_ints true ge three minus_one ≡ true) ↔ (place true minus_one ≤ place true three))
compare_ints_iff_example = compare_ints_iff true three minus_one (omega arith) (omega arith)

unsigned_math-add-sub_example :
    (s d : ℕ) × (unsigned_math add 18446744073709551615 5 ≡ some s)
    × (s ≡ 4)
    × (unsigned_math sub s 5 ≡ some 18446744073709551615)
    × (unsigned_math sub 18446744073709551615 5 ≡ some d)
    × (d ≡ 18446744073709551610)
    × (unsigned_math add d 5 ≡ some 18446744073709551615)
unsigned_math-add-sub_example =
    unsigned_math-add-sub 18446744073709551615 5 (omega arith) (omega arith)

-- A sum of two 8-bit words that does not fit into 8 bits.
fold_binary_wraps_example : 300 ≡ (200 + 100) % 2 ^ 64
fold_binary_wraps_example =
    fold_binary_wraps (int_type 8 false) 1 2 200 100 300 none none (omega arith) (omega arith)
      wide_sum

-- The least number divided by -1 is undefined.
least_by_minus_one : signed_math div 9223372036854775808 18446744073709551615 ≡ undefined
unfolding signed_math
least_by_minus_one = refl
