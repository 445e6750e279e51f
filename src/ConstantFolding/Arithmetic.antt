-- ===== src/ConstantFolding/Arithmetic.antt =====
-- What folded unsigned arithmetic gives.
use moksha.Base.{
  ltb, leb, ◌-◌, if◌then◌else◌, ℕ, ◌+◌, ◌*◌, ◌/◌, ◌%◌, ◌^◌, ◌<◌, ◌≡◌, ◌≢◌, ◌==◌, refl, false, some,
  arith, ap,
}
use native.Mathlib.Nat.{div-add-mod', mod-lt}
use moksha.ConstantFolding.{add, sub, div, modulo, unsigned_math}

-- On 64-bit words the folded sum is the sum, less 2^64 where it is 2^64 or more, and the folded
-- difference is the difference, with 2^64 added where the second word is the larger; each of the two
-- undoes the other.
pub unsigned_math-add-sub :
    (l r : ℕ)
    → l < 2 ^ 64
    → r < 2 ^ 64
    → (s d : ℕ) × (unsigned_math add l r ≡ some s)
      × (s ≡ (if ltb (l + r) (2 ^ 64) then l + r else l + r - 2 ^ 64))
      × (unsigned_math sub s r ≡ some l)
      × (unsigned_math sub l r ≡ some d)
      × (d ≡ (if leb r l then l - r else l + 2 ^ 64 - r))
      × (unsigned_math add d r ≡ some l)
unfolding unsigned_math
unsigned_math-add-sub l r h k = (
  (l + r) % 2 ^ 64,
  (l + (2 ^ 64 - r)) % 2 ^ 64,
  refl,
  ground arith,
  ap some (omega arith),
  refl,
  ground arith,
  ap some (omega arith),
)

-- Division and remainder by a number that is not zero are folded, to the quotient and the remainder.
pub unsigned_math_division :
    (l r : ℕ)
    → r ≢ 0
    → (q m : ℕ) × (unsigned_math div l r ≡ some q)
      × (unsigned_math modulo l r ≡ some m)
      × (q * r + m ≡ l)
      × (m < r)
unfolding unsigned_math
unsigned_math_division l r h =
    let nonzero : (r == 0) ≡ false = ground arith in
    (l / r, l % r, rw nonzero refl, rw nonzero refl, div-add-mod' l r, mod-lt l (omega arith))
