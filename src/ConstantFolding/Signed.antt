-- ===== src/ConstantFolding/Signed.antt =====
-- The signed branch of the folding of integer arithmetic in
-- lib/middle/mir/passes/ConstantFoldingPass.cpp, on integers of any size: a result that an `int64_t`
-- does not hold is undefined behaviour in C++, and an outcome of its own here.
use moksha.Base.{
  ℕ, zero, suc, ◌+◌, ◌-◌, ◌*◌, ◌/◌, ◌%◌, ◌^◌, ◌<◌, ◌≡◌, ◌==◌, refl, ap, Bool, true, false, not, ltb,
  if◌then◌else◌, arith, sym, ◌∙◌, Option, none, some,
}
use moksha.ConstantFolding.{
  ℤ, pos, negsuc, to_signed, Opcode, add, sub, mul, div, modulo, other_opcode, MirType, MirValue,
  constant_int, unwrap_casts, is_signed, unsigned_math,
}

abbrev negate : ℤ → ℤ
negate (pos zero) = pos 0
negate (pos (suc n)) = negsuc n
negate (negsuc n) = pos (suc n)

-- The difference of two natural numbers.
abbrev difference : ℕ → ℕ → ℤ
difference m n = if ltb m n then negsuc (n - m - 1) else pos (m - n)

infixl 60 ◌+ℤ◌
abbrev pub ◌+ℤ◌ : ℤ → ℤ → ℤ
pos a +ℤ pos b = pos (a + b)
pos a +ℤ negsuc b = difference a (suc b)
negsuc a +ℤ pos b = difference b (suc a)
negsuc a +ℤ negsuc b = negsuc (suc (a + b))

abbrev magnitude : ℤ → ℕ
magnitude (pos n) = n
magnitude (negsuc n) = suc n

abbrev is_negative : ℤ → Bool
is_negative (pos n) = false
is_negative (negsuc n) = true

abbrev with_sign : Bool → ℕ → ℤ
with_sign true n = negate (pos n)
with_sign false n = pos n

abbrev differ : Bool → Bool → Bool
differ true b = not b
differ false b = b

-- C++ rounds a quotient towards zero, and a remainder has the sign of the dividend.
abbrev product : ℤ → ℤ → ℤ
product a b = with_sign (differ (is_negative a) (is_negative b)) (magnitude a * magnitude b)

abbrev quotient : ℤ → ℤ → ℤ
quotient a b = with_sign (differ (is_negative a) (is_negative b)) (magnitude a / magnitude b)

abbrev remainder : ℤ → ℤ → ℤ
remainder a b = with_sign (is_negative a) (magnitude a % magnitude b)

-- Whether an `int64_t` holds the number.
abbrev in_range : ℤ → Bool
in_range (pos n) = ltb n (2 ^ 63)
in_range (negsuc n) = ltb n (2 ^ 63)

-- `static_cast<uint64_t>` of an `int64_t`.
abbrev pub to_unsigned : ℤ → ℕ
to_unsigned (pos n) = n
to_unsigned (negsuc n) = 2 ^ 64 - 1 - n

-- A constant, no folding, or undefined behaviour.
pub data Outcome : Type 0 where
  constant : ℕ → Outcome
  unfolded undefined : Outcome

abbrev checked : ℤ → ℤ → Outcome
checked bound z = if in_range bound then constant (to_unsigned z) else undefined

abbrev checked_division : ℤ → ℤ → ℤ → Outcome
checked_division b bound z = if magnitude b == 0 then unfolded else checked bound z

unfoldable pub signed_math : Opcode → ℕ → ℕ → Outcome
signed_math op l r =
    let a = to_signed l in
    let b = to_signed r in
    elim op [
      | add ↦ checked (a +ℤ b) (a +ℤ b)
      | sub ↦ checked (a +ℤ negate b) (a +ℤ negate b)
      | mul ↦ checked (product a b) (product a b)
      | div ↦ checked_division b (quotient a b) (quotient a b)
      | modulo ↦ checked_division b (quotient a b) (remainder a b)
      | other_opcode ↦ unfolded
    ]

constant_value : Outcome → ℕ
constant_value (constant n) = n
constant_value _ = 0

if_constant :
    (b : Bool) (m n : ℕ) → (if b then constant m else undefined) ≡ constant n → (b ≡ true) × (n ≡ m)
unfolding constant_value
if_constant true m n e = (refl, sym (ap constant_value e))
if_constant false m n e = cc

-- A result that is a constant is in range, and is the word of the number.
checked_constant :
    (z : ℤ) (n : ℕ) → checked z z ≡ constant n → (in_range z ≡ true) × (n ≡ to_unsigned z)
checked_constant z n e = if_constant (in_range z) (to_unsigned z) n e

-- The word of a sum that is in range.
add_word :
    (l r : ℕ)
    → l < 2 ^ 64
    → r < 2 ^ 64
    → in_range (to_signed l +ℤ to_signed r) ≡ true
    → to_unsigned (to_signed l +ℤ to_signed r) ≡ (l + r) % 2 ^ 64
add_word l r h k b = ground arith

sub_word :
    (l r : ℕ)
    → l < 2 ^ 64
    → r < 2 ^ 64
    → in_range (to_signed l +ℤ negate (to_signed r)) ≡ true
    → to_unsigned (to_signed l +ℤ negate (to_signed r)) ≡ (l + (2 ^ 64 - r)) % 2 ^ 64
sub_word l r h k b = ground arith

-- Where the signed addition of two 64-bit words is defined, it is folded to the word that the
-- unsigned one gives.
pub signed_math-add :
    (l r n : ℕ) → l < 2 ^ 64 → r < 2 ^ 64 → signed_math add l r ≡ constant n → n ≡ (l + r) % 2 ^ 64
unfolding signed_math
signed_math-add l r n h k e =
    let (b, w) = checked_constant (to_signed l +ℤ to_signed r) n e in w ∙ add_word l r h k b

-- The same for subtraction.
pub signed_math-sub :
    (l r n : ℕ)
    → l < 2 ^ 64
    → r < 2 ^ 64
    → signed_math sub l r ≡ constant n
    → n ≡ (l + (2 ^ 64 - r)) % 2 ^ 64
unfolding signed_math
signed_math-sub l r n h k e =
    let (b, w) = checked_constant (to_signed l +ℤ negate (to_signed r)) n e in
    w ∙ sub_word l r h k b

abbrev from_option : Option ℕ → Outcome
from_option none = unfolded
from_option (some n) = constant n

abbrev fold_words : Opcode → MirType → MirValue → MirValue → Outcome
fold_words op t (constant_int a l u) (constant_int b r v) =
    if is_signed (some t) then signed_math op l r else from_option (unsigned_math op l r)
fold_words op t v w = unfolded

-- The integer that an instruction of type `t` is folded to.
unfoldable pub fold_binary : Opcode → MirType → MirValue → MirValue → Outcome
fold_binary op t lhs rhs = fold_words op t (unwrap_casts lhs) (unwrap_casts rhs)

-- Whatever the type of the instruction, its width included: an addition of two constants, if it is
-- folded, is folded to the sum modulo 2^64.
pub fold_binary_wraps :
    (t : MirType) (a b l r n : ℕ) (u v : Option MirType)
    → l < 2 ^ 64
    → r < 2 ^ 64
    → fold_binary add t (constant_int a l u) (constant_int b r v) ≡ constant n
    → n ≡ (l + r) % 2 ^ 64
unfolding fold_binary unwrap_casts unsigned_math constant_value
fold_binary_wraps t a b l r n u v h k e = by_sign (is_signed (some t)) e
  where
    by_sign :
        (s : Bool)
        → (if s then signed_math add l r else constant ((l + r) % 2 ^ 64)) ≡ constant n
        → n ≡ (l + r) % 2 ^ 64
    by_sign true e = signed_math-add l r n h k e
    by_sign false e = sym (ap constant_value e)
