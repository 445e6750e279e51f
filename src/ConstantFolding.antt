-- ===== src/ConstantFolding.antt =====
-- Folding of comparisons and of arithmetic on constant integers:
-- lib/middle/mir/passes/ConstantFoldingPass.cpp, with the values of include/moksha/MIR/MIRInst.h that
-- it looks at.
pub mod Compare
pub mod Arithmetic
pub mod Signed
use moksha.Base.{
  ℕ, zero, suc, ◌+◌, ◌-◌, ◌*◌, ◌/◌, ◌%◌, ◌^◌, ◌==◌, Bool, true, false, not, ◌&&◌, ◌||◌, Option,
  none, some, List, [], ◌∷◌, Bytes, ltb, leb, if◌then◌else◌,
}

pub data ℤ : Type 0 where
  pos : ℕ → ℤ
  negsuc : ℕ → ℤ

-- `static_cast<int64_t>` of a `uint64_t`.
abbrev pub to_signed : ℕ → ℤ
to_signed n = if ltb n (2 ^ 63) then pos n else negsuc (2 ^ 64 - 1 - n)

abbrev pub ltz : ℤ → ℤ → Bool
ltz (pos a) (pos b) = ltb a b
ltz (pos a) (negsuc b) = false
ltz (negsuc a) (pos b) = true
ltz (negsuc a) (negsuc b) = ltb b a

abbrev lez : ℤ → ℤ → Bool
lez (pos a) (pos b) = leb a b
lez (pos a) (negsuc b) = false
lez (negsuc a) (pos b) = true
lez (negsuc a) (negsuc b) = leb b a

abbrev pub eqz : ℤ → ℤ → Bool
eqz (pos a) (pos b) = a == b
eqz (pos a) (negsuc b) = false
eqz (negsuc a) (pos b) = false
eqz (negsuc a) (negsuc b) = a == b

-- `hir::HIRIntType` with its width and its sign, or another type with its text.
pub data MirType : Type 0 where
  int_type : ℕ → Bool → MirType
  other_type : Bytes → MirType

-- The opcodes of `CastInst`, and the constants that are casts.
pub data CastKind : Type 0 where
  bit_cast int_to_float float_to_int trunc s_ext z_ext ptr_to_int int_to_ptr any_cast : CastKind
  array_to_slice slice_to_array upcast constant_bit_cast constant_any_cast : CastKind
  constant_array_to_slice constant_slice_to_array : CastKind

-- What the pass sees of a value, with its address first. A null type is `none`.
pub data MirValue : Type 0 where
  constant_int : ℕ → ℕ → Option MirType → MirValue
  constant_null : ℕ → MirValue
  cast : ℕ → CastKind → Option MirType → MirValue → MirValue
  other_value : ℕ → MirValue

abbrev pub address : MirValue → ℕ
address (constant_int a n t) = a
address (constant_null a) = a
address (cast a k t v) = a
address (other_value a) = a

-- `unwrapCasts`
unfoldable pub unwrap_casts : MirValue → MirValue
unwrap_casts (cast a k t v) = unwrap_casts v
unwrap_casts v = v

-- `find("i") != npos`
abbrev has_i : Bytes → Bool
has_i [] = false
has_i (c ∷ cs) = c == b'i' || has_i cs

abbrev pub is_signed : Option MirType → Bool
is_signed none = false
is_signed (some (int_type width signed)) = signed
is_signed (some (other_type text)) = has_i text

-- `CompareInst::Predicate`
pub data Predicate : Type 0 where
  eq ne lt le gt ge ult ule ugt uge : Predicate

-- The switch on the predicate for two `int64_t`; `default` leaves the result false.
unfoldable pub compare_signed : Predicate → ℤ → ℤ → Bool
compare_signed eq a b = eqz a b
compare_signed ne a b = not (eqz a b)
compare_signed lt a b = ltz a b
compare_signed le a b = lez a b
compare_signed gt a b = ltz b a
compare_signed ge a b = lez b a
compare_signed _ a b = false

-- The switch on the predicate for two `uint64_t`.
unfoldable pub compare_unsigned : Predicate → ℕ → ℕ → Bool
compare_unsigned eq l r = l == r
compare_unsigned ne l r = not (l == r)
compare_unsigned lt l r = ltb l r
compare_unsigned le l r = leb l r
compare_unsigned gt l r = ltb r l
compare_unsigned ge l r = leb r l
compare_unsigned _ l r = false

-- The result of the comparison of two `uint64_t`, as `int64_t` where the type is signed.
unfoldable pub compare_ints : Bool → Predicate → ℕ → ℕ → Bool
unfolding compare_signed compare_unsigned
compare_ints true p l r = compare_signed p (to_signed l) (to_signed r)
compare_ints false p l r = compare_unsigned p l r

abbrev both_null : MirValue → MirValue → Bool
both_null (constant_null a) (constant_null b) = true
both_null v w = false

-- Identical values, or two nulls.
abbrev fold_same : Predicate → Option Bool
fold_same eq = some true
fold_same ne = some false
fold_same _ = none

abbrev fold_constants : Predicate → MirValue → MirValue → Option Bool
fold_constants p (constant_int a l t) (constant_int b r u) = some (compare_ints (is_signed t) p l r)
fold_constants p v w = none

-- The constant that a comparison is folded to, if any.
unfoldable pub fold_compare : Predicate → MirValue → MirValue → Option Bool
fold_compare p lhs rhs =
    let l = unwrap_casts lhs in
    let r = unwrap_casts rhs in
    if (address l == address r) || both_null l r then fold_same p else fold_constants p l r

pub data Opcode : Type 0 where
  add sub mul div modulo other_opcode : Opcode

-- The unsigned branch of the folding of integer arithmetic; `none` where `valid` is false.
unfoldable pub unsigned_math : Opcode → ℕ → ℕ → Option ℕ
unsigned_math add l r = some ((l + r) % 2 ^ 64)
unsigned_math sub l r = some ((l + (2 ^ 64 - r)) % 2 ^ 64)
unsigned_math mul l r = some (l * r % 2 ^ 64)
unsigned_math div l r = if r == 0 then none else some (l / r)
unsigned_math modulo l r = if r == 0 then none else some (l % r)
unsigned_math other_opcode l r = none
