-- ===== src/Lexer/Number/Suffix.antt =====
-- The suffixes of numeric literals: the `StringSwitch` of `scanNumber` in
-- lib/frontend/lexer/Lexer.cpp.
use moksha.Base.{Bool, true, false, List, [], ◌∷◌, Bytes, codes, bytes_eq}
use moksha.Lexer.Kinds.{NumericSuffix, no_suffix}
use moksha.Lexer.Keywords.{string_switch}

abbrev pub suffixes : List (Bytes × NumericSuffix)
suffixes =
    (codes "i8", NumericSuffix.i8)
    ∷ (codes "u8", NumericSuffix.u8)
    ∷ (codes "i16", NumericSuffix.i16)
    ∷ (codes "u16", NumericSuffix.u16)
    ∷ (codes "i32", NumericSuffix.i32)
    ∷ (codes "u32", NumericSuffix.u32)
    ∷ (codes "i64", NumericSuffix.i64)
    ∷ (codes "u64", NumericSuffix.u64)
    ∷ (codes "isize", NumericSuffix.isize)
    ∷ (codes "usize", NumericSuffix.usize)
    ∷ (codes "f8", NumericSuffix.f8)
    ∷ (codes "f16", NumericSuffix.f16)
    ∷ (codes "f32", NumericSuffix.f32)
    ∷ (codes "f64", NumericSuffix.f64)
    ∷ (codes "d", NumericSuffix.d)
    ∷ []

unfoldable pub suffix_kind : Bytes → NumericSuffix
unfolding string_switch bytes_eq
suffix_kind = string_switch suffixes no_suffix

abbrev pub is_none : NumericSuffix → Bool
is_none no_suffix = true
is_none _ = false
