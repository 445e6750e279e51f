-- ===== src/Lexer/Number.antt =====
-- `scanNumber` in lib/frontend/lexer/Lexer.cpp.
pub mod Suffix
pub mod Moves
pub mod Scanned
pub mod Decimal
use Prim.Native.Nat.{bit_or}
use moksha.Base.{
  ℕ, zero, suc, ◌+◌, ◌-◌, ◌==◌, Bool, true, false, not, ◌&&◌, ◌||◌, Option, none, some, List, [],
  ◌∷◌, ◌++◌, Bytes, length, get_or, take, codes, ltb, if◌then◌else◌,
}
use moksha.Lexer.Kinds.{
  TokenKind, Token, NumericSuffix, no_suffix, d, token, tf_none, tf_is_hex, tf_is_bin, tf_is_octal,
}
use moksha.Lexer.State.{Lexer, at_end, peek, advance, span, skip_while, unexpected, error_at}
use moksha.Lexer.Chars.{
  is_digit, is_alnum, is_hex_digit, is_bin_digit, is_oct_digit, is_ascii_ident_start, is_utf8_start,
}
use Suffix.{suffix_kind, is_none}

-- The radix of the prefix: `isHex`, `isBin`, `isOct`, or none of them.
pub data Radix : Type 0 where
  dec hex bin oct : Radix

-- The locals of the function.
pub record Number : Type 0 where
  pub is_float : Bool
  pub radix : Radix
  pub had_lexical_error : Bool

abbrev pub plain : Number
plain = record { is_float = false; radix = dec; had_lexical_error = false }

abbrev or_underscore : (ℕ → Bool) → ℕ → Bool
or_underscore p c = p c || c == b'_'

abbrev pub digit_or_underscore : ℕ → Bool
digit_or_underscore = or_underscore is_digit

abbrev dotted : ℕ → Bool
dotted c = is_digit c || c == b'.' || c == b'_'

-- The digits behind a prefix of two bytes.
abbrev prefixed : Lexer → (ℕ → Bool) → Radix → Lexer × Number
prefixed s p r = (skip_while (or_underscore p) (advance s 2), record plain { radix = r })

-- 1. Initial prefix and type detection.
pub number_prefix : Lexer → Lexer × Number
number_prefix s =
    if peek s 0 == b'.'
    then (skip_while digit_or_underscore (advance s 1), record plain { is_float = true })
    else if peek s 0 == b'0'
    then (if peek s 1 == b'x' || peek s 1 == b'X'
        then prefixed s is_hex_digit hex
        else if peek s 1 == b'b' || peek s 1 == b'B'
        then prefixed s is_bin_digit bin
        else if peek s 1 == b'o' || peek s 1 == b'O'
        then prefixed s is_oct_digit oct
        else (s, plain))
    else (s, plain)

-- A second decimal point is an error: 1.2.3
pub more_points : Lexer → Number → Lexer × Number
more_points s n =
    if peek s 0 == b'.'
    then (
      skip_while dotted (unexpected s s.cur (codes "multiple decimal points in float literal")),
      record n { had_lexical_error = true },
    )
    else (s, n)

pub fraction : Lexer → Number → Lexer × Number
fraction s n =
    if peek s 0 == b'.'
    then (if is_digit (peek s 1)
        then more_points (skip_while digit_or_underscore (advance s 1))
            (record n { is_float = true })
        else if not (is_ascii_ident_start (peek s 1))
        then (advance s 1, record n { is_float = true })
        else (s, n))
    else (s, n)

-- The sign of an exponent.
abbrev exponent_sign : Lexer → Lexer
exponent_sign s = if peek s 0 == b'+' || peek s 0 == b'-' then advance s 1 else s

pub exponent_digits : Lexer → Number → Lexer × Number
exponent_digits s n =
    if not (is_digit (peek s 0))
    then (
      skip_while digit_or_underscore (unexpected s s.cur (codes "missing digits after exponent")),
      record n { had_lexical_error = true },
    )
    else (skip_while digit_or_underscore s, n)

pub exponent : Lexer → Number → Lexer × Number
exponent s n =
    if peek s 0 == b'e' || peek s 0 == b'E'
    then exponent_digits (exponent_sign (advance s 1)) (record n { is_float = true })
    else (s, n)

abbrev pub uncurried {ℓ} : {A : Type ℓ} → (Lexer → Number → A) → Lexer × Number → A
uncurried f (s, n) = f s n

abbrev is_dec : Radix → Bool
is_dec dec = true
is_dec _ = false

-- 2. The body of a decimal number or a float.
pub number_body : Lexer → Number → Lexer × Number
number_body s n =
    if is_dec n.radix
    then uncurried exponent (fraction (skip_while digit_or_underscore s) n)
    else (s, n)

-- 3. The suffix. The text that was read for it may be empty, where the first byte of a UTF-8
-- sequence stands behind the number.
pub number_suffix : Lexer → Number → Lexer × Number × NumericSuffix
number_suffix s n =
    if not (at_end s) && (is_ascii_ident_start (peek s 0) || is_utf8_start (peek s 0))
    then (let len = span (or_underscore is_alnum) s.rest in
        let text = take len s.rest in
        let t = advance s len in
        if is_none (suffix_kind text) && ltb 0 len
        then (
          unexpected t s.cur (codes "invalid numeric suffix '" ++ (text ++ codes "'")),
          record n { had_lexical_error = true },
          no_suffix,
        )
        else (t, n, suffix_kind text))
    else (s, n, no_suffix)

-- `*(curPtr - 1) == '_'`, of the bytes from `start` to the cursor.
abbrev ends_in_underscore : Bytes → Bool
ends_in_underscore text = ltb 0 (length text) && get_or text (length text - 1) 0 == b'_'

pub trailing_underscore : Bytes → NumericSuffix → Lexer → Number → Lexer × Number
trailing_underscore text suffix s n =
    if ends_in_underscore text && is_none suffix
    then (
      unexpected s s.cur (codes "number cannot end with underscore"),
      record n { had_lexical_error = true },
    )
    else (s, n)

-- The place of the first two underscores in a row.
pub double_underscore : Bytes → Option ℕ
double_underscore [] = none
double_underscore (c ∷ []) = none
double_underscore (c ∷ e ∷ cs) =
    let later = double_underscore (e ∷ cs) in
    if c == b'_' && e == b'_' then some 0 else elim later [ none ↦ none | some i ↦ some (suc i) ]

pub consecutive_underscores : Bytes → ℕ → Lexer → Number → Lexer × Number
consecutive_underscores text start s n = elim (double_underscore text) [
  | none ↦ (s, n)
  | some i ↦ (
    unexpected s (start + i) (codes "number cannot contain consecutive underscores"),
    record n { had_lexical_error = true },
  )
]

abbrev radix_flag : Radix → ℕ
radix_flag dec = tf_none
radix_flag hex = tf_is_hex
radix_flag bin = tf_is_bin
radix_flag oct = tf_is_octal

abbrev number_kind : Bool → NumericSuffix → TokenKind
number_kind is_float d = TokenKind.decimal_literal
number_kind is_float _ = if is_float then TokenKind.float_literal else TokenKind.integer_literal

-- The token from `start` to the cursor.
abbrev pub number_token : ℕ → NumericSuffix → Lexer → Number → Lexer × Token
number_token start suffix s n = if n.had_lexical_error then (s, error_at s start) else (
  s,
  record (token (number_kind n.is_float suffix) start (s.cur - start)) {
    suffix = suffix;
    flags = bit_or tf_none (radix_flag n.radix);
  },
)

-- The checks on the text of the number that begins at `s`, and its token.
abbrev number_end : Lexer → Lexer × Number × NumericSuffix → Lexer × Token
number_end s (t, n, suffix) =
    let text = take (t.cur - s.cur) s.rest in
    uncurried (number_token s.cur suffix)
      (uncurried (consecutive_underscores text s.cur) (trailing_underscore text suffix t n))

unfoldable pub scan_number : Lexer → Lexer × Token
scan_number s = number_end s (uncurried number_suffix (uncurried number_body (number_prefix s)))
