-- ===== src/Parser/Literals.antt =====
-- The literals that are one token: `parsePrimary` and `parseStringLiteral` in
-- lib/frontend/parser/Parser.cpp.
pub mod Numerals
use moksha.Base.{
  ℕ, zero, suc, ◌+◌, ◌-◌, ◌*◌, ◌%◌, ◌^◌, ◌==◌, Bool, false, not, ◌&&◌, ◌||◌, Option, none, some, [],
  ◌∷◌, ◌++◌, Bytes, codes, ltb, leb, if◌then◌else◌, take, drop, length, get_or,
}
use moksha.Diagnostics.Ids.{err_type_mismatch}
use moksha.Lexer.Kinds.{NumericSuffix}
use moksha.Lexer.Number.Suffix.{is_none}
use moksha.Parser.Ast.{
  Expr, integer_literal, float_literal, decimal_literal, string_literal, char_literal,
}
use moksha.Parser.State.{State, cur, advance, report_here, error}
use moksha.Parser.Strto.{stoull, digit_value}
use moksha.Parser.Unescape.{ToUtf8, unescape_string}

-- `text.erase(std::remove(…, '_'), …)`
unfoldable pub without_underscores : Bytes → Bytes
without_underscores [] = []
without_underscores (c ∷ cs) =
    let later = without_underscores cs in if c == b'_' then later else c ∷ later

-- "0b", "0o" or "0x" in front, in lower or upper case.
abbrev pub has_prefix : ℕ → ℕ → Bytes → Bool
has_prefix lower upper text =
    leb 2 (length text)
    && get_or text 0 0 == b'0'
    && (get_or text 1 0 == lower || get_or text 1 0 == upper)

unfoldable pub integer_value : Bytes → Option ℕ
integer_value text =
    if has_prefix b'b' b'B' text
    then stoull 2 (drop 2 text)
    else if has_prefix b'o' b'O' text
    then stoull 8 (drop 2 text)
    else stoull 0 text

-- `!isHexBinOct`
abbrev has_no_prefix : Bytes → Bool
has_no_prefix text =
    not (has_prefix b'b' b'B' text || has_prefix b'o' b'O' text || has_prefix b'x' b'X' text)

abbrev out_of_range : Bytes → State → State
out_of_range text =
    report_here err_type_mismatch
      (codes "Integer literal '" ++ (text ++ codes "' is out of range for i64"))

-- The value, 0 where it is out of range, and the state with the report on it.
abbrev pub checked_value : Bytes → NumericSuffix → State → Option ℕ → ℕ × State
checked_value text kind s none = (0, out_of_range text s)
checked_value text kind s (some v) =
    if has_no_prefix text && is_none kind && ltb (2 ^ 63) v
    then (v, out_of_range text s)
    else (v, s)

-- `case TokenKind::IntegerLiteral`
unfoldable pub parse_integer : State → Expr × State
parse_integer s =
    let t = cur s in
    let text = without_underscores t.spelling in
    let (v, u) = checked_value text t.suffix s (integer_value text) in
    (integer_literal v t.suffix, advance u)

-- `case TokenKind::FloatLiteral`; `accepts` tells whether `std::stod` reads the text.
unfoldable pub parse_float : (Bytes → Bool) → State → Expr × State
unfolding without_underscores advance error
parse_float accepts s =
    let t = cur s in
    let text = without_underscores t.spelling in
    if accepts text
    then (float_literal text t.suffix, advance s)
    else (float_literal (codes "0") t.suffix, advance (error (codes "Invalid float literal") s))

-- `case TokenKind::DecimalLiteral`
unfoldable pub parse_decimal : State → Expr × State
unfolding without_underscores advance
parse_decimal s = (decimal_literal (without_underscores (cur s).spelling), advance s)

-- The digits of an escape in a character: a byte that is no hexadecimal digit counts as 0.
abbrev hex_or_zero : ℕ → ℕ
hex_or_zero c = if ltb (digit_value c) 16 then digit_value c else 0

unfoldable pub hex_value : ℕ → Bytes → ℕ → ℕ
unfolding digit_value
hex_value zero cs acc = acc
hex_value (suc n) [] acc = acc
hex_value (suc n) (c ∷ cs) acc = hex_value n cs (acc * 16 + hex_or_zero c)

-- `\x`, `\u` and `\U`: the value of the `n` digits, or the report.
abbrev hex_char : ℕ → Bytes → State → ℕ × State
hex_char n text s =
    if leb (3 + n) (length text)
    then (let v = hex_value n (drop 3 text) 0 in
        if ltb 255 v
        then (v % 256, error (codes "Character literal too large for 'char' type") s)
        else (v % 256, s))
    else (0, error (codes "Invalid escape sequence length") s)

unfoldable pub escaped_char : Bytes → State → ℕ × State
unfolding hex_value error
escaped_char text s =
    let e = get_or text 2 0 in
    if e == b'n'
    then (10, s)
    else if e == b't'
    then (9, s)
    else if e == b'b'
    then (8, s)
    else if e == b'r'
    then (13, s)
    else if e == b'0'
    then (0, s)
    else if e == b'\\' || e == b'\''
    then (e, s)
    else if e == b'x'
    then hex_char 2 text s
    else if e == b'u'
    then hex_char 4 text s
    else if e == b'U'
    then hex_char 8 text s
    else (e, error (codes "Invalid escape sequence in char literal") s)

abbrev pub char_value : Bytes → State → ℕ × State
char_value text s =
    if not (leb 3 (length text))
    then (0, s)
    else if get_or text 1 0 == b'\\' && leb 4 (length text)
    then escaped_char text s
    else (get_or text 1 0, s)

-- `case TokenKind::CharLiteral`
unfoldable pub parse_char : State → Expr × State
unfolding escaped_char advance
parse_char s = let (v, t) = char_value (cur s).spelling s in (char_literal v, advance t)

-- The spelling without its first and its last byte.
abbrev pub inner : Bytes → Bytes
inner cs = take (length cs - 2) (drop 1 cs)

abbrev is_quote : ℕ → Bool
is_quote c = c == b'"' || c == b'`' || c == b'\''

-- `parseStringLiteral()`
unfoldable pub parse_string_literal : ToUtf8 → State → Expr × State
unfolding unescape_string advance
parse_string_literal utf8 s =
    let text = (cur s).spelling in
    let raw = if leb 2 (length text) && is_quote (get_or text 0 0) then inner text else text in
    (string_literal (unescape_string utf8 raw) false, advance s)
