-- ===== src/Lexer/Text.antt =====
-- Strings and characters: `consumeEscape`, `scanString` and `scanChar` in
-- lib/frontend/lexer/Lexer.cpp.
pub mod Moves
pub mod Loop
pub mod Scanned
pub mod Char
use moksha.Base.{
  ℕ, zero, suc, ◌+◌, ◌-◌, ◌==◌, Bool, true, false, not, ◌&&◌, ◌||◌, Option, none, some, List, [],
  Step, again, leave, loop, result_or, ◌∷◌, Bytes, length, codes, leb, if◌then◌else◌,
}
use Prim.Native.Nat.{bit_or}
use moksha.Lexer.Kinds.{TokenKind, Token, token, tf_none, tf_is_escaped}
use moksha.Lexer.State.{
  Utf8, Lexer, LexerState, normal, template_string, at_end, in_template_string, peek, advance, span,
  skip_while, pointer, unexpected, error_at, advance_utf8,
}
use moksha.Lexer.Chars.{is_hex_digit}

abbrev is_simple_escape : ℕ → Bool
is_simple_escape c =
    c == b'n'
    || c == b'r'
    || c == b't'
    || c == b'0'
    || c == b'b'
    || c == b'\\'
    || c == b'\''
    || c == b'"'
    || c == b'`'
    || c == b'$'

-- Whether each of the first `n` bytes is a hexadecimal digit.
pub all_hex : ℕ → Bytes → Bool
all_hex zero cs = true
all_hex (suc n) [] = false
all_hex (suc n) (c ∷ cs) = is_hex_digit c && all_hex n cs

-- `n` hexadecimal digits: \xHH, \uXXXX and \UXXXXXXXX.
pub fixed_escape : ℕ → Lexer → Lexer × Bool
fixed_escape n s =
    if not (leb n (length s.rest))
    then (s, false)
    else if not (all_hex n s.rest)
    then (unexpected s s.cur (codes "invalid hex digit in escape"), false)
    else (advance s n, true)

-- \u{...}, behind the left brace.
pub braced_escape : Lexer → Lexer × Bool
braced_escape s =
    let t = skip_while is_hex_digit s in
    if at_end t
    then (unexpected t t.cur (codes "unterminated unicode escape sequence"), false)
    else if peek t 0 == b'}'
    then (advance t 1, true)
    else (unexpected t t.cur (codes "invalid hex digit in unicode escape"), false)

unfoldable pub consume_escape : Lexer → Lexer × Bool
unfolding fixed_escape braced_escape all_hex span
consume_escape s =
    let t = advance s 1 in
    if at_end t
    then (t, false)
    else if is_simple_escape (peek t 0)
    then (advance t 1, true)
    else if peek t 0 == b'x'
    then fixed_escape 2 (advance t 1)
    else if peek t 0 == b'u'
    then (if peek t 1 == b'{' then braced_escape (advance t 2) else fixed_escape 4 (advance t 1))
    else if peek t 0 == b'U'
    then fixed_escape 8 (advance t 1)
    else (unexpected t s.cur (codes "invalid escape sequence"), false)

-- The locals of `scanString`; `start` is of use in a standard string alone.
pub record StringScan : Type 0 where
  pub start : ℕ
  pub is_template : Bool
  pub has_escape : Bool
  pub had_error : Bool

-- What one round of the loop of `scanString` does.
abbrev pub StringStep : Type 0
StringStep = Step (Lexer × StringScan) (Lexer × Token)

-- `isTemplate ? fragmentStart : start`
abbrev pub token_start : Lexer → StringScan → ℕ
token_start s l = if l.is_template then pointer s.fragment_start else l.start

-- `state = LexerState::Normal; fragmentStart = nullptr;` in a template string.
abbrev leave_template : Lexer → Bool → Lexer
leave_template s is_template =
    if is_template then record s { state = normal; fragment_start = none } else s

abbrev with_escape_flag : Bool → Token → Token
with_escape_flag has_escape t =
    if has_escape then record t { flags = bit_or t.flags tf_is_escaped } else t

abbrev quote : Bool → ℕ
quote is_template = if is_template then b'`' else b'"'

-- The end of the string. The token may be an error for an escape that was read before.
pub close_quote : Lexer → StringScan → StringStep
close_quote s l =
    let t = leave_template (advance s 1) l.is_template in
    let from = token_start s l in
    if l.had_error
    then leave (t, error_at t from)
    else leave (
      t,
      with_escape_flag l.has_escape (
          token (if l.is_template then TokenKind.template_string else TokenKind.string_literal) from
            (t.cur - from)),
    )

-- `${` in a template string: the start of an interpolation, or the end of the fragment before it.
pub interpolation : Lexer → StringScan → StringStep
interpolation s l =
    if s.cur == pointer s.fragment_start
    then leave (
      record (advance s 2) { state = normal; interpolation_stack = 0 ∷ s.interpolation_stack },
      token TokenKind.interpolation_start s.cur 2,
    )
    else leave (
      record s { fragment_start = some s.cur },
      with_escape_flag l.has_escape (
          token TokenKind.string_fragment (pointer s.fragment_start)
            (s.cur - pointer s.fragment_start)),
    )

-- Behind the loop: the string does not end.
pub unterminated : Lexer → StringScan → Lexer × Token
unterminated s l =
    let from = token_start s l in
    let t = leave_template s l.is_template in
    (
      unexpected t from (
          if l.is_template
          then codes "unterminated template string"
          else codes "unterminated string literal"),
      error_at t from,
    )

abbrev after_escape : StringScan → Lexer × Bool → StringStep
after_escape l (s, fine) =
    again (s, record l { has_escape = true; had_error = l.had_error || not fine })

unfoldable pub string_step : Lexer × StringScan → StringStep
string_step (s, l) =
    if at_end s
    then leave (unterminated s l)
    else if not l.is_template && (peek s 0 == b'\n' || peek s 0 == b'\r')
    then leave (unexpected s s.cur (codes "unterminated string literal"), error_at s l.start)
    else if peek s 0 == b'\\'
    then after_escape l (consume_escape s)
    else if peek s 0 == quote l.is_template
    then close_quote s l
    else if l.is_template && peek s 0 == b'$' && peek s 1 == b'{'
    then interpolation s l
    else again (advance s 1, l)

abbrev or_here : Lexer → Option ℕ → Option ℕ
or_here s none = some s.cur
or_here s (some p) = some p

abbrev scan_locals : ℕ → Bool → StringScan
scan_locals start is_template = record {
  start = start;
  is_template = is_template;
  has_escape = false;
  had_error = false;
}

-- The state and the locals before the loop: a fragment goes on, or a new string begins.
pub string_start : Lexer → Lexer × StringScan
string_start s =
    if in_template_string s
    then (record s { fragment_start = or_here s s.fragment_start }, scan_locals 0 true)
    else if peek s 0 == b'`'
    then (
      record (advance s 1) { state = template_string; fragment_start = some (s.cur + 1) },
      scan_locals 0 true,
    )
    else (advance s 1, scan_locals s.cur false)

-- With the bytes left, and one more, as fuel the loop ends.
abbrev pub string_body : Lexer × StringScan → Lexer × Token
string_body (s, l) = result_or (s, error_at s s.cur) (loop string_step (suc (length s.rest)) (s, l))

unfoldable pub scan_string : Lexer → Lexer × Token
scan_string s = string_body (string_start s)

abbrev char_end : ℕ → Lexer × Bool → Lexer × Token
char_end start (s, false) = (s, error_at s start)
char_end start (s, true) =
    if not (peek s 0 == b'\'')
    then (s, error_at s start)
    else let t = advance s 1 in (t, token TokenKind.char_literal start (t.cur - start))

unfoldable pub scan_char : Utf8 → Lexer → Lexer × Token
scan_char u s =
    let t = advance s 1 in
    char_end s.cur (if peek t 0 == b'\\' then consume_escape t else advance_utf8 u t)
