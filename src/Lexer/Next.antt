-- ===== src/Lexer/Next.antt =====
-- `Lexer::next` in lib/frontend/lexer/Lexer.cpp.
pub mod Result
pub mod Loop
use moksha.Base.{
  suc, ◌==◌, Bool, true, false, ◌&&◌, ◌||◌, Step, again, leave, loop, result_or, length,
  if◌then◌else◌,
}
use moksha.Lexer.Kinds.{TokenKind, Token, token}
use moksha.Lexer.State.{
  Utf8, Lexer, at_end, in_template_string, no_interpolation, peek, pointer, error_at,
  skip_whitespace,
}
use moksha.Lexer.Chars.{is_digit, is_ascii_ident_start, is_utf8_start}
use moksha.Lexer.Comment.{skip_comment}
use moksha.Lexer.Identifier.{scan_identifier}
use moksha.Lexer.Number.{scan_number}
use moksha.Lexer.Operator.{scan_operator}
use moksha.Lexer.Text.{scan_string, scan_char}

-- The token that begins at the cursor, by its first byte.
unfoldable pub scan_token : Utf8 → Lexer → Lexer × Token
scan_token u s =
    let c = peek s 0 in
    if is_ascii_ident_start c || is_utf8_start c
    then scan_identifier u s
    else if is_digit c
    then scan_number s
    else if c == b'.' && is_digit (peek s 1)
    then scan_number s
    else if c == b'"' || c == b'`'
    then scan_string s
    else if c == b'\''
    then scan_char u s
    else scan_operator s

-- What a round of the loop over white space and comments does: it goes on behind a comment, or
-- returns, or leaves the loop at the first byte of a token.
abbrev pub NextStep : Type 0
NextStep = Step Lexer (Lexer × Token)

abbrev after_comment : Lexer × Bool → NextStep
after_comment (s, true) = again s
after_comment (s, false) = leave (s, error_at s s.cur)

unfoldable pub next_step : Utf8 → Lexer → NextStep
next_step u s =
    let t = skip_whitespace s in
    if at_end t
    then leave (t, token TokenKind.eof t.cur 0)
    else if peek t 0 == b'/' && (peek t 1 == b'/' || peek t 1 == b'*')
    then after_comment (skip_comment t)
    else leave (scan_token u t)

-- With the bytes left, and one more, as fuel the loop ends.
abbrev pub next_body : Utf8 → Lexer → Lexer × Token
next_body u s = result_or (s, error_at s s.cur) (loop (next_step u) (suc (length s.rest)) s)

unfoldable pub next : Utf8 → Lexer → Lexer × Token
next u s =
    if in_template_string s && no_interpolation s
    then (if at_end s then (s, error_at s (pointer s.fragment_start)) else scan_string s)
    else next_body u s
