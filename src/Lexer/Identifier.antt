-- ===== src/Lexer/Identifier.antt =====
-- `scanIdentifier` in lib/frontend/lexer/Lexer.cpp.
pub mod Moves
use moksha.Base.{
  suc, ◌-◌, Bool, true, false, Step, again, leave, loop, result_or, Bytes, length, take,
  if◌then◌else◌,
}
use moksha.Lexer.Kinds.{TokenKind, Token, token}
use moksha.Lexer.State.{Utf8, Lexer, at_end, peek, advance, error_at, advance_utf8}
use moksha.Lexer.Chars.{is_ascii_ident_start, is_ascii_ident_body, is_utf8_start}
use moksha.Lexer.Keywords.{keyword_kind}

-- What a round of the loop over the identifier's body does: it leaves with `true` at the end of the
-- identifier, and with `false` at bytes that are not UTF-8.
abbrev utf8_step : Lexer × Bool → Step Lexer (Lexer × Bool)
utf8_step (s, true) = again s
utf8_step (s, false) = leave (s, false)

unfoldable pub body_step : Utf8 → Lexer → Step Lexer (Lexer × Bool)
body_step u s =
    if at_end s
    then leave (s, true)
    else if is_ascii_ident_body (peek s 0)
    then again (advance s 1)
    else if is_utf8_start (peek s 0)
    then utf8_step (advance_utf8 u s)
    else leave (s, true)

-- The first character of an identifier.
abbrev pub ident_start : Utf8 → Lexer → Lexer × Bool
ident_start u s =
    if is_ascii_ident_start (peek s 0)
    then (advance s 1, true)
    else if is_utf8_start (peek s 0)
    then advance_utf8 u s
    else (s, false)

-- The token of the identifier that begins at `s` and ends at `t`.
abbrev pub ident_token : Lexer → Lexer → Token
ident_token s t = token (keyword_kind (take (t.cur - s.cur) s.rest)) s.cur (t.cur - s.cur)

abbrev pub ident_end : Lexer → Lexer × Bool → Lexer × Token
ident_end s (t, true) = (t, ident_token s t)
ident_end s (t, false) = (t, error_at t s.cur)

-- With the bytes left, and one more, as fuel the loop ends.
abbrev pub body_end : Utf8 → Lexer → Lexer × Bool
body_end u t = result_or (t, false) (loop (body_step u) (suc (length t.rest)) t)

abbrev pub ident_body : Utf8 → Lexer → Lexer × Bool → Lexer × Token
ident_body u s (t, true) = ident_end s (body_end u t)
ident_body u s (t, false) = (t, error_at t s.cur)

unfoldable pub scan_identifier : Utf8 → Lexer → Lexer × Token
scan_identifier u s = ident_body u s (ident_start u s)
