-- ===== src/Lexer/Run/Stuck.antt =====
-- States from which no number of calls of `next` reaches the end of the file, and the place where
-- an interpolation inside another one is lost.
use moksha.Base.{
  ℕ, zero, suc, ◌+◌, ◌≡◌, ◌==◌, refl, ap, ◌∙◌, true, false, [], ◌∷◌, Bytes, length, arith, ◌-◌,
  loop_leave, leave, get_or,
}
use native.Mathlib.Nat.{add-zero}
use moksha.Lexer.Kinds.{TokenKind, Token, token}
use moksha.Lexer.State.{
  Utf8, Lexer, at_end, in_template_string, no_interpolation, peek, pointer, error_at,
  skip_whitespace, span, is_space, utf8_fits, advance_utf8, advance,
}
use moksha.Lexer.State.Well.{resumes}
use moksha.Lexer.Chars.{is_utf8_start, is_ascii_ident_start}
use moksha.Lexer.Identifier.{scan_identifier}
use moksha.Lexer.Operator.{scan_operator}
use moksha.Lexer.Operator.Longest.{scan_operator_dollar}
use moksha.Lexer.Next.{scan_token, next_step, next}
use moksha.Lexer.Run.{calls, nth_token}

calls_fixed : (u : Utf8) (s : Lexer) (n : ℕ) → (next u s).0 ≡ s → calls u n s ≡ s
unfolding calls
calls_fixed u s zero e = refl
calls_fixed u s (suc n) e = ap (λ t. (next u t).0) (calls_fixed u s n e) ∙ e

-- The token of every call, where one call leaves the state as it is.
nth_token_fixed :
    (u : Utf8) (s : Lexer) (n : ℕ) (k : Token) → next u s ≡ (s, k) → nth_token u n s ≡ k
nth_token_fixed u s n k e =
    ap (λ t. (next u t).1) (calls_fixed u s n (ap (λ r. r.0) e)) ∙ ap (λ r. r.1) e

unfinished_next :
    (u : Utf8) (s : Lexer)
    → resumes s ≡ true
    → at_end s ≡ true
    → next u s ≡ (s, error_at s (pointer s.fragment_start))
unfolding next
unfinished_next u s r e = rw (r, e)

-- In a template string, behind an interpolation, at the end of the buffer: every further call
-- returns an error, and none the end of the file.
pub unfinished_template_never_ends :
    (u : Utf8) (s : Lexer) (n : ℕ)
    → resumes s ≡ true
    → at_end s ≡ true
    → (nth_token u n s).kind ≡ TokenKind.error
unfinished_template_never_ends u s n r e =
    ap (λ k. k.kind) (nth_token_fixed u s n _ (unfinished_next u s r e))

not_space : (cs : Bytes) → is_space (get_or cs 0 0) ≡ false → span is_space cs ≡ 0
unfolding span
not_space [] h = refl
not_space (c ∷ cs) h = ground arith

skip_whitespace_fixed : (s : Lexer) → is_space (peek s 0) ≡ false → skip_whitespace s ≡ s
unfolding skip_whitespace
skip_whitespace_fixed s h =
    rw (not_space s.rest h) (λ i. record s { cur = add-zero s.cur i; rest = s.rest })

scan_invalid :
    (u : Utf8) (s : Lexer)
    → is_utf8_start (peek s 0) ≡ true
    → utf8_fits u s ≡ false
    → scan_token u s ≡ (s, error_at s s.cur)
unfolding scan_token scan_identifier is_utf8_start is_ascii_ident_start advance_utf8
scan_invalid u s h f =
    let a : is_ascii_ident_start (peek s 0) ≡ false = ground arith in rw (a, h, f)

invalid_byte :
    (s : Lexer)
    → is_utf8_start (peek s 0) ≡ true
    → (at_end s ≡ false) × ((peek s 0 == b'/') ≡ false) × (is_space (peek s 0) ≡ false)
unfolding is_utf8_start
invalid_byte s h = ground arith

step_invalid :
    (u : Utf8) (s : Lexer)
    → is_utf8_start (peek s 0) ≡ true
    → utf8_fits u s ≡ false
    → next_step u s ≡ leave (s, error_at s s.cur)
unfolding next_step
step_invalid u s h f =
    let (e, slash, space) = invalid_byte s h in
    rw (skip_whitespace_fixed s space) (rw (e, slash) (ap leave (scan_invalid u s h f)))

one_byte : (s : Lexer) → error_at s s.cur ≡ token TokenKind.error s.cur 1
one_byte s = ap (token TokenKind.error s.cur) {y = 1} (omega arith)

-- Outside of template strings, before bytes that are no whole and legal UTF-8 sequence: a call of
-- `next` returns an error and leaves the lexer as it was.
invalid_next :
    (u : Utf8) (s : Lexer)
    → resumes s ≡ false
    → is_utf8_start (peek s 0) ≡ true
    → utf8_fits u s ≡ false
    → next u s ≡ (s, error_at s s.cur)
unfolding next
invalid_next u s r h f = rw (r, loop_leave (next_step u) (length s.rest) s _ (step_invalid u s h f))

-- Outside of template strings, before bytes that are no whole and legal UTF-8 sequence: however
-- many calls are made, each returns an error of one byte at this place.
pub invalid_utf8_never_ends :
    (u : Utf8) (s : Lexer) (n : ℕ)
    → resumes s ≡ false
    → is_utf8_start (peek s 0) ≡ true
    → utf8_fits u s ≡ false
    → nth_token u n s ≡ token TokenKind.error s.cur 1
invalid_utf8_never_ends u s n r h f = nth_token_fixed u s n _ (invalid_next u s r h f) ∙ one_byte s

scan_dollar :
    (u : Utf8) (s : Lexer) (cs : Bytes) → s.rest ≡ b'$' ∷ cs → scan_token u s ≡ scan_operator s
unfolding scan_token is_utf8_start is_ascii_ident_start
scan_dollar u s cs e = rw (e, scan_token)

step_dollar :
    (u : Utf8) (s : Lexer) (cs : Bytes)
    → s.rest ≡ b'$' ∷ cs
    → next_step u s ≡ leave (advance s 1, token TokenKind.error s.cur (s.cur + 1 - s.cur))
unfolding next_step
step_dollar u s cs e =
    let d : peek s 0 ≡ b'$' = ap (λ l. get_or l 0 0) e in
    let space : is_space (peek s 0) ≡ false = ap is_space d in
    let ended : at_end s ≡ false = ground arith in
    let slash : (peek s 0 == b'/') ≡ false = ap (λ c. c == b'/') d in
    rw (skip_whitespace_fixed s space)
      (rw (ended, slash) (ap leave (scan_dollar u s cs e ∙ scan_operator_dollar s cs e)))

-- Inside an interpolation, behind a fragment of a template string that stands in it: the `${` that
-- the fragment ended at is not taken for the start of an interpolation, but for an error of one
-- byte, with the lexer at the left brace and still in the template string.
pub nested_interpolation_lost :
    (u : Utf8) (s : Lexer) (cs : Bytes)
    → in_template_string s ≡ true
    → no_interpolation s ≡ false
    → s.rest ≡ b'$' ∷ b'{' ∷ cs
    → next u s ≡ (advance s 1, token TokenKind.error s.cur 1)
unfolding next
nested_interpolation_lost u s cs t i e =
    rw (t, i)
      (rw (loop_leave (next_step u) (length s.rest) s _ (step_dollar u s (b'{' ∷ cs) e))
        (ap (λ n. (advance s 1, token TokenKind.error s.cur n)) {y = 1} (omega arith)))
