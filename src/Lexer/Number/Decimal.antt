-- ===== src/Lexer/Number/Decimal.antt =====
-- Plain decimal numbers: digits, and behind them a byte that ends the number.
use moksha.Base.{
  ℕ, zero, suc, ◌+◌, ◌-◌, ◌≡◌, ◌==◌, refl, ap, ◌∙◌, Bool, true, false, not, ◌&&◌, ◌||◌, none, [],
  ◌∷◌, ◌++◌, Bytes, length, take, drop, get_or, take-length-append, drop-length-append, arith,
}
use moksha.Lexer.Kinds.{TokenKind, Token, NumericSuffix, token}
use moksha.Lexer.State.{Lexer, peek, span, skip_while}
use moksha.Lexer.Chars.{is_digit, is_ascii_ident_start, is_utf8_start}
use moksha.Lexer.Number.{
  Number, plain, digit_or_underscore, number_prefix, fraction, exponent, number_body, number_suffix,
  trailing_underscore, double_underscore, consecutive_underscores, number_token, number_end,
  uncurried, scan_number,
}

abbrev pub all_digits : Bytes → Bool
all_digits [] = true
all_digits (c ∷ cs) = is_digit c && all_digits cs

-- A byte that belongs to no number.
unfoldable pub ends_number : ℕ → Bool
ends_number c = not (is_digit c || c == b'.' || is_ascii_ident_start c || is_utf8_start c)

span_digits :
    (ds rest : Bytes)
    → all_digits ds ≡ true
    → ends_number (get_or rest 0 0) ≡ true
    → span digit_or_underscore (ds ++ rest) ≡ length ds
unfolding span ends_number is_ascii_ident_start
span_digits [] [] h k = refl
span_digits [] (c ∷ rest) h k = ground arith
span_digits (d ∷ ds) rest h k =
    let here : is_digit d ≡ true = ground arith in
    let later : all_digits ds ≡ true = ground arith in
    let more = span_digits ds rest later k in rw (here, more) refl

prefix_plain :
    (s : Lexer)
    → is_digit (peek s 0) ≡ true
    → (is_digit (peek s 1) || ends_number (peek s 1)) ≡ true
    → number_prefix s ≡ (s, plain)
unfolding number_prefix ends_number is_ascii_ident_start
prefix_plain s h k = ground arith

body_ended :
    (t : Lexer) → ends_number (peek t 0) ≡ true → uncurried exponent (fraction t plain) ≡ (t, plain)
unfolding fraction exponent ends_number is_ascii_ident_start
body_ended t k = ground arith

suffix_ended :
    (t : Lexer)
    → ends_number (peek t 0) ≡ true
    → number_suffix t plain ≡ (t, plain, NumericSuffix.no_suffix)
unfolding number_suffix ends_number
suffix_ended t k = ground arith

digit_at : (ds : Bytes) (i : ℕ) → all_digits ds ≡ true → (get_or ds i 0 == b'_') ≡ false
digit_at [] i h = refl
digit_at (d ∷ ds) zero h = ground arith
digit_at (d ∷ ds) (suc i) h = digit_at ds i (ground arith)

no_double : (ds : Bytes) → all_digits ds ≡ true → double_underscore ds ≡ none
unfolding double_underscore
no_double [] h = refl
no_double (c ∷ []) h = refl
no_double (c ∷ e ∷ cs) h =
    let here : (c == b'_') ≡ false = ground arith in
    let later : all_digits (e ∷ cs) ≡ true = ground arith in
    rw (here, no_double (e ∷ cs) later) refl

-- The byte behind the first digit.
second_byte :
    (d : ℕ) (ds rest : Bytes)
    → all_digits ds ≡ true
    → ends_number (get_or rest 0 0) ≡ true
    → (is_digit (get_or (ds ++ rest) 0 0) || ends_number (get_or (ds ++ rest) 0 0)) ≡ true
second_byte d [] rest h k = ground arith
second_byte d (e ∷ ds) rest h k = ground arith

no_trailing :
    (t : Lexer) (text : Bytes)
    → all_digits text ≡ true
    → trailing_underscore text NumericSuffix.no_suffix t plain ≡ (t, plain)
unfolding trailing_underscore
no_trailing t text h = let last = digit_at text (length text - 1) h in ground (arith, last)

no_consecutive :
    (t : Lexer) (text : Bytes) (start : ℕ)
    → all_digits text ≡ true
    → consecutive_underscores text start t plain ≡ (t, plain)
unfolding consecutive_underscores
no_consecutive t text start h =
    let doubled = no_double text h in rw (doubled, consecutive_underscores) refl

-- The checks on the text of the digits find nothing.
digits_end :
    (s t : Lexer) (text : Bytes)
    → all_digits text ≡ true
    → t.cur - s.cur ≡ length text
    → take (length text) s.rest ≡ text
    → number_end s (t, plain, NumericSuffix.no_suffix)
      ≡ (t, token TokenKind.integer_literal s.cur (length text))
digits_end s t text h n e =
    let finish : Lexer × Number → Lexer × Token =
      uncurried (number_token s.cur NumericSuffix.no_suffix) in
    let check : Bytes → Lexer × Number → Lexer × Number =
      λ w. uncurried (consecutive_underscores w s.cur) in
    ap (λ w. finish (check w (trailing_underscore w NumericSuffix.no_suffix t plain)))
      (ap (λ m. take m s.rest) n ∙ e)
    ∙ ap (λ x. finish (check text x)) (no_trailing t text h)
    ∙ ap finish (no_consecutive t text s.cur h)
    ∙ ap (λ m. (t, token TokenKind.integer_literal s.cur m)) n

-- Digits, and behind them a byte that is no digit, point, letter, underscore or byte of a UTF-8
-- sequence (or the end of the buffer), are read as one integer literal: exactly the digits, without
-- a suffix or a flag, and nothing is reported.
pub scan_number_digits :
    (s : Lexer) (d : ℕ) (ds rest : Bytes)
    → all_digits (d ∷ ds) ≡ true
    → ends_number (get_or rest 0 0) ≡ true
    → s.rest ≡ d ∷ (ds ++ rest)
    → scan_number s ≡ (
      record s { cur = s.cur + length (d ∷ ds); rest = rest },
      token TokenKind.integer_literal s.cur (length (d ∷ ds)),
    )
unfolding scan_number number_body
scan_number_digits s d ds rest h k e =
    let text = d ∷ ds in
    let first : is_digit (peek s 0) ≡ true = ground arith in
    let later : all_digits ds ≡ true = ground arith in
    let second : (is_digit (peek s 1) || ends_number (peek s 1)) ≡ true =
      ap (λ l. is_digit (get_or l 1 0) || ends_number (get_or l 1 0)) e
      ∙ second_byte d ds rest later k in
    let t : Lexer = record s { cur = s.cur + length text; rest = rest } in
    let passed : skip_while digit_or_underscore s ≡ t =
      ap
        (λ l. record s {
          cur = s.cur + span digit_or_underscore l;
          rest = drop (span digit_or_underscore l) l;
        })
        e
      ∙ ap (λ n. record s { cur = s.cur + n; rest = drop n (text ++ rest) })
          (span_digits text rest h k)
      ∙ ap (λ r. record s { cur = s.cur + length text; rest = r }) (drop-length-append text rest) in
    let body : number_body s plain ≡ (t, plain) =
      ap (λ x. uncurried exponent (fraction x plain)) passed ∙ body_ended t k in
    ap (λ r. number_end s (uncurried number_suffix (uncurried number_body r)))
      (prefix_plain s first second)
    ∙ ap (λ r. number_end s (uncurried number_suffix r)) body
    ∙ ap (number_end s) (suffix_ended t k)
    ∙ digits_end s t text h (omega arith) (ap (take (length text)) e ∙ take-length-append text rest)
