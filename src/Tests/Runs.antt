-- ===== src/Tests/Runs.antt =====
-- The theorems on the lexer at concrete texts.
use moksha.Base.{
  ℕ, suc, ◌+◌, ◌≤◌, ◌<◌, ◌≡◌, ◌≢◌, ◌⊎◌, refl, true, false, ◌&&◌, some, [], ◌∷◌, Bytes, codes,
  length, arith, loop, ap, bytes_eq,
}
use moksha.Diagnostics.{fresh}
use moksha.Lexer.Kinds.{TokenKind, token}
use moksha.Lexer.State.{
  Lexer, lexer, template_string, span, skip_whitespace, advance, in_template_string,
  no_interpolation,
}
use moksha.Lexer.Chars.{is_ascii_ident_start, is_ascii_ident_body, is_utf8_start}
use moksha.Lexer.Keywords.{string_switch, keyword_kind}
use moksha.Lexer.Identifier.{body_step, scan_identifier}
use moksha.Lexer.Operator.{operator_kind, arithmetic_operator, scan_operator}
use moksha.Lexer.Next.{scan_token, next_step, next_body, next}
use moksha.Lexer.Run.{calls, token_bounds, token_progress, token_order, next_loop_ends, nth_token}
use moksha.Lexer.Run.Ends.{lexer_ends}
use moksha.Lexer.Run.Stuck.{
  unfinished_template_never_ends, invalid_utf8_never_ends, nested_interpolation_lost,
}
use moksha.Tests.Inputs.{utf8}

abbrev text : Bytes
text = codes "x += y"

abbrev start : Lexer
start = lexer text fresh

abbrev after_one : Lexer
after_one = record start { cur = 1; rest = codes " += y" }

one_call : calls utf8 1 start ≡ after_one
unfolding calls next next_step skip_whitespace span scan_token is_ascii_ident_start is_utf8_start
    scan_identifier body_step is_ascii_ident_body loop keyword_kind string_switch bytes_eq
one_call = refl

second_call :
    next utf8 (calls utf8 1 start)
    ≡ (record start { cur = 4; rest = codes " y" }, token TokenKind.plus_equal 2 2)
unfolding calls next next_step skip_whitespace span scan_token is_ascii_ident_start is_utf8_start
    scan_identifier body_step is_ascii_ident_body loop keyword_kind string_switch bytes_eq
    scan_operator operator_kind arithmetic_operator
second_call = refl

second_kind : (next utf8 (calls utf8 1 start)).1.kind ≡ TokenKind.plus_equal
second_kind = ap (λ r. r.1.kind) second_call

no_error : (next utf8 (calls utf8 1 start)).1.kind ≢ TokenKind.error
no_error e = let k = second_kind in cc

no_fragment : (next utf8 (calls utf8 1 start)).1.kind ≢ TokenKind.string_fragment
no_fragment e = let k = second_kind in cc

in_code : in_template_string (calls utf8 1 start) ≡ false
in_code = ap in_template_string one_call

outside : in_template_string (calls utf8 1 start) && no_interpolation (calls utf8 1 start) ≡ false
outside = ap (λ s. in_template_string s && no_interpolation s) one_call

token_bounds_example :
    ((next utf8 (calls utf8 1 start)).1.location + (next utf8 (calls utf8 1 start)).1.length
      ≡ (next utf8 (calls utf8 1 start)).0.cur)
    × ((next utf8 (calls utf8 1 start)).0.cur ≤ 6)
token_bounds_example = token_bounds utf8 text fresh 1 (omega arith) no_error

token_progress_example :
    ((calls utf8 1 start).cur < (next utf8 (calls utf8 1 start)).0.cur)
    ⊎ (((next utf8 (calls utf8 1 start)).1.kind ≡ TokenKind.eof)
        × ((next utf8 (calls utf8 1 start)).0.rest ≡ []))
token_progress_example = token_progress utf8 text fresh 1 no_error

token_order_example : (calls utf8 1 start).cur ≤ (next utf8 (calls utf8 1 start)).1.location
token_order_example = token_order utf8 text fresh 1 in_code

next_loop_ends_example :
    loop (next_step utf8) (suc (length (calls utf8 1 start).rest)) (calls utf8 1 start)
    ≡ some (next_body utf8 (calls utf8 1 start))
next_loop_ends_example = next_loop_ends utf8 text fresh 1 outside

lexer_ends_example :
    (n : ℕ) × (n ≤ 6)
    × (((nth_token utf8 n start).kind ≡ TokenKind.eof)
        ⊎ ((nth_token utf8 n start).kind ≡ TokenKind.error))
lexer_ends_example = lexer_ends utf8 text fresh

-- A template string that the buffer ends in, behind an interpolation.
abbrev unfinished : Lexer
unfinished = record (lexer [] fresh) { state = template_string; cur = 5; fragment_start = some 5 }

unfinished_template_never_ends_example : (nth_token utf8 3 unfinished).kind ≡ TokenKind.error
unfinished_template_never_ends_example = unfinished_template_never_ends utf8 unfinished 3 refl refl

starts_utf8 : is_utf8_start 255 ≡ true
unfolding is_utf8_start
starts_utf8 = refl

invalid_utf8_never_ends_example :
    nth_token utf8 4 (lexer (255 ∷ 65 ∷ []) fresh) ≡ token TokenKind.error 0 1
invalid_utf8_never_ends_example =
    invalid_utf8_never_ends utf8 (lexer (255 ∷ 65 ∷ []) fresh) 4 refl starts_utf8 refl

-- Inside "`a ${`b ${c}`}`", behind the fragment "b ".
abbrev nested : Lexer
nested = record (lexer (codes "${c}`}`") fresh) {
  cur = 8;
  state = template_string;
  fragment_start = some 8;
  interpolation_stack = 0 ∷ [];
}

nested_interpolation_lost_example : next utf8 nested ≡ (advance nested 1, token TokenKind.error 8 1)
nested_interpolation_lost_example =
    nested_interpolation_lost utf8 nested (codes "c}`}`") refl refl refl
