-- ===== src/Tests/Scans.antt =====
-- The theorems on the parts of the lexer at concrete texts.
use moksha.Base.{◌≤◌, ◌≡◌, ◌≢◌, ◌++◌, refl, true, codes, arith}
use moksha.Diagnostics.{fresh}
use moksha.Lexer.Kinds.{TokenKind, token}
use moksha.Lexer.Chars.{is_ascii_ident_start, is_utf8_start}
use moksha.Lexer.Number.{scan_number}
use moksha.Lexer.Number.Decimal.{ends_number, scan_number_digits}
use moksha.Lexer.State.{Lexer, lexer}
use moksha.Lexer.Comment.{skip_comment}
use moksha.Lexer.Comment.Nested.{Body, nil, plain, nested, skip_comment_nested}
use moksha.Lexer.Operator.{
  operator_kind, arithmetic_operator, comparison_operator, bitwise_operator, scan_operator,
}
use moksha.Lexer.Operator.Spelling.{spelling}
use moksha.Lexer.Operator.Longest.{scan_operator_longest, scan_operator-spelling}

abbrev shift : Lexer
shift = lexer (codes "<<=1") fresh

scan_operator_longest_example : 2 ≤ (scan_operator shift).0.cur
unfolding spelling
scan_operator_longest_example =
    scan_operator_longest shift TokenKind.less_less (codes "=1") refl refl

shift_kind : (scan_operator shift).1.kind ≡ TokenKind.less_less_equal
unfolding scan_operator operator_kind arithmetic_operator comparison_operator bitwise_operator
shift_kind = refl

shift_fine : (scan_operator shift).1.kind ≢ TokenKind.error
shift_fine e = let k = shift_kind in cc

scan_operator-spelling_example :
    codes "<<=1" ≡ spelling (scan_operator shift).1.kind ++ (scan_operator shift).0.rest
scan_operator-spelling_example = scan_operator-spelling shift b'<' (codes "<=1") refl shift_fine

-- The text between the marks: "*a* /**/b".
letters : Body 1 (codes "*a* /**/b")
letters = plain refl (plain refl (plain refl (plain refl (nested nil (plain refl nil)))))

skip_comment_nested_example :
    skip_comment (lexer (codes "/**a* /**/b*/ x") fresh)
    ≡ (record (lexer (codes " x") fresh) { cur = 13 }, true)
skip_comment_nested_example =
    skip_comment_nested (lexer (codes "/**a* /**/b*/ x") fresh) 1 (codes "*a* /**/b") (codes " x")
      letters (omega arith) refl

abbrev sum : Lexer
sum = lexer (codes "407+1") fresh

ends_at_plus : ends_number b'+' ≡ true
unfolding ends_number is_ascii_ident_start is_utf8_start
ends_at_plus = refl

scan_number_digits_example :
    scan_number sum
    ≡ (record sum { cur = 3; rest = codes "+1" }, token TokenKind.integer_literal 0 3)
scan_number_digits_example =
    scan_number_digits sum b'4' (codes "07") (codes "+1") refl ends_at_plus refl
