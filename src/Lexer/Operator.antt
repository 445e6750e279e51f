-- ===== src/Lexer/Operator.antt =====
-- `scanOperator` in lib/frontend/lexer/Lexer.cpp.
pub mod Moves
pub mod Spelling
pub mod Longest
use moksha.Base.{
  ℕ, zero, suc, ◌+◌, ◌-◌, ◌==◌, Bool, true, false, ◌&&◌, Option, none, some, List, [], ◌∷◌,
  if◌then◌else◌,
}
use moksha.Lexer.Kinds.{TokenKind, Token, token}
use moksha.Lexer.State.{Lexer, LexerState, template_string, peek, advance}

-- A kind, and the bytes of the operator behind its first one.
abbrev pub Munch : Type 0
Munch = ℕ × TokenKind

-- The operator with first byte `c`, where the bytes behind it are `p` and `q`.
unfoldable pub arithmetic_operator : ℕ → ℕ → Option Munch
arithmetic_operator c p =
    if c == b'+'
    then some (
        if p == b'+'
        then (1, TokenKind.plus_plus)
        else if p == b'='
        then (1, TokenKind.plus_equal)
        else (0, TokenKind.plus))
    else if c == b'-'
    then some (
        if p == b'-'
        then (1, TokenKind.minus_minus)
        else if p == b'='
        then (1, TokenKind.minus_equal)
        else if p == b'>'
        then (1, TokenKind.arrow)
        else (0, TokenKind.minus))
    else if c == b'*'
    then some (
        if p == b'*'
        then (1, TokenKind.power)
        else if p == b'='
        then (1, TokenKind.star_equal)
        else (0, TokenKind.star))
    else if c == b'/'
    then some (if p == b'=' then (1, TokenKind.slash_equal) else (0, TokenKind.slash))
    else if c == b'%'
    then some (if p == b'=' then (1, TokenKind.percent_equal) else (0, TokenKind.percent))
    else none

unfoldable pub comparison_operator : ℕ → ℕ → ℕ → Option Munch
comparison_operator c p q =
    if c == b'<'
    then some (
        if p == b'<'
        then (if q == b'=' then (2, TokenKind.less_less_equal) else (1, TokenKind.less_less))
        else if p == b'='
        then (1, TokenKind.less_equal)
        else (0, TokenKind.less))
    else if c == b'>'
    then some (
        if p == b'>'
        then (if q == b'='
            then (2, TokenKind.greater_greater_equal)
            else (1, TokenKind.greater_greater))
        else if p == b'='
        then (1, TokenKind.greater_equal)
        else (0, TokenKind.greater))
    else if c == b'='
    then some (
        if p == b'='
        then (1, TokenKind.equal_equal)
        else if p == b'>'
        then (1, TokenKind.fat_arrow)
        else (0, TokenKind.equal))
    else none

unfoldable pub bitwise_operator : ℕ → ℕ → Option Munch
bitwise_operator c p =
    if c == b'!'
    then some (if p == b'=' then (1, TokenKind.not_equal) else (0, TokenKind.bang))
    else if c == b'&'
    then some (
        if p == b'&'
        then (1, TokenKind.amp_amp)
        else if p == b'='
        then (1, TokenKind.amp_equal)
        else (0, TokenKind.amp))
    else if c == b'|'
    then some (
        if p == b'>'
        then (1, TokenKind.pipe_greater)
        else if p == b'|'
        then (1, TokenKind.pipe_pipe)
        else if p == b'='
        then (1, TokenKind.pipe_equal)
        else (0, TokenKind.pipe))
    else if c == b'^'
    then some (if p == b'=' then (1, TokenKind.caret_equal) else (0, TokenKind.caret))
    else if c == b'~'
    then some (0, TokenKind.tilde)
    else none

unfoldable pub syntax_operator : ℕ → ℕ → ℕ → Option Munch
syntax_operator c p q =
    if c == b'?'
    then some (
        if p == b'?'
        then (1, TokenKind.question_question)
        else if p == b'.'
        then (1, TokenKind.question_dot)
        else (0, TokenKind.question))
    else if c == b'.'
    then some (if p == b'.' && q == b'.' then (2, TokenKind.dot_dot_dot) else (0, TokenKind.dot))
    else if c == b','
    then some (0, TokenKind.comma)
    else if c == b';'
    then some (0, TokenKind.semicolon)
    else if c == b':'
    then some (0, TokenKind.colon)
    else none

unfoldable pub grouping_operator : ℕ → Option Munch
grouping_operator c =
    if c == b'('
    then some (0, TokenKind.lparen)
    else if c == b')'
    then some (0, TokenKind.rparen)
    else if c == b'['
    then some (0, TokenKind.lbracket)
    else if c == b']'
    then some (0, TokenKind.rbracket)
    else none

-- The first of the two that is there.
infixr 30 ◌or_else◌
abbrev pub ◌or_else◌ : Option Munch → Option Munch → Option Munch
some m or_else n = some m
none or_else n = n

-- All the operators but the braces.
unfoldable pub operator_kind : ℕ → ℕ → ℕ → Option Munch
operator_kind c p q =
    arithmetic_operator c p
    or_else comparison_operator c p q
    or_else bitwise_operator c p
    or_else syntax_operator c p q
    or_else grouping_operator c

-- The token of kind `k` from `start` to the cursor.
abbrev operator_token : Lexer → ℕ → TokenKind → Lexer × Token
operator_token s start k = (s, token k start (s.cur - start))

-- `interpolationStack.back().braceBalance++`
abbrev open_brace : List ℕ → List ℕ
open_brace [] = []
open_brace (balance ∷ outer) = (balance + 1) ∷ outer

-- The right brace that was just read: it ends the interpolation, or a block inside it.
unfoldable pub close_brace : Lexer → ℕ → List ℕ → Lexer × Token
close_brace s start [] = operator_token s start TokenKind.rbrace
close_brace s start (balance ∷ outer) =
    if balance == 0
    then operator_token
        (record s {
          interpolation_stack = outer;
          state = template_string;
          fragment_start = some s.cur;
        })
        start TokenKind.interpolation_end
    else operator_token (record s { interpolation_stack = (balance - 1) ∷ outer }) start
        TokenKind.rbrace

abbrev munch_token : Lexer → ℕ → Option Munch → Lexer × Token
munch_token s start (some (n, k)) = operator_token (advance s n) start k
munch_token s start none = operator_token s start TokenKind.error

unfoldable pub scan_operator : Lexer → Lexer × Token
scan_operator s =
    let t = advance s 1 in
    if peek s 0 == b'{'
    then operator_token (record t { interpolation_stack = open_brace s.interpolation_stack }) s.cur
        TokenKind.lbrace
    else if peek s 0 == b'}'
    then close_brace t s.cur s.interpolation_stack
    else munch_token t s.cur (operator_kind (peek s 0) (peek t 0) (peek t 1))
