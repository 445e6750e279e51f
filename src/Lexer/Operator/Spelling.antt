-- ===== src/Lexer/Operator/Spelling.antt =====
-- The kind of an operator against the bytes that were read for it.
use moksha.Base.{ℕ, ◌≡◌, Option, none, some, [], ◌∷◌, Bytes, arith, take, codes}
use moksha.Lexer.Kinds.{TokenKind}
use moksha.Lexer.Operator.{
  Munch, arithmetic_operator, comparison_operator, bitwise_operator, syntax_operator,
  grouping_operator, ◌or_else◌, operator_kind,
}

-- The text of an operator, as the comments of `TokenKind` give it; empty for the other kinds.
unfoldable pub spelling : TokenKind → Bytes
spelling TokenKind.plus = codes "+"
spelling TokenKind.minus = codes "-"
spelling TokenKind.star = codes "*"
spelling TokenKind.slash = codes "/"
spelling TokenKind.percent = codes "%"
spelling TokenKind.power = codes "**"
spelling TokenKind.plus_plus = codes "++"
spelling TokenKind.minus_minus = codes "--"
spelling TokenKind.equal = codes "="
spelling TokenKind.plus_equal = codes "+="
spelling TokenKind.minus_equal = codes "-="
spelling TokenKind.star_equal = codes "*="
spelling TokenKind.slash_equal = codes "/="
spelling TokenKind.percent_equal = codes "%="
spelling TokenKind.amp = codes "&"
spelling TokenKind.pipe = codes "|"
spelling TokenKind.caret = codes "^"
spelling TokenKind.tilde = codes "~"
spelling TokenKind.amp_equal = codes "&="
spelling TokenKind.pipe_equal = codes "|="
spelling TokenKind.caret_equal = codes "^="
spelling TokenKind.less_less = codes "<<"
spelling TokenKind.greater_greater = codes ">>"
spelling TokenKind.less_less_equal = codes "<<="
spelling TokenKind.greater_greater_equal = codes ">>="
spelling TokenKind.amp_amp = codes "&&"
spelling TokenKind.pipe_pipe = codes "||"
spelling TokenKind.pipe_greater = codes "|>"
spelling TokenKind.bang = codes "!"
spelling TokenKind.equal_equal = codes "=="
spelling TokenKind.not_equal = codes "!="
spelling TokenKind.less = codes "<"
spelling TokenKind.less_equal = codes "<="
spelling TokenKind.greater = codes ">"
spelling TokenKind.greater_equal = codes ">="
spelling TokenKind.fat_arrow = codes "=>"
spelling TokenKind.arrow = codes "->"
spelling TokenKind.dot = codes "."
spelling TokenKind.dot_dot_dot = codes "..."
spelling TokenKind.question_dot = codes "?."
spelling TokenKind.question_question = codes "??"
spelling TokenKind.question = codes "?"
spelling TokenKind.colon = codes ":"
spelling TokenKind.comma = codes ","
spelling TokenKind.semicolon = codes ";"
spelling TokenKind.lparen = codes "("
spelling TokenKind.rparen = codes ")"
spelling TokenKind.lbrace = codes "{"
spelling TokenKind.rbrace = codes "}"
spelling TokenKind.interpolation_end = codes "}"
spelling TokenKind.lbracket = codes "["
spelling TokenKind.rbracket = codes "]"
spelling _ = []

-- The bytes that were taken spell the operator.
abbrev pub Spells : ℕ → ℕ → ℕ → Option Munch → Type 0
Spells c p q none = Unit {0}
Spells c p q (some (n, k)) = spelling k ≡ c ∷ take n (p ∷ q ∷ [])

arithmetic-Spells : (c p q : ℕ) → Spells c p q (arithmetic_operator c p)
unfolding arithmetic_operator spelling
arithmetic-Spells c p q = ground arith

comparison-Spells : (c p q : ℕ) → Spells c p q (comparison_operator c p q)
unfolding comparison_operator spelling
comparison-Spells c p q = ground arith

bitwise-Spells : (c p q : ℕ) → Spells c p q (bitwise_operator c p)
unfolding bitwise_operator spelling
bitwise-Spells c p q = ground arith

syntax-Spells : (c p q : ℕ) → Spells c p q (syntax_operator c p q)
unfolding syntax_operator spelling
syntax-Spells c p q = ground arith

grouping-Spells : (c p q : ℕ) → Spells c p q (grouping_operator c)
unfolding grouping_operator spelling
grouping-Spells c p q = ground arith

Spells-or_else :
    (c p q : ℕ) (m n : Option Munch) → Spells c p q m → Spells c p q n → Spells c p q (m or_else n)
Spells-or_else c p q none n x y = y
Spells-or_else c p q (some r) n x y = x

pub operator_kind-Spells : (c p q : ℕ) → Spells c p q (operator_kind c p q)
unfolding operator_kind
operator_kind-Spells c p q = Spells-or_else c p q _ _ (arithmetic-Spells c p q) (
    Spells-or_else c p q _ _ (comparison-Spells c p q) (
      Spells-or_else c p q _ _ (bitwise-Spells c p q)
        (Spells-or_else c p q _ _ (syntax-Spells c p q) (grouping-Spells c p q))))
