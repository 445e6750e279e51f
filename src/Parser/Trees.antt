-- ===== src/Parser/Trees.antt =====
-- Trees of names and operators as tokens: the reference for the parser of expressions in
-- lib/frontend/parser/Parser.cpp. A tree is printed with the parentheses that the levels of its
-- operators ask for, and no others.
use moksha.Base.{
  ◌==◌, ℕ, suc, ◌<◌, ◌≡◌, false, List, [], ◌∷◌, ◌++◌, bytes_eq, codes, ltb, if◌then◌else◌,
}
use moksha.Lexer.Kinds.{TokenKind}
use moksha.Parser.Ast.{Expr, identifier_expr, binary_expr}
use moksha.Parser.Operators.{
  additive_kinds, shift_kinds, coalescing_kinds, relational_kinds, equality_kinds, and_kinds,
  xor_kinds, or_kinds, logical_and_kinds, logical_or_kinds,
}
use moksha.Parser.Kinds.{is_any}
use moksha.Parser.Lookahead.{has_newline_before, is_pointer_declaration, names_parameter}
use moksha.Parser.State.{Seen, State}

-- A name, or an operator between two trees; the tokens keep their places in the text.
pub data Tree : Type 0 where
  leaf : Seen → Tree
  node : TokenKind → Seen → Tree → Tree → Tree

-- The tokens behind which an expression ends.
abbrev ending_kinds : List TokenKind
ending_kinds =
    TokenKind.eof ∷ TokenKind.rparen ∷ TokenKind.semicolon ∷ TokenKind.comma ∷ TokenKind.colon
    ∷ TokenKind.rbracket ∷ TokenKind.rbrace ∷ []

abbrev pub factor_kinds : List TokenKind
factor_kinds = TokenKind.star ∷ TokenKind.slash ∷ TokenKind.percent ∷ []

abbrev pub power_kinds : List TokenKind
power_kinds = TokenKind.power ∷ []

-- How tightly a token binds: 0 where it ends every expression, 99 where it is no operator between two
-- trees.
unfoldable pub rank : TokenKind → ℕ
unfolding is_any
rank k =
    if is_any ending_kinds k
    then 0
    else if is_any logical_or_kinds k
    then 1
    else if is_any logical_and_kinds k
    then 2
    else if is_any or_kinds k
    then 3
    else if is_any xor_kinds k
    then 4
    else if is_any and_kinds k
    then 5
    else if is_any equality_kinds k
    then 6
    else if is_any relational_kinds k
    then 7
    else if is_any coalescing_kinds k
    then 9
    else if is_any shift_kinds k
    then 10
    else if is_any additive_kinds k
    then 11
    else if is_any factor_kinds k
    then 12
    else if is_any power_kinds k
    then 13
    else 99

abbrev pub tagged : TokenKind → Seen → Seen
tagged k t = record t { kind = k }

-- The ranks of the operands: `**` groups to the right, the other operators to the left.
unfoldable pub left_rank : TokenKind → ℕ
unfolding rank
left_rank k = if rank k == 13 then 14 else rank k

unfoldable pub right_rank : TokenKind → ℕ
unfolding rank
right_rank k = if rank k == 13 then 13 else suc (rank k)

-- The tokens of a tree at the rank `j`: one of an operator that binds less is in parentheses.
module _ (opening closing : Seen) where
  unfoldable pub print : ℕ → Tree → List Seen
  unfolding rank left_rank right_rank
  print j (leaf t) = tagged TokenKind.identifier t ∷ []
  print j (node k t l r) =
      let body = print (left_rank k) l ++ tagged k t ∷ print (right_rank k) r in
      if ltb (rank k) j
      then tagged TokenKind.lparen opening ∷ (body ++ tagged TokenKind.rparen closing ∷ [])
      else body

-- The expression that a tree stands for.
unfoldable pub expression_of : Tree → Expr
expression_of (leaf t) = identifier_expr t.spelling
expression_of (node k t l r) = binary_expr (expression_of l) k (expression_of r)

-- An operator on the line of its left operand, which the text does not make look like a pointer
-- declaration or the arguments of a type.
pub record IsPlain (k : TokenKind) (t : Seen) : Type 0 where
  pub operator : 0 < rank k
  pub binds : rank k < 14
  pub on_line : has_newline_before (tagged k t) ≡ false
  pub no_pointer : is_pointer_declaration t.onward ≡ false
  pub no_arguments : names_parameter t.onward ≡ false

-- Every name is another than "move", and every operator is plain.
pub data IsWritten : Tree → Type 0 where
  written_leaf : (t : Seen) → bytes_eq t.spelling (codes "move") ≡ false → IsWritten (leaf t)
  written_node :
      (k : TokenKind) (t : Seen) (l r : Tree)
      → IsPlain k t
      → IsWritten l
      → IsWritten r
      → IsWritten (node k t l r)

-- The state with these tokens in front of those that are left.
abbrev pub push : List Seen → State → State
push ts s = record s { left = ts ++ s.left }
