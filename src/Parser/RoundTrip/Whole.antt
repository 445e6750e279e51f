-- ===== src/Parser/RoundTrip/Whole.antt =====
-- The printed trees are read back: the whole ladder of the levels.
use moksha.Base.{ℕ, zero, suc, ◌≤◌, ◌<◌, ◌≡◌, refl, ap, Bool, some, length, arith}
use moksha.Lexer.Kinds.{TokenKind}
use moksha.Parser.Ast.{Expr}
use moksha.Parser.Infix.{
  parse_power, parse_multiplicative, parse_additive, parse_shift, parse_null_coalescing, pipe_loop,
  parse_pipe, parse_relational, parse_equality, parse_bitwise_and, parse_bitwise_xor,
  parse_bitwise_or, parse_logical_and, parse_logical_or, parse_ternary, parse_assignment,
  parse_expression,
}
use moksha.Parser.Operators.{
  infix_level, at_factor, on_line, additive_kinds, shift_kinds, coalescing_kinds, relational_kinds,
  equality_kinds, and_kinds, xor_kinds, or_kinds, logical_and_kinds, logical_or_kinds,
}
use moksha.Parser.Kinds.{kind_is, is_any}
use moksha.Parser.RoundTrip.Levels.{ReadsAt, level-ReadsAt, print-suc}
use moksha.Parser.RoundTrip.Operand.{Reads, is_null-expression_of, low-not}
use moksha.Parser.RoundTrip.Power.{power-ReadsAt}
use moksha.Parser.RoundTrip.Ranks.{
  Matches, any-Matches, line-Matches, factor-Matches, rank-pipe, logical_or-OfRank,
  logical_and-OfRank, or-OfRank, xor-OfRank, and-OfRank, equality-OfRank, relational-OfRank,
  coalescing-OfRank, shift-OfRank, additive-OfRank,
}
use moksha.Parser.State.{Seen, State, cur, at, at_any, consume_if}
use moksha.Parser.Steps.{Result, Callees, chain, when, unless_null}
use moksha.Parser.Trees.{
  Tree, leaf, node, rank, print, expression_of, IsWritten, written_node, push,
}

module _ (c : Callees) (expression : State → Result Expr) (opening closing : Seen) (n : ℕ)
    (reads : Reads c expression n opening closing n) where
  abbrev ReadsFrom : ℕ → (State → Result Expr) → Type 0
  ReadsFrom = ReadsAt opening closing (suc n)

  power-Level : ReadsFrom 13 (parse_power c expression (suc n) (suc n))
  power-Level e s w h b =
      power-ReadsAt c expression opening closing n reads (suc n) e s w h b (omega arith)

  level :
      (goes : State → Bool) (sub : State → Result Expr) (j : ℕ)
      → Matches goes j
      → ReadsFrom (suc j) sub
      → j < 13
      → ReadsFrom j (infix_level goes sub (suc n))
  level goes sub j m reads low =
      level-ReadsAt opening closing (suc n) goes sub j m.stops m.runs reads low

  multiplicative-ReadsAt : ReadsFrom 12 (parse_multiplicative c expression (suc n))
  unfolding parse_multiplicative
  multiplicative-ReadsAt =
      level at_factor (parse_power c expression (suc n) (suc n)) 12 factor-Matches power-Level
        (omega arith)

  additive-ReadsAt : ReadsFrom 11 (parse_additive c expression (suc n))
  unfolding parse_additive
  additive-ReadsAt =
      level (on_line additive_kinds) (parse_multiplicative c expression (suc n)) 11
        (line-Matches additive_kinds 11 additive-OfRank) multiplicative-ReadsAt (omega arith)

  shift-ReadsAt : ReadsFrom 10 (parse_shift c expression (suc n))
  unfolding parse_shift
  shift-ReadsAt =
      level (at_any shift_kinds) (parse_additive c expression (suc n)) 10
        (any-Matches shift_kinds 10 shift-OfRank) additive-ReadsAt (omega arith)

  null_coalescing-ReadsAt : ReadsFrom 9 (parse_null_coalescing c expression (suc n))
  unfolding parse_null_coalescing
  null_coalescing-ReadsAt =
      level (at_any coalescing_kinds) (parse_shift c expression (suc n)) 9
        (any-Matches coalescing_kinds 9 coalescing-OfRank) shift-ReadsAt (omega arith)

  -- A tree holds no `|>`, and is printed for its level as for the next.
  print-pipe : (e : Tree) → print opening closing 8 e ≡ print opening closing 9 e
  unfolding print
  print-pipe (leaf t) = refl
  print-pipe (node k t l r) = print-suc opening closing (suc n) 8 k t l r (rank-pipe k)

  pipe-ReadsAt : ReadsFrom 8 (parse_pipe c expression (suc n))
  unfolding parse_pipe pipe_loop chain unless_null when at is_any kind_is rank
  pipe-ReadsAt e s w h b = rw (
    print-pipe e,
    null_coalescing-ReadsAt e s w (omega arith) (omega (arith, ap length (print-pipe e))),
    is_null-expression_of e,
    low-not (cur s).kind TokenKind.pipe_greater (omega arith) refl,
  )

  relational-ReadsAt : ReadsFrom 7 (parse_relational c expression (suc n))
  unfolding parse_relational
  relational-ReadsAt =
      level (at_any relational_kinds) (parse_pipe c expression (suc n)) 7
        (any-Matches relational_kinds 7 relational-OfRank) pipe-ReadsAt (omega arith)

  equality-ReadsAt : ReadsFrom 6 (parse_equality c expression (suc n))
  unfolding parse_equality
  equality-ReadsAt =
      level (at_any equality_kinds) (parse_relational c expression (suc n)) 6
        (any-Matches equality_kinds 6 equality-OfRank) relational-ReadsAt (omega arith)

  bitwise_and-ReadsAt : ReadsFrom 5 (parse_bitwise_and c expression (suc n))
  unfolding parse_bitwise_and
  bitwise_and-ReadsAt =
      level (on_line and_kinds) (parse_equality c expression (suc n)) 5
        (line-Matches and_kinds 5 and-OfRank) equality-ReadsAt (omega arith)

  bitwise_xor-ReadsAt : ReadsFrom 4 (parse_bitwise_xor c expression (suc n))
  unfolding parse_bitwise_xor
  bitwise_xor-ReadsAt =
      level (at_any xor_kinds) (parse_bitwise_and c expression (suc n)) 4
        (any-Matches xor_kinds 4 xor-OfRank) bitwise_and-ReadsAt (omega arith)

  bitwise_or-ReadsAt : ReadsFrom 3 (parse_bitwise_or c expression (suc n))
  unfolding parse_bitwise_or
  bitwise_or-ReadsAt =
      level (at_any or_kinds) (parse_bitwise_xor c expression (suc n)) 3
        (any-Matches or_kinds 3 or-OfRank) bitwise_xor-ReadsAt (omega arith)

  logical_and-ReadsAt : ReadsFrom 2 (parse_logical_and c expression (suc n))
  unfolding parse_logical_and
  logical_and-ReadsAt =
      level (at_any logical_and_kinds) (parse_bitwise_or c expression (suc n)) 2
        (any-Matches logical_and_kinds 2 logical_and-OfRank) bitwise_or-ReadsAt (omega arith)

  logical_or-ReadsAt : ReadsFrom 1 (parse_logical_or c expression (suc n))
  unfolding parse_logical_or
  logical_or-ReadsAt =
      level (at_any logical_or_kinds) (parse_logical_and c expression (suc n)) 1
        (any-Matches logical_or_kinds 1 logical_or-OfRank) logical_and-ReadsAt (omega arith)

  -- Every operator binds: the whole tree is printed as for the loosest level.
  print-whole : (e : Tree) → IsWritten e → print opening closing 0 e ≡ print opening closing 1 e
  unfolding print
  print-whole (leaf t) w = refl
  print-whole (node k t l r) (written_node _ _ _ _ p wl wr) =
      let o = p.operator in print-suc opening closing (suc n) 0 k t l r (ground arith)

  assignment-Reads :
      (e : Tree) (s : State)
      → IsWritten e
      → rank (cur s).kind ≡ 0
      → length (print opening closing 0 e) < suc n
      → parse_assignment c expression (suc n) (suc n) (push (print opening closing 0 e) s)
        ≡ some (expression_of e, s)
  unfolding parse_assignment parse_ternary consume_if chain unless_null when at at_any is_any
      kind_is rank
  assignment-Reads e s w h b =
      let g = (cur s).kind in
      let low : rank g ≤ 13 = omega arith in
      rw (
        print-whole e w,
        logical_or-ReadsAt e s w (omega arith) (omega (arith, ap length (print-whole e w))),
        is_null-expression_of e,
        low-not g TokenKind.question low refl,
        is_null-expression_of e,
        low-not g TokenKind.equal low refl,
        low-not g TokenKind.plus_equal low refl,
        low-not g TokenKind.minus_equal low refl,
        low-not g TokenKind.star_equal low refl,
        low-not g TokenKind.slash_equal low refl,
        low-not g TokenKind.percent_equal low refl,
        low-not g TokenKind.amp_equal low refl,
        low-not g TokenKind.pipe_equal low refl,
        low-not g TokenKind.caret_equal low refl,
        low-not g TokenKind.less_less_equal low refl,
        low-not g TokenKind.greater_greater_equal low refl,
      )

-- The tokens of a tree of names and binary operators, with the parentheses that the levels ask for,
-- are read as that tree, `**` to the right and the others to the left, and what follows them is
-- left: where no name is "move", no operator is an assignment or `|>`, every operator stands on the
-- line of its left operand and the text does not make it look like a pointer declaration or the
-- arguments of a type, and the token behind the tree ends an expression. Fuel beyond the number of
-- the tokens of the tree is enough.
pub parse-print :
    (c : Callees) (opening closing : Seen) (n : ℕ) (e : Tree) (s : State)
    → IsWritten e
    → rank (cur s).kind ≡ 0
    → length (print opening closing 0 e) < n
    → parse_expression c n (push (print opening closing 0 e) s) ≡ some (expression_of e, s)
unfolding parse_expression
parse-print c opening closing zero e s w h b = absurd (omega arith)
parse-print c opening closing (suc n) e s w h b =
    assignment-Reads c (parse_expression c n) opening closing n (parse-print c opening closing n) e
      s w h b
