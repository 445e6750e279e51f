-- ===== src/Parser/Infix.antt =====
-- The levels of the operators, from `parsePrefix` to `parseExpression`, in
-- lib/frontend/parser/Parser.cpp.
use moksha.Base.{ℕ, zero, suc, false, not, ◌&&◌, none, some, codes, bytes_eq}
use moksha.Lexer.Kinds.{TokenKind}
use moksha.Parser.Ast.{
  Expr, null_ptr, binary_expr, unary_expr, ternary_expr, await_expr, call_expr, no_exprs, expr,
}
use moksha.Parser.Kinds.{kind_is}
use moksha.Parser.Lookahead.{is_start_of_declaration}
use moksha.Parser.Postfix.{parse_postfix}
use moksha.Parser.State.{State, cur, advance, at, at_any, consume_if, expect, error}
use moksha.Parser.Steps.{Result, Callees, chain, when, unless_null}
use moksha.Parser.Operators.{
  additive_kinds, and_kinds, assignment_kinds, at_capture, at_factor, coalescing_kinds,
  equality_kinds, infix_level, insert_first_arg, is_identifier_expr, logical_and_kinds,
  logical_or_kinds, on_line, or_kinds, prefix_kinds, relational_kinds, shift_kinds, xor_kinds,
}

module _ (c : Callees) (expression : State → Result Expr) (fuel : ℕ) where
  abbrev postfix : State → Result Expr
  postfix = parse_postfix c expression fuel

  -- `parsePrefix()`, on fuel `k`.
  unfoldable pub parse_prefix : ℕ → State → Result Expr
  unfolding at at_any advance parse_postfix kind_is bytes_eq
  parse_prefix zero s = none
  parse_prefix (suc k) s =
      when (at TokenKind.kw_await s) s
        (λ t. chain (parse_prefix k (advance t)) (λ e u. some (await_expr e, u)))
        (λ _. when (at_capture s) s postfix (λ _.
          when (at TokenKind.power s) s
            (λ t. chain (parse_prefix k (advance t)) (λ e u.
              unless_null e u (λ v.
                some (unary_expr TokenKind.star (unary_expr TokenKind.star e false) false, v))))
            (λ _.
              when (at_any prefix_kinds s) s
                (λ t.
                  chain (parse_prefix k (advance t))
                    (λ e u. unless_null e u (λ v. some (unary_expr (cur s).kind e false, v))))
                postfix)))

  -- `parsePower()`: to the right.
  unfoldable pub parse_power : ℕ → State → Result Expr
  unfolding at advance is_start_of_declaration parse_prefix
  parse_power zero s = none
  parse_power (suc k) s = chain (parse_prefix fuel s) (λ l t.
      when (at TokenKind.power t && not (is_start_of_declaration t)) t
        (λ _. unless_null l t (λ u.
          chain (parse_power k (advance u))
            (λ r v. unless_null r v (λ w. some (binary_expr l TokenKind.power r, w)))))
        (λ u. some (l, u)))

  unfoldable pub parse_multiplicative : State → Result Expr
  unfolding infix_level at_factor parse_power
  parse_multiplicative = infix_level at_factor (parse_power fuel) fuel

  unfoldable pub parse_additive : State → Result Expr
  unfolding infix_level on_line parse_multiplicative
  parse_additive = infix_level (on_line additive_kinds) parse_multiplicative fuel

  unfoldable pub parse_shift : State → Result Expr
  unfolding infix_level at_any parse_additive
  parse_shift = infix_level (at_any shift_kinds) parse_additive fuel

  unfoldable pub parse_null_coalescing : State → Result Expr
  unfolding infix_level at_any parse_shift
  parse_null_coalescing = infix_level (at_any coalescing_kinds) parse_shift fuel

  -- Behind the right side `r` of `|>`: a call that holds the left side, or a call of a name.
  unfoldable pub piped : (Expr → State → Result Expr) → Expr → Expr → State → Result Expr
  unfolding insert_first_arg is_identifier_expr error
  piped next l r s =
      let (e, found) = insert_first_arg l r in
      when found s (next e) (λ t.
        when (is_identifier_expr r) t (next (call_expr r (expr l no_exprs))) (λ u. some (
          null_ptr,
          error (codes "Right side of '|>' must be a function call, identifier, or member access")
              u,
        )))

  -- The loop of `parsePipe()`, on fuel `k`.
  unfoldable pub pipe_loop : ℕ → Expr → State → Result Expr
  unfolding at advance piped parse_postfix
  pipe_loop zero l s = none
  pipe_loop (suc k) l s =
      when (at TokenKind.pipe_greater s) s
        (λ t. chain (postfix (advance t)) (λ r u. unless_null r u (piped (pipe_loop k) l r)))
        (λ t. some (l, t))

  unfoldable pub parse_pipe : State → Result Expr
  unfolding pipe_loop parse_null_coalescing
  parse_pipe s = chain (parse_null_coalescing s) (λ l t. unless_null l t (pipe_loop fuel l))

  unfoldable pub parse_relational : State → Result Expr
  unfolding infix_level at_any parse_pipe
  parse_relational = infix_level (at_any relational_kinds) parse_pipe fuel

  unfoldable pub parse_equality : State → Result Expr
  unfolding infix_level at_any parse_relational
  parse_equality = infix_level (at_any equality_kinds) parse_relational fuel

  unfoldable pub parse_bitwise_and : State → Result Expr
  unfolding infix_level on_line parse_equality
  parse_bitwise_and = infix_level (on_line and_kinds) parse_equality fuel

  unfoldable pub parse_bitwise_xor : State → Result Expr
  unfolding infix_level at_any parse_bitwise_and
  parse_bitwise_xor = infix_level (at_any xor_kinds) parse_bitwise_and fuel

  unfoldable pub parse_bitwise_or : State → Result Expr
  unfolding infix_level at_any parse_bitwise_xor
  parse_bitwise_or = infix_level (at_any or_kinds) parse_bitwise_xor fuel

  unfoldable pub parse_logical_and : State → Result Expr
  unfolding infix_level at_any parse_bitwise_or
  parse_logical_and = infix_level (at_any logical_and_kinds) parse_bitwise_or fuel

  unfoldable pub parse_logical_or : State → Result Expr
  unfolding infix_level at_any parse_logical_and
  parse_logical_or = infix_level (at_any logical_or_kinds) parse_logical_and fuel

  -- `parseTernary()`, on fuel `k`.
  unfoldable pub parse_ternary : ℕ → State → Result Expr
  unfolding consume_if expect parse_logical_or
  parse_ternary zero s = none
  parse_ternary (suc k) s = chain (parse_logical_or s) (λ e t. unless_null e t (λ u.
      let (v, asks) = consume_if TokenKind.question u in
      when asks v
        (λ w. chain (parse_ternary k w) (λ a x. unless_null a x (λ y.
          let (z, colon) = expect TokenKind.colon y in
          when colon z
            (λ z.
              chain (parse_ternary k z)
                (λ b z. unless_null b z (λ z. some (ternary_expr e a b, z))))
            (λ z. some (null_ptr, z)))))
        (λ w. some (e, w))))

  -- `parseAssignment()`, on fuel `k`.
  unfoldable pub parse_assignment : ℕ → State → Result Expr
  unfolding at_any advance parse_ternary
  parse_assignment zero s = none
  parse_assignment (suc k) s = chain (parse_ternary fuel s) (λ l t. unless_null l t (λ u.
      when (at_any assignment_kinds u) u
        (λ v.
          chain (parse_assignment k (advance v))
            (λ r w. unless_null r w (λ x. some (binary_expr l (cur u).kind r, x))))
        (λ v. some (l, v))))

-- `parseExpression()`: enough fuel is more than the number of the tokens that are left.
unfoldable pub parse_expression : Callees → ℕ → State → Result Expr
unfolding parse_assignment
parse_expression c zero s = none
parse_expression c (suc n) s = parse_assignment c (parse_expression c n) (suc n) (suc n) s
