-- ===== src/Parser/Postfix.antt =====
-- `parsePostfix` in lib/frontend/parser/Parser.cpp.
use moksha.Base.{ℕ, zero, suc, Bool, true, ◌&&◌, ◌||◌, none, some, [], ◌∷◌, if◌then◌else◌}
use moksha.Lexer.Kinds.{TokenKind}
use moksha.Parser.Ast.{Expr, call_expr, member_expr, unary_expr, index_expr}
use moksha.Parser.Kinds.{kind_is}
use moksha.Parser.Lists.{arguments}
use moksha.Parser.Lookahead.{has_newline_before}
use moksha.Parser.Primary.{parse_primary}
use moksha.Parser.State.{State, cur, following, advance, at, at_any, expect}
use moksha.Parser.Steps.{Result, Callees, chain, when, unless_null}

-- `[`, or `?` in front of a `[`.
abbrev pub at_index : State → Bool
at_index s =
    at TokenKind.lbracket s
    || (at TokenKind.question s && kind_is TokenKind.lbracket (following s).kind)

-- The bracket: behind the `?`, which is consumed before the test for a newline.
abbrev pub at_bracket : State → State
at_bracket s = if at TokenKind.question s then advance s else s

module _ (expression : State → Result Expr) (fuel : ℕ) where
  -- The loop, on fuel `k`.
  unfoldable pub postfix_loop : ℕ → Expr → State → Result Expr
  unfolding at at_any advance expect arguments has_newline_before kind_is
  postfix_loop zero l s = none
  postfix_loop (suc k) l s = unless_null l s (λ _.
      when (at TokenKind.lparen s) s
        (λ _.
          when (has_newline_before (cur s)) s (λ t. some (l, t))
            (λ t.
              chain (arguments expression fuel (advance t))
                (λ args u. postfix_loop k (call_expr l args) u)))
        (λ _.
          when (at_any (TokenKind.dot ∷ TokenKind.question_dot ∷ []) s) s
            (λ t.
              postfix_loop k
                (member_expr l (cur (advance t)).spelling (at TokenKind.question_dot t))
                (expect TokenKind.identifier (advance t)).0)
            (λ _.
              when (at TokenKind.plus_plus s) s
                (λ t. postfix_loop k (unary_expr TokenKind.plus_plus l true) (advance t))
                (λ _.
                  when (at TokenKind.minus_minus s) s
                    (λ t. postfix_loop k (unary_expr TokenKind.minus_minus l true) (advance t))
                    (λ _.
                      when (at_index s) s
                        (λ _.
                          when (has_newline_before (cur (at_bracket s))) (at_bracket s)
                            (λ t. some (l, t))
                            (λ t. chain (expression (advance t)) (λ i u.
                              postfix_loop k (index_expr l i (at TokenKind.question s))
                                (expect TokenKind.rbracket u).0)))
                        (λ t. some (l, t)))))))

module _ (c : Callees) (expression : State → Result Expr) (fuel : ℕ) where
  -- `parsePostfix()`
  unfoldable pub parse_postfix : State → Result Expr
  unfolding postfix_loop parse_primary
  parse_postfix s = chain (parse_primary c expression fuel s) (postfix_loop expression fuel fuel)
