-- ===== src/Parser/Ends/Ladder.antt =====
-- Every expression is read to its end: the levels of the operators, and `parseExpression`.
use moksha.Base.{ℕ, zero, suc, ◌≤◌, ◌<◌, refl, arith}
use moksha.Lexer.Kinds.{TokenKind}
use moksha.Parser.Ast.{Expr}
use moksha.Parser.Ends.{Ends, Ends-some, Ends-when, Ends-unless, Ends-chain, Total, Behaves}
use moksha.Parser.Ends.Infix.{any-Ends, line-Ends, at_factor-Moving, infix_level-Ends}
use moksha.Parser.Ends.Postfix.{parse_postfix-Ends}
use moksha.Parser.Infix.{
  parse_prefix, parse_power, parse_multiplicative, parse_additive, parse_shift,
  parse_null_coalescing, piped, pipe_loop, parse_pipe, parse_relational, parse_equality,
  parse_bitwise_and, parse_bitwise_xor, parse_bitwise_or, parse_logical_and, parse_logical_or,
  parse_ternary, parse_assignment,
}
use moksha.Parser.Operators.{
  additive_kinds, shift_kinds, coalescing_kinds, relational_kinds, equality_kinds, and_kinds,
  xor_kinds, or_kinds, logical_and_kinds, logical_or_kinds, at_factor, assignment_kinds,
  prefix_kinds,
}
use moksha.Parser.Postfix.{parse_postfix}
use moksha.Parser.Kinds.{kind_is, is_any}
use moksha.Parser.Moves.{
  advance-fewer, advance-fewer_at, weight-consume_if, consume_if-fewer, weight-expect,
}
use moksha.Parser.State.{State, weight, advance, consume_if, expect, error, report_here}
use moksha.Parser.Steps.{Result, Callees}

module _ (bound : ℕ) (c : Callees) (behaves : Behaves c) (expression : State → Result Expr) (n : ℕ)
    (total : Total bound n expression) (small : n ≤ bound) (fuel : ℕ) (enough : n < fuel) where
  postfix-Ends : Total bound (suc n) (parse_postfix c expression fuel)
  postfix-Ends = parse_postfix-Ends bound expression n total fuel enough c behaves small

  -- `k` bounds the tokens that are left, `i` is the function's own fuel.
  abbrev OnFuel : (ℕ → State → Result Expr) → Type 0
  OnFuel f =
      (i : ℕ) (k : ℕ) (s : State)
      → weight bound s ≤ k
      → k < suc n
      → weight bound s < i
      → Ends bound k (f i s)

  prefix-Ends : OnFuel (parse_prefix c expression fuel)
  unfolding parse_prefix is_any kind_is
  prefix-Ends zero k s h b f = absurd (omega arith)
  prefix-Ends (suc i) k s h b f =
      Ends-when k _ s _ _
        (λ a.
          let less = advance-fewer_at bound TokenKind.kw_await s refl a in
          Ends-chain k k _ _ (prefix-Ends i k (advance s) (omega arith) b (omega arith))
            (λ e u g. Ends-some k _ u g))
        (λ _.
          Ends-when k _ s _ _ (λ _. postfix-Ends k s h b)
            (λ _.
              Ends-when k _ s _ _
                (λ a.
                  let less = advance-fewer_at bound TokenKind.power s refl a in
                  Ends-chain k k _ _ (prefix-Ends i k (advance s) (omega arith) b (omega arith))
                    (λ e u g. Ends-unless k e u _ g (Ends-some k _ u g)))
                (λ _.
                  Ends-when k _ s _ _
                    (λ a.
                      let less = advance-fewer bound prefix_kinds s refl a in
                      Ends-chain k k _ _ (prefix-Ends i k (advance s) (omega arith) b (omega arith))
                        (λ e u g. Ends-unless k e u _ g (Ends-some k _ u g)))
                    (λ _. postfix-Ends k s h b))))

  power-Ends : OnFuel (parse_power c expression fuel)
  unfolding parse_power is_any kind_is
  power-Ends zero k s h b f = absurd (omega arith)
  power-Ends (suc i) k s h b f =
      Ends-chain (weight bound s) k _ _
        (prefix-Ends fuel (weight bound s) s (omega arith) (omega arith) (omega arith))
        (λ l t g.
          Ends-when k _ t _ _
            (λ a.
              let less = advance-fewer_at bound TokenKind.power t refl (ground (arith, a)) in
              Ends-unless k l t _ (omega arith) (
                Ends-chain k k _ _ (power-Ends i k (advance t) (omega arith) b (omega arith))
                  (λ r v g. Ends-unless k r v _ g (Ends-some k _ v g))))
            (λ _. Ends-some k _ t (omega arith)))

  multiplicative-Ends : Total bound (suc n) (parse_multiplicative c expression fuel)
  unfolding parse_multiplicative
  multiplicative-Ends =
      infix_level-Ends bound n fuel enough at_factor (parse_power c expression fuel fuel)
        (at_factor-Moving bound) (λ k s h b. power-Ends fuel k s h b (omega arith))

  additive-Ends : Total bound (suc n) (parse_additive c expression fuel)
  unfolding parse_additive is_any kind_is
  additive-Ends = line-Ends bound n fuel enough additive_kinds _ refl multiplicative-Ends

  shift-Ends : Total bound (suc n) (parse_shift c expression fuel)
  unfolding parse_shift is_any kind_is
  shift-Ends = any-Ends bound n fuel enough shift_kinds _ refl additive-Ends

  coalescing-Ends : Total bound (suc n) (parse_null_coalescing c expression fuel)
  unfolding parse_null_coalescing is_any kind_is
  coalescing-Ends = any-Ends bound n fuel enough coalescing_kinds _ refl shift-Ends

  pipe_loop-Ends :
      (i : ℕ) (l : Expr) (k : ℕ) (s : State)
      → weight bound s ≤ k
      → k < suc n
      → weight bound s < i
      → Ends bound k (pipe_loop c expression fuel i l s)
  unfolding pipe_loop piped is_any kind_is error report_here
  pipe_loop-Ends zero l k s h b f = absurd (omega arith)
  pipe_loop-Ends (suc i) l k s h b f =
      Ends-when k _ s _ _
        (λ a.
          let less = advance-fewer_at bound TokenKind.pipe_greater s refl a in
          let j = weight bound (advance s) in
          Ends-chain j k _ _ (postfix-Ends j (advance s) (omega arith) (omega arith)) (λ r u g.
            Ends-unless k r u _ (omega arith) (
              Ends-when k _ u _ _ (λ _. pipe_loop-Ends i _ k u (omega arith) b (omega arith))
                (λ _.
                  Ends-when k _ u _ _ (λ _. pipe_loop-Ends i _ k u (omega arith) b (omega arith))
                    (λ _. Ends-some k _ _ (omega arith))))))
        (λ _. Ends-some k _ s h)

  pipe-Ends : Total bound (suc n) (parse_pipe c expression fuel)
  unfolding parse_pipe
  pipe-Ends k s h b =
      Ends-chain k k _ _ (coalescing-Ends k s h b)
        (λ l t g. Ends-unless k l t _ g (pipe_loop-Ends fuel l k t g b (omega arith)))

  relational-Ends : Total bound (suc n) (parse_relational c expression fuel)
  unfolding parse_relational is_any kind_is
  relational-Ends = any-Ends bound n fuel enough relational_kinds _ refl pipe-Ends

  equality-Ends : Total bound (suc n) (parse_equality c expression fuel)
  unfolding parse_equality is_any kind_is
  equality-Ends = any-Ends bound n fuel enough equality_kinds _ refl relational-Ends

  bitwise_and-Ends : Total bound (suc n) (parse_bitwise_and c expression fuel)
  unfolding parse_bitwise_and is_any kind_is
  bitwise_and-Ends = line-Ends bound n fuel enough and_kinds _ refl equality-Ends

  bitwise_xor-Ends : Total bound (suc n) (parse_bitwise_xor c expression fuel)
  unfolding parse_bitwise_xor is_any kind_is
  bitwise_xor-Ends = any-Ends bound n fuel enough xor_kinds _ refl bitwise_and-Ends

  bitwise_or-Ends : Total bound (suc n) (parse_bitwise_or c expression fuel)
  unfolding parse_bitwise_or is_any kind_is
  bitwise_or-Ends = any-Ends bound n fuel enough or_kinds _ refl bitwise_xor-Ends

  logical_and-Ends : Total bound (suc n) (parse_logical_and c expression fuel)
  unfolding parse_logical_and is_any kind_is
  logical_and-Ends = any-Ends bound n fuel enough logical_and_kinds _ refl bitwise_or-Ends

  logical_or-Ends : Total bound (suc n) (parse_logical_or c expression fuel)
  unfolding parse_logical_or is_any kind_is
  logical_or-Ends = any-Ends bound n fuel enough logical_or_kinds _ refl logical_and-Ends

  ternary-Ends : OnFuel (parse_ternary c expression fuel)
  unfolding parse_ternary is_any kind_is
  ternary-Ends zero k s h b f = absurd (omega arith)
  ternary-Ends (suc i) k s h b f =
      Ends-chain (weight bound s) k _ _
        (logical_or-Ends (weight bound s) s (omega arith) (omega arith))
        (λ e t g. Ends-unless k e t _ (omega arith) (
          Ends-when k _ _ _ _
            (λ a.
              let less = consume_if-fewer bound TokenKind.question t refl a in
              let u = (consume_if TokenKind.question t).0 in
              Ends-chain (weight bound u) k _ _
                (ternary-Ends i (weight bound u) u (omega arith) (omega arith) (omega arith))
                (λ x v vle. Ends-unless k x v _ (omega arith) (
                  let w = (expect TokenKind.colon v).0 in
                  let y = weight-expect bound TokenKind.colon v in
                  Ends-when k _ w _ _
                    (λ _.
                      Ends-chain k k _ _ (ternary-Ends i k w (omega arith) b (omega arith))
                        (λ z q qle. Ends-unless k z q _ qle (Ends-some k _ q qle)))
                    (λ _. Ends-some k _ w (omega arith)))))
            (λ _. Ends-some k _ _ (omega (arith, weight-consume_if bound TokenKind.question t)))))

  pub assignment-Ends : OnFuel (parse_assignment c expression fuel)
  unfolding parse_assignment is_any kind_is
  assignment-Ends zero k s h b f = absurd (omega arith)
  assignment-Ends (suc i) k s h b f =
      Ends-chain (weight bound s) k _ _
        (ternary-Ends fuel (weight bound s) s (omega arith) (omega arith) (omega arith))
        (λ l t g. Ends-unless k l t _ (omega arith) (
          Ends-when k _ t _ _
            (λ a.
              let less = advance-fewer bound assignment_kinds t refl a in
              Ends-chain k k _ _ (assignment-Ends i k (advance t) (omega arith) b (omega arith))
                (λ r v g. Ends-unless k r v _ g (Ends-some k _ v g)))
            (λ _. Ends-some k _ t (omega arith))))
