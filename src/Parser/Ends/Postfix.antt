-- ===== src/Parser/Ends/Postfix.antt =====
-- A postfix expression is read to its end.
use moksha.Base.{ℕ, zero, suc, ◌≤◌, ◌<◌, ◌≡◌, refl, true, [], ◌∷◌, arith, Bool-cases, inl, inr}
use moksha.Lexer.Kinds.{TokenKind}
use moksha.Parser.Ast.{Expr}
use moksha.Parser.Ends.{Ends, Ends-some, Ends-when, Ends-unless, Ends-chain, Total, Behaves}
use moksha.Parser.Ends.Lists.{arguments-Ends}
use moksha.Parser.Ends.Primary.{parse_primary-Ends}
use moksha.Parser.Kinds.{kind_is, is_any}
use moksha.Parser.Moves.{weight-advance, advance-fewer, advance-fewer_at, weight-expect}
use moksha.Parser.Postfix.{postfix_loop, parse_postfix, at_index, at_bracket}
use moksha.Parser.State.{State, weight, advance, at, expect}
use moksha.Parser.Steps.{Result, Callees}

weight-at_bracket : (bound : ℕ) (s : State) → weight bound (at_bracket s) ≤ weight bound s
weight-at_bracket bound s = ground (arith, weight-advance bound s)

index-fewer :
    (bound : ℕ) (s : State)
    → at_index s ≡ true
    → weight bound (advance (at_bracket s)) < weight bound s
unfolding is_any kind_is
index-fewer bound s h = elim (Bool-cases (at TokenKind.question s)) [
  | inl q ↦ rw q (
      omega (
        arith,
        advance-fewer_at bound TokenKind.question s refl q,
        weight-advance bound (advance s),
      ))
  | inr q ↦ rw q (advance-fewer_at bound TokenKind.lbracket s refl (ground (arith, q, h)))
]

module _ (bound : ℕ) (expression : State → Result Expr) (n : ℕ) (total : Total bound n expression)
    (fuel : ℕ) (enough : n < fuel) where
  postfix_loop-Ends :
      (i : ℕ) (l : Expr) (k : ℕ) (s : State)
      → weight bound s ≤ k
      → k < suc n
      → weight bound s < i
      → Ends bound k (postfix_loop expression fuel i l s)
  unfolding postfix_loop is_any kind_is
  postfix_loop-Ends zero l k s h b f = absurd (omega arith)
  postfix_loop-Ends (suc i) l k s h b f = Ends-unless k l s _ h (
      Ends-when k _ s _ _
        (λ a.
          let less = advance-fewer_at bound TokenKind.lparen s refl a in
          let j = weight bound (advance s) in
          Ends-when k _ s _ _ (λ _. Ends-some k _ s h)
            (λ _.
              Ends-chain j k _ _
                (arguments-Ends bound expression n total fuel (omega arith) j (advance s)
                  (omega arith) (omega arith))
                (λ args u g. postfix_loop-Ends i _ k u (omega arith) b (omega arith))))
        (λ _.
          Ends-when k _ s _ _
            (λ a.
              let less =
                advance-fewer bound (TokenKind.dot ∷ TokenKind.question_dot ∷ []) s refl a in
              let t = (expect TokenKind.identifier (advance s)).0 in
              let g = weight-expect bound TokenKind.identifier (advance s) in
              postfix_loop-Ends i _ k t (omega arith) b (omega arith))
            (λ _.
              Ends-when k _ s _ _
                (λ a.
                  let less = advance-fewer_at bound TokenKind.plus_plus s refl a in
                  postfix_loop-Ends i _ k _ (omega arith) b (omega arith))
                (λ _.
                  Ends-when k _ s _ _
                    (λ a.
                      let less = advance-fewer_at bound TokenKind.minus_minus s refl a in
                      postfix_loop-Ends i _ k _ (omega arith) b (omega arith))
                    (λ _.
                      Ends-when k _ s _ _
                        (λ a.
                          let less = index-fewer bound s a in
                          let j = weight bound (advance (at_bracket s)) in
                          Ends-when k _ _ _ _
                            (λ _. Ends-some k _ _ (omega (arith, weight-at_bracket bound s)))
                            (λ _.
                              Ends-chain j k _ _ (total j _ (omega arith) (omega arith)) (λ e u g.
                                let t = (expect TokenKind.rbracket u).0 in
                                let x = weight-expect bound TokenKind.rbracket u in
                                postfix_loop-Ends i _ k t (omega arith) b (omega arith))))
                        (λ _. Ends-some k _ s h))))))

  module _ (c : Callees) (behaves : Behaves c) (small : n ≤ bound) where
    pub parse_postfix-Ends : Total bound (suc n) (parse_postfix c expression fuel)
    unfolding parse_postfix
    parse_postfix-Ends k s h b =
        Ends-chain k k _ _
          (parse_primary-Ends bound c behaves expression n total small fuel enough k s h b)
          (λ l t g. postfix_loop-Ends fuel l k t g b (omega arith))
