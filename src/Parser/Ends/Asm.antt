-- ===== src/Parser/Ends/Asm.antt =====
-- `asm` is read to its end.
use moksha.Base.{ℕ, zero, suc, ◌≤◌, ◌<◌, refl, Bytes, arith, Bool-cases, inl, inr}
use moksha.Lexer.Kinds.{TokenKind}
use moksha.Parser.Asm.{
  asm_string, no_text, no_register, no_constraint, directive_kinds, clobbers_loop, operands_loop,
  directives_loop, asm_type, parse_asm_expr,
}
use moksha.Parser.Ast.{Expr}
use moksha.Parser.Ends.{Ends, Ends-some, Ends-when, Ends-chain, Ends-weaken, Total, Behaves}
use moksha.Parser.Ends.Lists.{Consuming, more-Ends}
use moksha.Parser.Kinds.{is_any, kind_is}
use moksha.Parser.Moves.{
  advance-fewer, weight-advance, weight-consume_if, weight-expect, weight-expect_greater,
}
use moksha.Parser.State.{State, weight, advance, at, consume_if, expect, error, report_here}
use moksha.Parser.Steps.{Result, Callees}

weight-asm_string :
    (bound : ℕ) (message : Bytes) (s : State)
    → weight bound (asm_string message s).1 ≤ weight bound s
unfolding asm_string error report_here
weight-asm_string bound message s = elim (Bool-cases (at TokenKind.string_literal s)) [
  | inl e ↦ rw e (weight-advance bound s)
  | inr e ↦ rw e (omega arith)
]

module _ (bound : ℕ) (c : Callees) (behaves : Behaves c) (expression : State → Result Expr) (n : ℕ)
    (total : Total bound n expression) (small : n ≤ bound) where
  clobbers_loop-Ends :
      (fuel k : ℕ) (s : State)
      → weight bound s ≤ k
      → weight bound s < fuel
      → Ends bound k (clobbers_loop fuel s)
  unfolding clobbers_loop
  clobbers_loop-Ends zero k s h f = absurd (omega arith)
  clobbers_loop-Ends (suc fuel) k s h f =
      let t = (asm_string no_register s).1 in
      let g = weight-asm_string bound no_register s in
      Ends-chain k k _ _
        (more-Ends bound expression n total k t _ _ (omega arith)
          (λ u less. clobbers_loop-Ends fuel k u (omega arith) (omega arith))
          (λ u. Ends-some k _ u))
        (λ cs u. Ends-some k _ u)

  operands_loop-Ends :
      (fuel k : ℕ) (s : State)
      → weight bound s ≤ k
      → k < n
      → weight bound s < fuel
      → Ends bound k (operands_loop c expression fuel s)
  unfolding operands_loop
  operands_loop-Ends zero k s h b f = absurd (omega arith)
  operands_loop-Ends (suc fuel) k s h b f =
      let t = (asm_string no_constraint s).1 in
      let u = (expect TokenKind.lparen t).0 in
      let j = weight bound s in
      Ends-chain j k _ _
        (total j u
          (omega (
            arith,
            weight-asm_string bound no_constraint s,
            weight-expect bound TokenKind.lparen t,
          ))
          (omega arith))
        (λ e v g.
          let w = (expect TokenKind.rparen v).0 in
          let x = weight-expect bound TokenKind.rparen v in
          Ends-chain k k _ _
            (more-Ends bound expression n total k w _ _ (omega arith)
              (λ y less. operands_loop-Ends fuel k y (omega arith) b (omega arith))
              (λ y. Ends-some k _ y))
            (λ os y. Ends-some k _ y))

  directives_loop-Ends :
      (fuel k : ℕ) (s : State)
      → weight bound s ≤ k
      → k < n
      → weight bound s < fuel
      → Ends bound k (directives_loop c expression fuel s)
  unfolding directives_loop is_any kind_is
  directives_loop-Ends zero k s h b f = absurd (omega arith)
  directives_loop-Ends (suc fuel) k s h b f =
      Ends-when k _ s _ _
        (λ a.
          let less = advance-fewer bound directive_kinds s refl a in
          let t = (expect TokenKind.lparen (advance s)).0 in
          let j = weight bound (advance s) in
          let g = weight-expect bound TokenKind.lparen (advance s) in
          let again : (u : State)
              → weight bound u ≤ j
              → Ends bound k (directives_loop c expression fuel (expect TokenKind.rparen u).0) =
            λ u x.
              directives_loop-Ends fuel k _ (omega (arith, weight-expect bound TokenKind.rparen u))
                b (omega (arith, weight-expect bound TokenKind.rparen u)) in
          Ends-when k _ s _ _
            (λ _.
              Ends-chain k k _ _
                (directives_loop-Ends fuel k (advance s) (omega arith) b (omega arith))
                (λ x u. Ends-some k _ u))
            (λ _.
              Ends-when k _ t _ _
                (λ _.
                  Ends-chain j k _ _
                    (Ends-when j _ t _ _ (λ _. Ends-some j _ t g)
                      (λ _. clobbers_loop-Ends fuel j t g (omega arith)))
                    (λ cs u x. Ends-chain k k _ _ (again u x) (λ y v. Ends-some k _ v)))
                (λ _.
                  Ends-chain j k _ _
                    (Ends-when j _ t _ _ (λ _. Ends-some j _ t g)
                      (λ _. operands_loop-Ends fuel j t g (omega arith) (omega arith)))
                    (λ os u x. Ends-chain k k _ _ (again u x) (λ y v. Ends-some k _ v)))))
        (λ _. Ends-some k _ s h)

  asm_type-Ends : Total bound n (asm_type c expression)
  unfolding asm_type
  asm_type-Ends k s h b =
      let u = (consume_if TokenKind.less s).0 in
      let g = weight-consume_if bound TokenKind.less s in
      Ends-when k _ u _ _
        (λ _.
          Ends-chain k k _ _ (behaves.parse_type bound n expression small total k u (omega arith) b)
            (λ type v x. Ends-some k _ _ (omega (arith, weight-expect_greater bound v))))
        (λ _. Ends-some k _ u (omega arith))

  pub parse_asm_expr-Ends :
      (fuel : ℕ) → n < fuel → Consuming bound expression n total (parse_asm_expr c expression fuel)
  unfolding parse_asm_expr
  parse_asm_expr-Ends fuel enough k s h b less =
      let j = weight bound (advance s) in
      Ends-chain j k _ _ (asm_type-Ends j (advance s) (omega arith) (omega arith)) (λ type t g.
        let u = (expect TokenKind.lparen t).0 in
        let v = (asm_string no_text u).1 in
        let w = (expect TokenKind.rparen v).0 in
        let x : weight bound w ≤ j = omega (
          arith,
          weight-expect bound TokenKind.lparen t,
          weight-asm_string bound no_text u,
          weight-expect bound TokenKind.rparen v,
        ) in
        Ends-weaken j k _ (omega arith) (
          Ends-chain j j _ _ (directives_loop-Ends fuel j w x (omega arith) (omega arith))
            (λ a y. Ends-some j _ y)))
