-- ===== src/Parser/Ends/Groups.antt =====
-- Parentheses, casts and the calls that are keywords are read to their ends.
use moksha.Base.{ℕ, zero, suc, ◌≤◌, ◌<◌, refl, Bool, false, Option, none, some, arith}
use moksha.Lexer.Kinds.{TokenKind}
use moksha.Parser.Ast.{Expr, CaptureMode, snapshot, no_params, Opaque, lambda_expr, null_ptr}
use moksha.Parser.Ends.{
  Ends, Ends-some, Ends-when, Ends-weaken, Ends-unless, Ends-chain, Total, Behaves,
}
use moksha.Parser.Ends.Lambda.{parse_lambda_body-Ends, parse_typed_lambda-Ends}
use moksha.Parser.Ends.Lists.{Consuming}
use moksha.Parser.Groups.{
  skip_loop, untyped_lambda, close_group, parse_group, as_async, parse_async, parse_operand,
  behind_type, parse_cast, parse_sizeof, parse_input_expr, prompt_missing,
}
use moksha.Parser.Moves.{
  before_end-fewer, weight-advance, advance-fewer_at, weight-consume_if, weight-expect,
  weight-expect_greater,
}
use moksha.Parser.State.{State, weight, advance, expect_greater, error, report_here}
use moksha.Parser.Steps.{Result, Callees}

-- The loop ends at a right parenthesis or at the end of the file.
skip_loop-Ends :
    (bound fuel k : ℕ) (s : State)
    → weight bound s ≤ k
    → k ≤ bound
    → weight bound s < fuel
    → Ends bound k (skip_loop fuel s)
unfolding skip_loop
skip_loop-Ends bound zero k s h b f = absurd (omega arith)
skip_loop-Ends bound (suc fuel) k s h b f =
    Ends-when k _ s _ _ (λ _. Ends-some k _ s h)
      (λ a.
        let less = before_end-fewer bound s (omega arith) (ground (arith, a)) in
        skip_loop-Ends bound fuel k (advance s) (omega arith) b (omega arith))

close_group-Ends :
    (bound fuel : ℕ) (captured : Bool) (loc : ℕ) (e : Expr) (k : ℕ) (s : State)
    → weight bound s ≤ k
    → k ≤ bound
    → k < fuel
    → Ends bound k (close_group fuel captured loc e s)
unfolding close_group untyped_lambda error report_here
close_group-Ends bound fuel captured loc e k s h b f =
    Ends-when k _ s _ _
      (λ _.
        Ends-chain k k _ _ (skip_loop-Ends bound fuel k _ h b (omega arith))
          (λ x t g. Ends-some k _ _ (omega (arith, weight-consume_if bound TokenKind.rparen t))))
      (λ _.
        let g = weight-expect bound TokenKind.rparen s in
        Ends-when k captured _ _ _ (λ _. Ends-some k _ _ (omega arith))
          (λ _. Ends-some k _ _ (omega arith)))

module _ (bound : ℕ) (c : Callees) (behaves : Behaves c) (expression : State → Result Expr) (n : ℕ)
    (total : Total bound n expression) (small : n ≤ bound) where
  pub parse_group-Ends :
      (fuel : ℕ)
      → n < fuel
      → (mode : CaptureMode) (captured : Bool) (loc : ℕ)
      → Consuming bound expression n total (parse_group c expression fuel mode captured loc)
  unfolding parse_group error report_here
  parse_group-Ends fuel enough mode captured loc k s h b less =
      let t = advance s in
      let j = weight bound t in
      Ends-when k _ t _ _
        (λ _.
          Ends-when k _ (advance t) _ _
            (λ _. Ends-weaken j k _ (omega arith) (
              parse_lambda_body-Ends bound c behaves expression n total small no_params mode j _
                (omega (arith, weight-advance bound t, weight-advance bound (advance t)))
                (omega arith)))
            (λ _. Ends-some k _ _ (omega (arith, weight-advance bound t))))
        (λ _.
          Ends-when k _ t _ _
            (λ _. Ends-weaken j k _ (omega arith) (
              parse_typed_lambda-Ends bound c behaves expression n total small fuel enough mode j t
                (omega arith) (omega arith)))
            (λ _.
              Ends-chain (weight bound t) k _ _
                (total (weight bound t) t (omega arith) (omega arith))
                (λ e u g.
                  close_group-Ends bound fuel captured loc e k u (omega arith) (omega arith)
                    (omega arith))))

  as_async-Ends :
      (e : Expr) (k : ℕ) (s : State) → weight bound s ≤ k → Ends bound k (as_async c expression e s)
  unfolding as_async error report_here
  as_async-Ends (lambda_expr ps body m a) k s h = Ends-some k _ _ h
  as_async-Ends null_ptr k s h = Ends-some k _ _ h
  as_async-Ends _ k s h = Ends-some k _ _ h

  pub parse_async-Ends :
      (fuel : ℕ)
      → n < fuel
      → (k : ℕ) (s : State) → weight bound s ≤ k
      → k < suc n
      → weight bound (advance s) < weight bound s
      → Ends bound k (parse_async c expression fuel s)
  unfolding parse_async error report_here
  parse_async-Ends fuel enough k s h b less =
      let t = advance s in
      Ends-when k _ t _ _
        (λ a.
          let fewer = advance-fewer_at bound TokenKind.lparen t refl a in
          Ends-chain k k _ _
            (parse_group-Ends fuel enough snapshot false _ k t (omega arith) b fewer)
            (λ e u g. as_async-Ends e k u g))
        (λ _. Ends-some k _ _ (omega arith))

  parse_operand-Ends :
      (node : Expr → Expr) (k : ℕ) (s : State)
      → weight bound s ≤ k
      → k < n
      → Ends bound k (parse_operand c expression node s)
  unfolding parse_operand
  parse_operand-Ends node k s h b =
      let g = weight-expect bound TokenKind.lparen s in
      Ends-when k _ _ _ _
        (λ _. Ends-chain k k _ _ (total k _ (omega arith) b) (λ e v g.
          Ends-unless k e v _ g
            (Ends-some k _ _ (omega (arith, weight-expect bound TokenKind.rparen v)))))
        (λ _. Ends-some k _ _ (omega arith))

  behind_type-Ends :
      (node : Opaque → Expr → Expr) (type : Option Opaque) (k : ℕ) (s : State)
      → weight bound s ≤ k
      → k < n
      → Ends bound k (behind_type c expression node type s)
  unfolding behind_type
  behind_type-Ends node none k s h b = Ends-some k _ _ h
  behind_type-Ends node (some type) k s h b =
      parse_operand-Ends (node type) k (expect_greater s).0
        (omega (arith, weight-expect_greater bound s)) b

  pub parse_cast-Ends :
      (node : Opaque → Expr → Expr)
      → Consuming bound expression n total (parse_cast c expression node)
  unfolding parse_cast
  parse_cast-Ends node k s h b less =
      let j = weight bound (advance s) in
      let g = weight-expect bound TokenKind.less (advance s) in
      Ends-when k _ _ _ _
        (λ _.
          Ends-chain j k _ _ (behaves.parse_type bound n expression small total j _ g (omega arith))
            (λ type t f.
              Ends-weaken j k _ (omega arith) (behind_type-Ends node type j t f (omega arith))))
        (λ _. Ends-some k _ _ (omega arith))

  pub parse_sizeof-Ends : Consuming bound expression n total (parse_sizeof c expression)
  unfolding parse_sizeof
  parse_sizeof-Ends k s h b less =
      let j = weight bound (advance s) in
      Ends-chain j k _ _
        (total j _ (weight-expect bound TokenKind.lparen (advance s)) (omega arith))
        (λ e t g. Ends-some k _ _ (omega (arith, weight-expect bound TokenKind.rparen t)))

  weight-prompt_missing :
      (e : Expr) (s : State) → weight bound (prompt_missing c expression e s) ≤ weight bound s
  unfolding error report_here
  weight-prompt_missing e s = ground arith

  pub parse_input_expr-Ends : Consuming bound expression n total (parse_input_expr c expression)
  unfolding parse_input_expr error report_here
  parse_input_expr-Ends k s h b less =
      let j = weight bound (advance s) in
      Ends-chain j k _ _
        (total j _ (weight-expect bound TokenKind.lparen (advance s)) (omega arith))
        (λ e t g.
          let p = prompt_missing c expression e t in
          Ends-some k _ _
            (omega (arith, weight-expect bound TokenKind.rparen p, weight-prompt_missing e t)))
