-- ===== src/Parser/Ends/Lambda.antt =====
-- Lambdas are read to their ends.
use moksha.Base.{ℕ, zero, suc, ◌≤◌, ◌<◌, Option, none, some, arith, Bool-cases, inl, inr}
use moksha.Lexer.Kinds.{TokenKind}
use moksha.Parser.Ast.{Expr, Params, CaptureMode, Opaque}
use moksha.Parser.Ends.{Ends, Ends-some, Ends-when, Ends-chain, Total, Behaves}
use moksha.Parser.Ends.Lists.{more-Ends}
use moksha.Parser.Lambda.{
  parse_lambda_body, param_name, behind_param_type, params_loop, parse_typed_lambda,
}
use moksha.Parser.Moves.{weight-advance, weight-consume_if, weight-expect}
use moksha.Parser.State.{State, weight, at, consume_if, expect, error, report_here}
use moksha.Parser.Steps.{Result, Callees}

weight-param_name : (bound : ℕ) (s : State) → weight bound (param_name s).1 ≤ weight bound s
unfolding param_name error report_here
weight-param_name bound s = elim (Bool-cases (at TokenKind.identifier s)) [
  | inl e ↦ rw e (weight-advance bound s)
  | inr e ↦ rw e (omega arith)
]

module _ (bound : ℕ) (c : Callees) (behaves : Behaves c) (expression : State → Result Expr) (n : ℕ)
    (total : Total bound n expression) (small : n ≤ bound) where
  pub parse_lambda_body-Ends :
      (params : Params) (mode : CaptureMode)
      → Total bound n (parse_lambda_body c expression params mode)
  unfolding parse_lambda_body
  parse_lambda_body-Ends ps m k s h b =
      Ends-when k _ s _ _
        (λ _.
          Ends-chain k k _ _ (behaves.parse_block bound n expression small total k s h b)
            (λ x t g. Ends-some k _ t g))
        (λ _. Ends-chain k k _ _ (total k s h b) (λ e t g. Ends-some k _ t g))

  behind_param_type-Ends :
      (next : State → Result Params) (type : Option Opaque) (k : ℕ) (s : State)
      → weight bound s ≤ k
      → k < n
      → ((t : State) → weight bound t < weight bound s → Ends bound k (next t))
      → Ends bound k (behind_param_type c expression next type s)
  unfolding behind_param_type
  behind_param_type-Ends next none k s h b p = Ends-some k _ s h
  behind_param_type-Ends next (some type) k s h b p =
      let t = (param_name s).1 in
      let u = (consume_if TokenKind.equal t).0 in
      let small_u : weight bound u ≤ weight bound s =
        omega (arith, weight-param_name bound s, weight-consume_if bound TokenKind.equal t) in
      Ends-chain (weight bound s) k _ _
        (Ends-when (weight bound s) _ u _ _ (λ _. total (weight bound s) u small_u (omega arith))
          (λ _. Ends-some (weight bound s) _ u small_u))
        (λ e v g.
          Ends-chain k k _ _
            (more-Ends bound expression n total k v next _ (omega arith)
              (λ w less. p w (omega arith)) (λ w. Ends-some k _ w))
            (λ ps w. Ends-some k _ w))

  params_loop-Ends :
      (fuel k : ℕ) (s : State)
      → weight bound s ≤ k
      → k < n
      → weight bound s < fuel
      → Ends bound k (params_loop c expression fuel s)
  unfolding params_loop
  params_loop-Ends zero k s h b f = absurd (omega arith)
  params_loop-Ends (suc fuel) k s h b f =
      let j = weight bound s in
      Ends-chain j k _ _
        (behaves.parse_type bound n expression small total j s (omega arith) (omega arith))
        (λ type t g.
          behind_param_type-Ends (params_loop c expression fuel) type k t (omega arith) b
            (λ u less. params_loop-Ends fuel k u (omega arith) b (omega arith)))

  pub parse_typed_lambda-Ends :
      (fuel : ℕ)
      → n < fuel
      → (mode : CaptureMode) → Total bound n (parse_typed_lambda c expression fuel mode)
  unfolding parse_typed_lambda error report_here
  parse_typed_lambda-Ends fuel enough m k s h b =
      Ends-chain k k _ _ (params_loop-Ends fuel k s h b (omega arith)) (λ ps t g.
        let u = (expect TokenKind.rparen t).0 in
        let v = (consume_if TokenKind.fat_arrow u).0 in
        let small_v : weight bound v ≤ k = omega (
          arith,
          weight-expect bound TokenKind.rparen t,
          weight-consume_if bound TokenKind.fat_arrow u,
        ) in
        Ends-when k _ v _ _ (λ _. parse_lambda_body-Ends ps m k v small_v b)
          (λ _. Ends-some k _ _ small_v))
