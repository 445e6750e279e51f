-- ===== src/Parser/Lambda.antt =====
-- Lambdas: `parseLambdaBody`, and the parameters of a typed lambda in `parsePrimary`, in
-- lib/frontend/parser/Parser.cpp.
use moksha.Base.{ℕ, zero, suc, false, Option, none, some, [], Bytes, codes, if◌then◌else◌}
use moksha.Lexer.Kinds.{TokenKind}
use moksha.Parser.Ast.{
  Expr, Params, no_params, param, block, returned, lambda_expr, CaptureMode, Opaque,
}
use moksha.Parser.State.{State, cur, advance, at, consume_if, expect, error}
use moksha.Parser.Steps.{Result, Callees, chain, when, fails}

-- The name of a parameter.
unfoldable pub param_name : State → Bytes × State
unfolding at advance error
param_name s =
    if at TokenKind.identifier s
    then ((cur s).spelling, advance s)
    else ([], error (codes "Expected parameter name") s)

module _ (c : Callees) (expression : State → Result Expr) where
  -- `parseLambdaBody(params, mode)`
  unfoldable pub parse_lambda_body : Params → CaptureMode → State → Result Expr
  unfolding at
  parse_lambda_body ps m s =
      when (at TokenKind.lbrace s) s
        (λ t.
          chain (c.parse_block expression t) (λ b u. some (lambda_expr ps (block b) m false, u)))
        (λ t. chain (expression t) (λ e u. some (lambda_expr ps (returned e) m false, u)))

  -- Behind the type of a parameter; `next` reads the parameters behind a comma.
  unfoldable pub behind_param_type : (State → Result Params) → Option Opaque → State → Result Params
  unfolding param_name consume_if
  behind_param_type next none s = some (no_params, s)
  behind_param_type next (some type) s =
      let (name, t) = param_name s in
      let (u, equal) = consume_if TokenKind.equal t in
      chain (when equal u expression fails) (λ val v.
        let (w, more) = consume_if TokenKind.comma v in
        chain (when more w next (λ x. some (no_params, x)))
          (λ ps x. some (param type name val ps, x)))

  -- The loop over the parameters.
  unfoldable pub params_loop : ℕ → State → Result Params
  unfolding behind_param_type
  params_loop zero s = none
  params_loop (suc fuel) s =
      chain (c.parse_type expression s) (behind_param_type (params_loop fuel))

  -- `if (isTypedLambda)`
  unfoldable pub parse_typed_lambda : ℕ → CaptureMode → State → Result Expr
  unfolding params_loop expect consume_if error parse_lambda_body
  parse_typed_lambda fuel m s = chain (params_loop fuel s) (λ ps t.
      let (u, arrow) = consume_if TokenKind.fat_arrow (expect TokenKind.rparen t).0 in
      when arrow u (parse_lambda_body ps m)
        (λ v. fails (error (codes "Expected '=>' after typed lambda parameters") v)))
