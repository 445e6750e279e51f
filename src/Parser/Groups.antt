-- ===== src/Parser/Groups.antt =====
-- Parentheses, casts and the calls that are keywords: cases of `parsePrimary`, and `parseInputExpr`, in
-- lib/frontend/parser/Parser.cpp.
use moksha.Base.{
  ℕ, zero, suc, Bool, true, false, ◌&&◌, ◌||◌, Option, none, some, List, [], ◌∷◌, codes,
  if◌then◌else◌,
}
use moksha.Diagnostics.{report}
use moksha.Diagnostics.Ids.{err_expected_token}
use moksha.Lexer.Kinds.{TokenKind}
use moksha.Parser.Ast.{
  Expr, CaptureMode, snapshot, no_params, Opaque, null_ptr, is_null, lambda_expr, size_of_expr,
  input_expr,
}
use moksha.Parser.Lambda.{parse_lambda_body, parse_typed_lambda}
use moksha.Parser.Kinds.{kind_is, is_any}
use moksha.Parser.Lookahead.{names_parameter}
use moksha.Parser.State.{
  State, cur, following, advance, at, at_any, consume_if, expect, expect_greater, error,
}
use moksha.Parser.Steps.{Result, Callees, chain, when, unless_null, fails}

-- The primitive types that may begin a typed lambda.
abbrev parameter_types : List TokenKind
parameter_types =
    TokenKind.kw_int ∷ TokenKind.kw_float ∷ TokenKind.kw_bool ∷ TokenKind.kw_string
    ∷ TokenKind.kw_void ∷ TokenKind.kw_any ∷ TokenKind.kw_char ∷ TokenKind.kw_double
    ∷ TokenKind.kw_half ∷ TokenKind.kw_quarter ∷ TokenKind.kw_short ∷ TokenKind.kw_long
    ∷ TokenKind.kw_usize ∷ TokenKind.kw_isize ∷ []

-- `isTypedLambda`, behind the left parenthesis.
unfoldable pub is_typed_lambda : State → Bool
unfolding at at_any kind_is is_any names_parameter
is_typed_lambda s =
    let next = (following s).kind in
    if at_any parameter_types s
    then kind_is TokenKind.identifier next
    else if at TokenKind.identifier s
    then (if is_any (TokenKind.identifier ∷ TokenKind.question ∷ []) next
        then true
        else kind_is TokenKind.less next && names_parameter (following s).onward)
    else false

-- `while (curTok.isNot(RParen) && curTok.isNot(Eof)) consume();`, on fuel. It returns no expression.
unfoldable pub skip_loop : ℕ → State → Result Expr
unfolding at advance
skip_loop zero s = none
skip_loop (suc fuel) s =
    when (at TokenKind.rparen s || at TokenKind.eof s) s fails (λ t. skip_loop fuel (advance t))

-- An untyped lambda, (x => ...) or (x, y => ...).
unfoldable pub untyped_lambda : ℕ → State → Result Expr
unfolding skip_loop consume_if error
untyped_lambda fuel s =
    chain
      (skip_loop fuel (
        error
          (codes
            "Invalid lambda syntax. Moksha requires typed parameters (e.g., '(int x) => { ... }')")
          s))
      (λ e t. fails (consume_if TokenKind.rparen t).0)

abbrev misplaced_capture : ℕ → State → State
misplaced_capture loc s = record s {
  diags =
      report s.diags loc err_expected_token
        (codes "closure capture modifier can only be applied to lambda expressions");
}

-- Behind the expression in parentheses.
unfoldable pub close_group : ℕ → Bool → ℕ → Expr → State → Result Expr
unfolding at_any untyped_lambda expect
close_group fuel captured loc e s =
    when (at_any (TokenKind.fat_arrow ∷ TokenKind.comma ∷ []) s) s (untyped_lambda fuel) (λ t.
      let u = (expect TokenKind.rparen t).0 in
      when captured u (λ v. fails (misplaced_capture loc v)) (λ v. some (e, v)))

-- The locals of the function: what the capture modifier says, whether there is one, and `loc`.
module _ (c : Callees) (expression : State → Result Expr) where
  -- `case TokenKind::LParen`
  unfoldable pub parse_group : ℕ → CaptureMode → Bool → ℕ → State → Result Expr
  unfolding at is_typed_lambda close_group parse_lambda_body parse_typed_lambda advance error
  parse_group fuel mode captured loc s =
      when (at TokenKind.rparen (advance s)) (advance s)
        (λ t.
          when (at TokenKind.fat_arrow (advance t)) (advance t)
            (λ u. parse_lambda_body c expression no_params mode (advance u))
            (λ u. fails (error (codes "Expected expression after empty parentheses") u)))
        (λ t.
          when (is_typed_lambda t) t (parse_typed_lambda c expression fuel mode)
            (λ u. chain (expression u) (close_group fuel captured loc)))

  -- `setAsync(true)` on a lambda; an expression that is none is returned with a report.
  unfoldable pub as_async : Expr → State → Result Expr
  unfolding error
  as_async (lambda_expr ps body m a) s = some (lambda_expr ps body m true, s)
  as_async null_ptr s = fails (error (codes "Expected '(' for async lambda expression") s)
  as_async e s = some (e, error (codes "Expected lambda expression after 'async'") s)

  -- `case TokenKind::KwAsync`
  unfoldable pub parse_async : ℕ → State → Result Expr
  unfolding at as_async parse_group advance error
  parse_async fuel s =
      when (at TokenKind.lparen (advance s)) (advance s)
        (λ t. chain (parse_group fuel snapshot false (cur t).location t) as_async)
        (λ t. fails (error (codes "Expected '(' for async lambda expression") t))

  -- `( … )` behind the type of a cast: `node` builds the expression.
  unfoldable pub parse_operand : (Expr → Expr) → State → Result Expr
  unfolding advance expect at
  parse_operand node s =
      let (t, opened) = expect TokenKind.lparen s in
      when opened t
        (λ u.
          chain (expression u)
            (λ e v. unless_null e v (λ w. some (node e, (expect TokenKind.rparen w).0))))
        fails

  unfoldable pub behind_type : (Opaque → Expr → Expr) → Option Opaque → State → Result Expr
  unfolding expect_greater parse_operand
  behind_type node none s = fails s
  behind_type node (some type) s = parse_operand (node type) (expect_greater s).0

  -- `case TokenKind::KwCast` and `case TokenKind::KwBitcast`
  unfoldable pub parse_cast : (Opaque → Expr → Expr) → State → Result Expr
  unfolding advance expect behind_type
  parse_cast node s =
      let (t, opened) = expect TokenKind.less (advance s) in
      when opened t (λ u. chain (c.parse_type expression u) (behind_type node)) fails

  -- `case TokenKind::KwSizeof`
  unfoldable pub parse_sizeof : State → Result Expr
  unfolding advance expect
  parse_sizeof s =
      chain (expression (expect TokenKind.lparen (advance s)).0)
        (λ e t. some (size_of_expr e, (expect TokenKind.rparen t).0))

  abbrev pub prompt_missing : Expr → State → State
  prompt_missing e s =
      if is_null e then error (codes "input() requires a mandatory prompt string argument") s else s

  -- `parseInputExpr()`
  unfoldable pub parse_input_expr : State → Result Expr
  unfolding advance expect error is_null
  parse_input_expr s =
      chain (expression (expect TokenKind.lparen (advance s)).0)
        (λ e t. some (input_expr e, (expect TokenKind.rparen (prompt_missing e t)).0))
