-- ===== src/Parser/New.antt =====
-- `parseNewExpr` in lib/frontend/parser/Parser.cpp.
use moksha.Base.{ℕ, zero, suc, Bool, Option, none, some, codes}
use moksha.Lexer.Kinds.{TokenKind}
use moksha.Parser.Ast.{Expr, Exprs, no_exprs, lambda_expr, new_expr, thread_expr, Opaque}
use moksha.Parser.Lists.{with_part}
use moksha.Parser.State.{State, advance, at, consume_if, expect, error}
use moksha.Parser.Steps.{Result, Callees, chain, when, unless_null, fails}

-- Behind the expression of a thread: it is a lambda.
unfoldable pub thread_of : Bool → Expr → State → Result Expr
unfolding expect error
thread_of weak (lambda_expr ps body m async) s =
    let (t, closed) = expect TokenKind.rparen s in
    when closed t (λ u. some (thread_expr weak (lambda_expr ps body m async), u)) fails
thread_of weak e s =
    fails (error (codes "Thread instantiation requires a closure/lambda expression.") s)

module _ (c : Callees) (expression : State → Result Expr) where
  -- The thread, behind the keyword.
  unfoldable pub new_thread : Bool → State → Result Expr
  unfolding expect thread_of
  new_thread weak s =
      let (t, opened) = expect TokenKind.lparen s in
      when opened t (λ u. chain (expression u) (λ e v. unless_null e v (thread_of weak e))) fails

  -- The arguments; those that are no expression are left out.
  unfoldable pub new_args_loop : ℕ → State → Result Exprs
  unfolding consume_if with_part
  new_args_loop zero s = none
  new_args_loop (suc fuel) s = chain (expression s) (λ e t.
      let (u, more) = consume_if TokenKind.comma t in
      chain (when more u (new_args_loop fuel) (λ v. some (no_exprs, v)))
        (λ es v. some (with_part expression e es, v)))

  unfoldable pub new_args : ℕ → State → Result Exprs
  unfolding at new_args_loop
  new_args fuel s =
      when (at TokenKind.rparen s) s (λ t. some (no_exprs, t)) (λ t. new_args_loop fuel t)

  -- Behind the type of an object.
  unfoldable pub object_of : ℕ → Bool → Option Opaque → State → Result Expr
  unfolding new_args expect
  object_of fuel weak none s = fails s
  object_of fuel weak (some type) s =
      chain (new_args fuel (expect TokenKind.lparen s).0)
        (λ args t. some (new_expr weak type args, (expect TokenKind.rparen t).0))

  -- `parseNewExpr()`
  unfoldable pub parse_new_expr : ℕ → State → Result Expr
  unfolding advance consume_if new_thread object_of
  parse_new_expr fuel s =
      let (t, weak) = consume_if TokenKind.kw_weak (advance s) in
      let (u, thread) = consume_if TokenKind.kw_thread t in
      when thread u (new_thread weak) (λ v. chain (c.parse_type expression v) (object_of fuel weak))
