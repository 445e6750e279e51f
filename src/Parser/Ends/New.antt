-- ===== src/Parser/Ends/New.antt =====
-- `new` is read to its end.
use moksha.Base.{ℕ, zero, suc, ◌≤◌, ◌<◌, Bool, Option, none, some, arith}
use moksha.Lexer.Kinds.{TokenKind}
use moksha.Parser.Ast.{Expr, lambda_expr, Opaque}
use moksha.Parser.Ends.{
  Ends, Ends-some, Ends-when, Ends-unless, Ends-chain, Ends-weaken, Total, Behaves,
}
use moksha.Parser.Ends.Lists.{Consuming, more-Ends}
use moksha.Parser.Moves.{weight-consume_if, weight-expect}
use moksha.Parser.New.{thread_of, new_thread, new_args_loop, new_args, object_of, parse_new_expr}
use moksha.Parser.State.{State, weight, advance, consume_if, expect, error, report_here}
use moksha.Parser.Steps.{Result, Callees}

thread_of-Ends :
    {bound : ℕ} (weak : Bool) (e : Expr) (k : ℕ) (s : State)
    → weight bound s ≤ k
    → Ends bound k (thread_of weak e s)
unfolding thread_of error report_here
thread_of-Ends {bound} weak (lambda_expr ps body m async) k s h =
    let g = weight-expect bound TokenKind.rparen s in
    Ends-when k _ _ _ _ (λ _. Ends-some k _ _ (omega arith)) (λ _. Ends-some k _ _ (omega arith))
thread_of-Ends weak _ k s h = Ends-some k _ _ h

module _ (bound : ℕ) (c : Callees) (behaves : Behaves c) (expression : State → Result Expr) (n : ℕ)
    (total : Total bound n expression) (small : n ≤ bound) where
  new_thread-Ends : (weak : Bool) → Total bound n (new_thread c expression weak)
  unfolding new_thread
  new_thread-Ends weak k s h b =
      let g = weight-expect bound TokenKind.lparen s in
      Ends-when k _ _ _ _
        (λ _.
          Ends-chain k k _ _ (total k _ (omega arith) b)
            (λ e t f. Ends-unless k e t _ f (thread_of-Ends weak e k t f)))
        (λ _. Ends-some k _ _ (omega arith))

  new_args_loop-Ends :
      (fuel k : ℕ) (s : State)
      → weight bound s ≤ k
      → k < n
      → weight bound s < fuel
      → Ends bound k (new_args_loop c expression fuel s)
  unfolding new_args_loop
  new_args_loop-Ends zero k s h b f = absurd (omega arith)
  new_args_loop-Ends (suc fuel) k s h b f =
      let j = weight bound s in
      Ends-chain j k _ _ (total j s (omega arith) (omega arith)) (λ e t g.
        Ends-chain k k _ _
          (more-Ends bound expression n total k t _ _ (omega arith)
            (λ u less. new_args_loop-Ends fuel k u (omega arith) b (omega arith))
            (λ u. Ends-some k _ u))
          (λ es u. Ends-some k _ u))

  object_of-Ends :
      (fuel : ℕ) (weak : Bool) (type : Option Opaque)
      → n < fuel
      → Total bound n (object_of c expression fuel weak type)
  unfolding object_of new_args
  object_of-Ends fuel weak none f k s h b = Ends-some k _ s h
  object_of-Ends fuel weak (some type) f k s h b =
      let t = (expect TokenKind.lparen s).0 in
      let g = weight-expect bound TokenKind.lparen s in
      Ends-chain k k _ _
        (Ends-when k _ t _ _ (λ _. Ends-some k _ t (omega arith))
          (λ _. new_args_loop-Ends fuel k t (omega arith) b (omega arith)))
        (λ args u x. Ends-some k _ _ (omega (arith, weight-expect bound TokenKind.rparen u)))

  pub parse_new_expr-Ends :
      (fuel : ℕ) → n < fuel → Consuming bound expression n total (parse_new_expr c expression fuel)
  unfolding parse_new_expr
  parse_new_expr-Ends fuel enough k s h b less =
      let a = advance s in
      let t = (consume_if TokenKind.kw_weak a).0 in
      let weak = (consume_if TokenKind.kw_weak a).1 in
      let u = (consume_if TokenKind.kw_thread t).0 in
      let j = weight bound a in
      let small_u : weight bound u ≤ j = omega (
        arith,
        weight-consume_if bound TokenKind.kw_weak a,
        weight-consume_if bound TokenKind.kw_thread t,
      ) in
      Ends-weaken j k _ (omega arith) (
        Ends-when j _ u _ _ (λ _. new_thread-Ends weak j u small_u (omega arith))
          (λ _.
            Ends-chain j j _ _
              (behaves.parse_type bound n expression small total j u small_u (omega arith))
              (λ type v g. object_of-Ends fuel weak type enough j v g (omega arith))))
