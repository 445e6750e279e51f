-- ===== src/Parser/Ends/Infix.antt =====
-- An expression is read to its end.
use moksha.Base.{ℕ, zero, suc, ◌≤◌, ◌<◌, ◌≡◌, refl, Bool, true, List, [], ◌∷◌, arith}
use moksha.Lexer.Kinds.{TokenKind}
use moksha.Parser.Ast.{Expr}
use moksha.Parser.Ends.{Ends, Ends-some, Ends-when, Ends-unless, Ends-chain, Total}
use moksha.Parser.Operators.{infix_loop, infix_level, on_line, at_factor}
use moksha.Parser.Kinds.{kind_is, is_any}
use moksha.Parser.Moves.{passes, advance-fewer}
use moksha.Parser.State.{State, weight, advance, at_any}
use moksha.Parser.Steps.{Result}

-- Where the loop goes on there is a token to consume.
abbrev Moving : ℕ → (State → Bool) → Type 0
Moving bound goes = (s : State) → goes s ≡ true → weight bound (advance s) < weight bound s

module _ (bound : ℕ) (n : ℕ) (fuel : ℕ) (enough : n < fuel) where
  module _ (goes : State → Bool) (sub : State → Result Expr) (moving : Moving bound goes)
      (total : Total bound (suc n) sub) where
    infix_loop-Ends :
        (i : ℕ) (l : Expr) (k : ℕ) (s : State)
        → weight bound s ≤ k
        → k < suc n
        → weight bound s < i
        → Ends bound k (infix_loop goes sub i l s)
    unfolding infix_loop
    infix_loop-Ends zero l k s h b f = absurd (omega arith)
    infix_loop-Ends (suc i) l k s h b f =
        Ends-when k _ s _ _
          (λ a.
            let less = moving s a in
            let j = weight bound (advance s) in
            Ends-unless k l s _ h (
              Ends-chain j k _ _ (total j (advance s) (omega arith) (omega arith)) (λ r u g.
                Ends-unless k r u _ (omega arith)
                  (infix_loop-Ends i _ k u (omega arith) b (omega arith)))))
          (λ _. Ends-some k _ s h)

    pub infix_level-Ends : Total bound (suc n) (infix_level goes sub fuel)
    unfolding infix_level
    infix_level-Ends k s h b =
        Ends-chain k k _ _ (total k s h b) (λ l t g. infix_loop-Ends fuel l k t g b (omega arith))

  -- A level whose loop tests the kind alone, and one that tests for a newline.
  pub any-Ends :
      (ks : List TokenKind) (sub : State → Result Expr)
      → passes ks ≡ true
      → Total bound (suc n) sub
      → Total bound (suc n) (infix_level (at_any ks) sub fuel)
  any-Ends ks sub e total = infix_level-Ends (at_any ks) sub (λ s. advance-fewer bound ks s e) total

  pub line-Ends :
      (ks : List TokenKind) (sub : State → Result Expr)
      → passes ks ≡ true
      → Total bound (suc n) sub
      → Total bound (suc n) (infix_level (on_line ks) sub fuel)
  unfolding on_line
  line-Ends ks sub e total =
      infix_level-Ends (on_line ks) sub (λ s h. advance-fewer bound ks s e (ground (arith, h)))
        total

pub at_factor-Moving : (bound : ℕ) → Moving bound at_factor
unfolding at_factor is_any kind_is
at_factor-Moving bound s h =
    advance-fewer bound (TokenKind.star ∷ TokenKind.slash ∷ TokenKind.percent ∷ []) s refl
      (ground (arith, h))
