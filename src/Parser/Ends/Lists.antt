-- ===== src/Parser/Ends/Lists.antt =====
-- The lists of expressions are read to their ends.
use moksha.Base.{ℕ, zero, suc, ◌≤◌, ◌<◌, ◌≡◌, refl, true, arith}
use moksha.Lexer.Kinds.{TokenKind}
use moksha.Parser.Ast.{Expr}
use moksha.Parser.Ends.{Ends, Ends-some, Ends-when, Ends-chain, Total}
use moksha.Parser.Kinds.{kind_is, is_any}
use moksha.Parser.Lists.{
  arguments_loop, arguments, element, elements_loop, parse_array_literal, entries_loop,
  parse_map_literal, template_loop, parse_template_string,
}
use moksha.Parser.Moves.{
  weight-advance, advance-fewer_at, weight-consume_if, consume_if-fewer, weight-expect,
}
use moksha.Parser.State.{State, weight, advance, consume_if, error, report_here}
use moksha.Parser.Steps.{Result, when}
use moksha.Parser.Unescape.{ToUtf8}

module _ (bound : ℕ) (expression : State → Result Expr) (n : ℕ)
    (total : Total bound n expression) where
  comma-fewer :
      (s : State)
      → (consume_if TokenKind.comma s).1 ≡ true
      → weight bound (consume_if TokenKind.comma s).0 < weight bound s
  unfolding is_any kind_is
  comma-fewer s = consume_if-fewer bound TokenKind.comma s refl

  -- Behind an element `a` of a list: a comma and the rest, or the end.
  pub more-Ends :
      {A : Type 0} (k : ℕ) (s : State) (again last : State → Result A)
      → weight bound s ≤ k
      → ((t : State) → weight bound t < weight bound s → Ends bound k (again t))
      → ((t : State) → weight bound t ≤ k → Ends bound k (last t))
      → Ends bound k
          (when (consume_if TokenKind.comma s).1 (consume_if TokenKind.comma s).0 again last)
  more-Ends k s again last h p q =
      Ends-when k _ _ again last (λ e. p _ (comma-fewer s e))
        (λ _. q _ (omega (arith, weight-consume_if bound TokenKind.comma s)))

  arguments_loop-Ends :
      (fuel : ℕ) (k : ℕ) (s : State)
      → weight bound s ≤ k
      → k < n
      → weight bound s < fuel
      → Ends bound k (arguments_loop expression fuel s)
  unfolding arguments_loop
  arguments_loop-Ends zero k s h b f = absurd (omega arith)
  arguments_loop-Ends (suc fuel) k s h b f =
      Ends-chain (weight bound s) k _ _ (total (weight bound s) s (omega arith) (omega arith))
        (λ e t g.
          more-Ends k t _ _ (omega arith)
            (λ u less.
              Ends-chain k k _ _ (arguments_loop-Ends fuel k u (omega arith) b (omega arith))
                (λ es w h. Ends-some k _ w h))
            (λ u. Ends-some k _ u))

  pub arguments-Ends : (fuel : ℕ) → n ≤ fuel → Total bound n (arguments expression fuel)
  unfolding arguments
  arguments-Ends fuel f k s h b =
      Ends-chain k k _ _
        (Ends-when k _ s _ _ (λ _. Ends-some k _ s h)
          (λ _. arguments_loop-Ends fuel k s h b (omega arith)))
        (λ es t g. Ends-some k _ _ (omega (arith, weight-expect bound TokenKind.rparen t)))

  element-Ends : Total bound n (element expression)
  unfolding element
  element-Ends k s h b =
      Ends-when k _ s _ _
        (λ _.
          Ends-chain k k _ _ (total k (advance s) (omega (arith, weight-advance bound s)) b)
            (λ e u g. Ends-some k _ u g))
        (λ _. total k s h b)

  elements_loop-Ends :
      (fuel : ℕ) (k : ℕ) (s : State)
      → weight bound s ≤ k
      → k < n
      → weight bound s < fuel
      → Ends bound k (elements_loop expression fuel s)
  unfolding elements_loop
  elements_loop-Ends zero k s h b f = absurd (omega arith)
  elements_loop-Ends (suc fuel) k s h b f =
      Ends-when k _ s _ _ (λ _. Ends-some k _ s h)
        (λ _.
          Ends-chain (weight bound s) k _ _
            (element-Ends (weight bound s) s (omega arith) (omega arith))
            (λ e t g.
              more-Ends k t _ _ (omega arith)
                (λ u less.
                  Ends-chain k k _ _ (elements_loop-Ends fuel k u (omega arith) b (omega arith))
                    (λ es w h. Ends-some k _ w h))
                (λ u. Ends-some k _ u)))

  -- What is read behind a token that is consumed.
  abbrev pub Consuming : {A : Type 0} → (State → Result A) → Type 0
  Consuming f =
      (k : ℕ) (s : State)
      → weight bound s ≤ k
      → k < suc n
      → weight bound (advance s) < weight bound s
      → Ends bound k (f s)

  pub parse_array_literal-Ends :
      (fuel : ℕ) → n < fuel → Consuming (parse_array_literal expression fuel)
  unfolding parse_array_literal
  parse_array_literal-Ends fuel f k s h b less =
      Ends-chain (weight bound (advance s)) k _ _
        (elements_loop-Ends fuel (weight bound (advance s)) (advance s) (omega arith) (omega arith)
          (omega arith))
        (λ es t g. Ends-some k _ _ (omega (arith, weight-expect bound TokenKind.rbracket t)))

  entries_loop-Ends :
      (fuel : ℕ) (k : ℕ) (s : State)
      → weight bound s ≤ k
      → k < n
      → weight bound s < fuel
      → Ends bound k (entries_loop expression fuel s)
  unfolding entries_loop
  entries_loop-Ends zero k s h b f = absurd (omega arith)
  entries_loop-Ends (suc fuel) k s h b f =
      Ends-chain (weight bound s) k _ _ (total (weight bound s) s (omega arith) (omega arith))
        (λ key t g.
          Ends-chain (weight bound s) k _ _
            (total (weight bound s) _ (omega (arith, weight-expect bound TokenKind.colon t))
              (omega arith))
            (λ val u g.
              more-Ends k u _ _ (omega arith)
                (λ v less.
                  Ends-chain k k _ _ (entries_loop-Ends fuel k v (omega arith) b (omega arith))
                    (λ es w h. Ends-some k _ w h))
                (λ v. Ends-some k _ v)))

  pub parse_map_literal-Ends : (fuel : ℕ) → n < fuel → Consuming (parse_map_literal expression fuel)
  unfolding parse_map_literal
  parse_map_literal-Ends fuel f k s h b less =
      let j = weight bound (advance s) in
      Ends-chain j k _ _
        (Ends-when j _ (advance s) _ _ (λ _. Ends-some j _ (advance s) (omega arith))
          (λ _. entries_loop-Ends fuel j (advance s) (omega arith) (omega arith) (omega arith)))
        (λ es t g. Ends-some k _ _ (omega (arith, weight-expect bound TokenKind.rbrace t)))

  module _ (utf8 : ToUtf8) where
    template_loop-Ends :
        (fuel : ℕ) (k : ℕ) (s : State)
        → weight bound s ≤ k
        → k < suc n
        → weight bound s < fuel
        → Ends bound k (template_loop expression utf8 fuel s)
    unfolding template_loop is_any kind_is error report_here
    template_loop-Ends zero k s h b f = absurd (omega arith)
    template_loop-Ends (suc fuel) k s h b f =
        Ends-when k _ s _ _
          (λ a.
            let less = advance-fewer_at bound TokenKind.string_fragment s refl a in
            Ends-chain k k _ _ (template_loop-Ends fuel k (advance s) (omega arith) b (omega arith))
              (λ es u. Ends-some k _ u))
          (λ _.
            Ends-when k _ s _ _
              (λ a.
                let less = advance-fewer_at bound TokenKind.interpolation_start s refl a in
                Ends-chain (weight bound (advance s)) k _ _
                  (total (weight bound (advance s)) (advance s) (omega arith) (omega arith))
                  (λ e v g.
                    let w = weight-expect bound TokenKind.interpolation_end v in
                    Ends-when k _ _ _ _
                      (λ _.
                        Ends-chain k k _ _
                          (template_loop-Ends fuel k _ (omega arith) b (omega arith))
                          (λ es y. Ends-some k _ y))
                      (λ _. Ends-some k _ _ (omega arith))))
              (λ _.
                Ends-when k _ s _ _ (λ _. Ends-some k _ _ (omega (arith, weight-advance bound s)))
                  (λ _. Ends-some k _ _ h)))

    pub parse_template_string-Ends :
        (fuel : ℕ) → n < fuel → Total bound (suc n) (parse_template_string expression utf8 fuel)
    unfolding parse_template_string
    parse_template_string-Ends fuel f k s h b =
        Ends-when k _ s _ _ (λ _. Ends-some k _ _ (omega (arith, weight-advance bound s)))
          (λ _.
            Ends-chain k k _ _ (template_loop-Ends fuel k s h b (omega arith))
              (λ es u. Ends-some k _ u))
