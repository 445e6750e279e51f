-- ===== src/Parser/Ends/Primary.antt =====
-- A primary expression is read to its end.
use moksha.Base.{
  codes, Bool-cases, inl, inr, ℕ, suc, ◌≤◌, ◌<◌, ◌≡◌, refl, Bool, true, Option, none, some, [], ◌∷◌,
  arith, Bytes,
}
use moksha.Lexer.Kinds.{TokenKind, NumericSuffix}
use moksha.Parser.Ast.{Expr, CaptureMode, cast_expr, bitcast_expr}
use moksha.Parser.Ends.{Ends, Ends-some, Ends-when, Total, Behaves}
use moksha.Parser.Ends.Lists.{
  parse_array_literal-Ends, parse_map_literal-Ends, parse_template_string-Ends,
}
use moksha.Parser.Ends.New.{parse_new_expr-Ends}
use moksha.Parser.Ends.Asm.{parse_asm_expr-Ends}
use moksha.Parser.Ends.Groups.{
  parse_group-Ends, parse_async-Ends, parse_cast-Ends, parse_sizeof-Ends, parse_input_expr-Ends,
}
use moksha.Parser.Kinds.{kind_is, is_any}
use moksha.Parser.Literals.{
  parse_integer, parse_float, parse_decimal, parse_char, parse_string_literal, checked_value,
  char_value, escaped_char, integer_value, without_underscores,
}
use moksha.Parser.Moves.{passes, weight-advance, advance-fewer_at}
use moksha.Parser.Primary.{parse_token, parse_composite, capture_modifier, parse_primary}
use moksha.Parser.State.{State, cur, weight, advance, at, error, report_here}
use moksha.Parser.Steps.{Result, Callees}

weight-checked_value :
    (bound : ℕ) (text : Bytes) (kind : NumericSuffix) (s : State) (o : Option ℕ)
    → weight bound (checked_value text kind s o).1 ≤ weight bound s
unfolding report_here
weight-checked_value bound text kind s none = omega arith
weight-checked_value bound text kind s (some v) = ground arith

weight-escaped_char :
    (bound : ℕ) (text : Bytes) (s : State) → weight bound (escaped_char text s).1 ≤ weight bound s
unfolding escaped_char error report_here
weight-escaped_char bound text s = ground arith

weight-char_value :
    (bound : ℕ) (text : Bytes) (s : State) → weight bound (char_value text s).1 ≤ weight bound s
weight-char_value bound text s = ground (arith, weight-escaped_char bound text s)

weight-parse_float :
    (bound : ℕ) (p : Bytes → Bool) (s : State) → weight bound (parse_float p s).1 ≤ weight bound s
unfolding parse_float error report_here
weight-parse_float bound p s = elim (Bool-cases (p (without_underscores (cur s).spelling))) [
  | inl e ↦ rw e (weight-advance bound s)
  | inr e ↦ rw e (weight-advance bound (error (codes "Invalid float literal") s))
]

module _ (bound : ℕ) (c : Callees) (behaves : Behaves c) (expression : State → Result Expr) (n : ℕ)
    (total : Total bound n expression) (small : n ≤ bound) (fuel : ℕ) (enough : n < fuel) where
  parse_token-Ends :
      (k : ℕ) (s : State) (otherwise : State → Result Expr)
      → weight bound s ≤ k
      → Ends bound k (otherwise s)
      → Ends bound k (parse_token c expression fuel s otherwise)
  unfolding parse_token parse_integer parse_decimal parse_char parse_string_literal
  parse_token-Ends k s otherwise h p =
      let g = weight-advance bound s in
      Ends-when k _ s _ _ (λ _. Ends-some k _ _ (omega arith))
        (λ _.
          Ends-when k _ s _ _
            (λ _.
              let text = without_underscores (cur s).spelling in
              let g = weight-checked_value bound text (cur s).suffix s (integer_value text) in
              Ends-some k _ _ (
                omega (
                  arith,
                  weight-advance bound (checked_value text (cur s).suffix s (integer_value text)).1,
                )))
            (λ _.
              Ends-when k _ s _ _
                (λ _. Ends-some k _ _ (omega (arith, weight-parse_float bound c.accepts_float s)))
                (λ _.
                  Ends-when k _ s _ _ (λ _. Ends-some k _ _ (omega arith))
                    (λ _.
                      Ends-when k _ s _ _
                        (λ _.
                          let t = (char_value (cur s).spelling s).1 in
                          Ends-some k _ _ (
                            omega (
                              arith,
                              weight-char_value bound (cur s).spelling s,
                              weight-advance bound t,
                            )))
                        (λ _.
                          Ends-when k _ s _ _ (λ _. Ends-some k _ _ (omega arith))
                            (λ _.
                              Ends-when k _ s _ _ (λ _. Ends-some k _ _ (omega arith))
                                (λ _.
                                  Ends-when k _ s _ _ (λ _. Ends-some k _ _ (omega arith))
                                    (λ _.
                                      Ends-when k _ s _ _ (λ _. Ends-some k _ _ (omega arith))
                                        (λ _.
                                          Ends-when k _ s _ _ (λ _. Ends-some k _ _ (omega arith))
                                            (λ _.
                                              Ends-when k _ s _ _
                                                (λ _. Ends-some k _ _ (omega arith))
                                                (λ _.
                                                  Ends-when k _ s _ _
                                                    (λ _. Ends-some k _ _ (omega arith))
                                                    (λ _. p))))))))))))

  parse_composite-Ends :
      (mode : CaptureMode) (captured : Bool) (loc : ℕ)
      → Total bound (suc n) (parse_composite c expression fuel mode captured loc)
  unfolding parse_composite is_any kind_is error report_here
  parse_composite-Ends mode captured loc k s h b =
      let less : (t : TokenKind)
          → passes (t ∷ []) ≡ true
          → at t s ≡ true
          → weight bound (advance s) < weight bound s =
        λ t. advance-fewer_at bound t s in
      Ends-when k _ s _ _
        (λ a.
          parse_group-Ends bound c behaves expression n total small fuel enough mode captured loc k
            s h b (less TokenKind.lparen refl a))
        (λ _.
          Ends-when k _ s _ _
            (λ a.
              parse_array_literal-Ends bound expression n total fuel enough k s h b
                (less TokenKind.lbracket refl a))
            (λ _.
              Ends-when k _ s _ _
                (λ a.
                  parse_map_literal-Ends bound expression n total fuel enough k s h b
                    (less TokenKind.lbrace refl a))
                (λ _.
                  Ends-when k _ s _ _
                    (λ _.
                      parse_template_string-Ends bound expression n total c.utf8 fuel enough k s h
                        b)
                    (λ _.
                      Ends-when k _ s _ _
                        (λ a.
                          parse_async-Ends bound c behaves expression n total small fuel enough k s
                            h b (less TokenKind.kw_async refl a))
                        (λ _.
                          Ends-when k _ s _ _
                            (λ a.
                              parse_input_expr-Ends bound c behaves expression n total small k s h b
                                (less TokenKind.kw_input refl a))
                            (λ _.
                              Ends-when k _ s _ _
                                (λ a.
                                  parse_new_expr-Ends bound c behaves expression n total small fuel
                                    enough k s h b (less TokenKind.kw_new refl a))
                                (λ _.
                                  Ends-when k _ s _ _
                                    (λ a.
                                      parse_asm_expr-Ends bound c behaves expression n total small
                                        fuel enough k s h b (less TokenKind.kw_asm refl a))
                                    (λ _.
                                      Ends-when k _ s _ _
                                        (λ a.
                                          parse_cast-Ends bound c behaves expression n total small
                                            cast_expr k s h b (less TokenKind.kw_cast refl a))
                                        (λ _.
                                          Ends-when k _ s _ _
                                            (λ a.
                                              parse_cast-Ends bound c behaves expression n total
                                                small bitcast_expr k s h b
                                                (less TokenKind.kw_bitcast refl a))
                                            (λ _.
                                              Ends-when k _ s _ _
                                                (λ a.
                                                  parse_sizeof-Ends bound c behaves expression n
                                                    total small k s h b
                                                    (less TokenKind.kw_sizeof refl a))
                                                (λ _. Ends-some k _ _ h)))))))))))

  weight-capture_modifier :
      (s : State) → weight bound (capture_modifier c expression fuel s).0 ≤ weight bound s
  unfolding capture_modifier
  weight-capture_modifier s =
      ground (arith, weight-advance bound s, weight-advance bound (advance s))

  pub parse_primary-Ends : Total bound (suc n) (parse_primary c expression fuel)
  unfolding parse_primary report_here
  parse_primary-Ends k s h b =
      let g = weight-capture_modifier s in
      Ends-when k _ _ _ _ (λ _. Ends-some k _ _ (omega arith))
        (λ _.
          let r = capture_modifier c expression fuel s in
          parse_token-Ends k r.0 _ (omega arith)
            (parse_composite-Ends r.1 r.2 (cur s).location k r.0 (omega arith) b))
