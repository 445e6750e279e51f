-- ===== src/Parser/Primary.antt =====
-- `parsePrimary` in lib/frontend/parser/Parser.cpp.
use moksha.Base.{
  ℕ, Bool, true, false, not, ◌&&◌, ◌||◌, some, List, [], ◌∷◌, codes, bytes_eq, if◌then◌else◌,
}
use moksha.Diagnostics.Ids.{err_expected_token}
use moksha.Lexer.Kinds.{TokenKind}
use moksha.Parser.Ast.{
  Expr, CaptureMode, snapshot, move, view, mut, null_ptr, bool_literal, null_literal, cast_expr,
  bitcast_expr, identifier_expr, this_expr, super_expr,
}
use moksha.Parser.Lists.{parse_array_literal, parse_map_literal, parse_template_string}
use moksha.Parser.Literals.{
  parse_integer, parse_float, parse_decimal, parse_char, parse_string_literal,
}
use moksha.Parser.State.{State, cur, advance, at, at_any, error, report_here}
use moksha.Parser.Steps.{Result, Callees, when, fails}
use moksha.Parser.New.{parse_new_expr}
use moksha.Parser.Asm.{parse_asm_expr}
use moksha.Parser.Groups.{parse_group, parse_async, parse_cast, parse_sizeof, parse_input_expr}

module _ (c : Callees) (expression : State → Result Expr) (fuel : ℕ) where
  -- A token that is an expression.
  abbrev leaf : Expr → State → Result Expr
  leaf e s = some (e, advance s)

  -- The identifier, and the keywords of types that are read as one.
  abbrev name_kinds : List TokenKind
  name_kinds =
      TokenKind.identifier ∷ TokenKind.kw_int ∷ TokenKind.kw_float ∷ TokenKind.kw_double
      ∷ TokenKind.kw_bool ∷ TokenKind.kw_string ∷ TokenKind.kw_char ∷ TokenKind.kw_short
      ∷ TokenKind.kw_long ∷ TokenKind.kw_isize ∷ TokenKind.kw_usize ∷ TokenKind.kw_half
      ∷ TokenKind.kw_quarter ∷ TokenKind.kw_any ∷ TokenKind.kw_promise ∷ []

  abbrev template_kinds : List TokenKind
  template_kinds =
      TokenKind.template_string ∷ TokenKind.string_fragment ∷ TokenKind.interpolation_start ∷ []

  -- The cases of the switch that are one token.
  unfoldable pub parse_token : State → (State → Result Expr) → Result Expr
  unfolding at at_any advance parse_integer parse_float parse_decimal parse_char
      parse_string_literal
  parse_token s otherwise =
      when (at_any name_kinds s) s (λ t. leaf (identifier_expr (cur t).spelling) t)
        (λ _.
          when (at TokenKind.integer_literal s) s (λ t. some (parse_integer t))
            (λ _.
              when (at TokenKind.float_literal s) s (λ t. some (parse_float c.accepts_float t))
                (λ _.
                  when (at TokenKind.decimal_literal s) s (λ t. some (parse_decimal t))
                    (λ _.
                      when (at TokenKind.char_literal s) s (λ t. some (parse_char t))
                        (λ _.
                          when (at TokenKind.string_literal s) s
                            (λ t. some (parse_string_literal c.utf8 t))
                            (λ _. when (at TokenKind.kw_null s) s (leaf null_literal) (λ _.
                              when (at TokenKind.kw_true s) s (leaf (bool_literal true)) (λ _.
                                when (at TokenKind.kw_false s) s (leaf (bool_literal false)) (λ _.
                                  when (at TokenKind.kw_this s) s (leaf this_expr) (λ _.
                                    when (at TokenKind.kw_super s) s (leaf super_expr) (λ _.
                                      when (at TokenKind.error s) s (leaf null_ptr)
                                        otherwise)))))))))))

  -- The other cases of the switch.
  unfoldable pub parse_composite : CaptureMode → Bool → ℕ → State → Result Expr
  unfolding at at_any error parse_new_expr parse_asm_expr parse_group parse_async parse_cast
      parse_sizeof parse_input_expr parse_array_literal parse_map_literal parse_template_string
  parse_composite mode captured loc s =
      when (at TokenKind.lparen s) s (parse_group c expression fuel mode captured loc) (λ _.
        when (at TokenKind.lbracket s) s (parse_array_literal expression fuel) (λ _.
          when (at TokenKind.lbrace s) s (parse_map_literal expression fuel) (λ _.
            when (at_any template_kinds s) s (parse_template_string expression c.utf8 fuel) (λ _.
              when (at TokenKind.kw_async s) s (parse_async c expression fuel) (λ _.
                when (at TokenKind.kw_input s) s (parse_input_expr c expression) (λ _.
                  when (at TokenKind.kw_new s) s (parse_new_expr c expression fuel) (λ _.
                    when (at TokenKind.kw_asm s) s (parse_asm_expr c expression fuel) (λ _.
                      when (at TokenKind.kw_cast s) s (parse_cast c expression cast_expr) (λ _.
                        when (at TokenKind.kw_bitcast s) s (parse_cast c expression bitcast_expr)
                          (λ _.
                            when (at TokenKind.kw_sizeof s) s (parse_sizeof c expression)
                              (λ t. fails (error (codes "Expected expression") t))))))))))))

  -- `move`, the keyword or the word, `&mut` and `&` in front of a lambda.
  abbrev at_move : State → Bool
  at_move s =
      at TokenKind.kw_move s
      || (at TokenKind.identifier s && bytes_eq (cur s).spelling (codes "move"))

  unfoldable pub capture_modifier : State → State × CaptureMode × Bool
  unfolding at advance bytes_eq
  capture_modifier s =
      if at_move s
      then (advance s, move, true)
      else if at TokenKind.amp s
      then (if at TokenKind.kw_mut (advance s)
          then (advance (advance s), mut, true)
          else (advance s, view, true))
      else (s, snapshot, false)

  -- `parsePrimary()`
  unfoldable pub parse_primary : State → Result Expr
  unfolding at capture_modifier report_here parse_token parse_composite
  parse_primary s =
      let (t, mode, captured) = capture_modifier s in
      when (captured && not (at TokenKind.lparen t)) t
        (λ u. fails (
          report_here err_expected_token
            (codes "'(' for lambda parameter list after capture modifier") u))
        (λ u. parse_token u (parse_composite mode captured (cur s).location))
