-- ===== src/Parser/Lists.antt =====
-- The lists of expressions: the arguments of a call, `parseArrayLiteral`, `parseMapLiteral`,
-- `parseTemplateString` in lib/frontend/parser/Parser.cpp.
use moksha.Base.{
  ℕ, zero, suc, ◌-◌, ◌==◌, true, false, ◌&&◌, none, some, [], ◌∷◌, Bytes, codes, ltb, leb,
  if◌then◌else◌, take, length, get_or,
}
use moksha.Lexer.Kinds.{TokenKind}
use moksha.Parser.Ast.{
  Expr, Exprs, Entries, is_null, array_literal, map_literal, string_literal, unary_expr,
  template_string_expr, no_exprs, expr, no_entries, entry,
}
use moksha.Parser.State.{State, cur, advance, at, at_any, consume_if, expect, error}
use moksha.Parser.Steps.{Result, chain, when}
use moksha.Parser.Literals.{inner}
use moksha.Parser.Unescape.{ToUtf8, unescape_string}

module _ (expression : State → Result Expr) where
  -- `do { args.push_back(parseExpression()); } while (consumeIf(TokenKind::Comma));`
  unfoldable pub arguments_loop : ℕ → State → Result Exprs
  unfolding consume_if
  arguments_loop zero s = none
  arguments_loop (suc fuel) s = chain (expression s) (λ e t.
      let (u, more) = consume_if TokenKind.comma t in
      when more u (λ v. chain (arguments_loop fuel v) (λ es w. some (expr e es, w)))
        (λ v. some (expr e no_exprs, v)))

  -- The arguments of a call, behind the left parenthesis.
  unfoldable pub arguments : ℕ → State → Result Exprs
  unfolding arguments_loop at expect
  arguments fuel s =
      chain (when (at TokenKind.rparen s) s (λ t. some (no_exprs, t)) (λ t. arguments_loop fuel t))
        (λ es t. some (es, (expect TokenKind.rparen t).0))

  -- An element of an array: an expression, or one that is spread.
  unfoldable pub element : State → Result Expr
  unfolding at advance
  element s =
      when (at TokenKind.dot_dot_dot s) s
        (λ t.
          chain (expression (advance t))
            (λ e u. some (unary_expr TokenKind.dot_dot_dot e false, u)))
        expression

  unfoldable pub elements_loop : ℕ → State → Result Exprs
  unfolding consume_if element at_any
  elements_loop zero s = none
  elements_loop (suc fuel) s =
      when (at_any (TokenKind.rbracket ∷ TokenKind.eof ∷ []) s) s (λ t. some (no_exprs, t))
        (λ t. chain (element t) (λ e u.
          let (v, more) = consume_if TokenKind.comma u in
          when more v (λ w. chain (elements_loop fuel w) (λ es x. some (expr e es, x)))
            (λ w. some (expr e no_exprs, w))))

  -- `parseArrayLiteral()`
  unfoldable pub parse_array_literal : ℕ → State → Result Expr
  unfolding elements_loop advance expect
  parse_array_literal fuel s =
      chain (elements_loop fuel (advance s))
        (λ es t. some (array_literal es, (expect TokenKind.rbracket t).0))

  unfoldable pub entries_loop : ℕ → State → Result Entries
  unfolding consume_if expect
  entries_loop zero s = none
  entries_loop (suc fuel) s = chain (expression s) (λ key t.
      chain (expression (expect TokenKind.colon t).0) (λ val u.
        let (v, more) = consume_if TokenKind.comma u in
        when more v (λ w. chain (entries_loop fuel w) (λ es x. some (entry key val es, x)))
          (λ w. some (entry key val no_entries, w))))

  -- `parseMapLiteral()`
  unfoldable pub parse_map_literal : ℕ → State → Result Expr
  unfolding entries_loop advance expect at
  parse_map_literal fuel s =
      chain
        (when (at TokenKind.rbrace (advance s)) (advance s) (λ t. some (no_entries, t))
          (entries_loop fuel))
        (λ es t. some (map_literal es, (expect TokenKind.rbrace t).0))

  -- `if (expr) parts.push_back(std::move(expr));`
  unfoldable pub with_part : Expr → Exprs → Exprs
  unfolding is_null
  with_part e es = if is_null e then es else expr e es

  -- `if (!val.empty() && val.back() == '`') val.pop_back();`
  abbrev without_backtick : Bytes → Bytes
  without_backtick cs =
      if ltb 0 (length cs) && get_or cs (length cs - 1) 0 == b'`'
      then take (length cs - 1) cs
      else cs

  module _ (utf8 : ToUtf8) where
    abbrev fragment : Bytes → Expr
    fragment text = string_literal (unescape_string utf8 text) true

    unfoldable pub template_loop : ℕ → State → Result Exprs
    unfolding at advance expect with_part error unescape_string
    template_loop zero s = none
    template_loop (suc fuel) s =
        when (at TokenKind.string_fragment s) s
          (λ t.
            chain (template_loop fuel (advance t))
              (λ es u. some (expr (fragment (cur t).spelling) es, u)))
          (λ t.
            when (at TokenKind.interpolation_start t) t
              (λ u. chain (expression (advance u)) (λ e v.
                let (w, closed) = expect TokenKind.interpolation_end v in
                when closed w (λ x. chain (template_loop fuel x) (λ es y. some (with_part e es, y)))
                  (λ x. some (with_part e no_exprs, x))))
              (λ u.
                when (at TokenKind.template_string u) u
                  (λ v.
                    some (expr (fragment (without_backtick (cur v).spelling)) no_exprs, advance v))
                  (λ v. some (no_exprs, error (codes "Malformed template string") v))))

    -- `parseTemplateString()`
    unfoldable pub parse_template_string : ℕ → State → Result Expr
    unfolding at advance template_loop unescape_string
    parse_template_string fuel s =
        let text = (cur s).spelling in
        when (at TokenKind.template_string s) s
          (λ t. some (fragment (if leb 2 (length text) then inner text else text), advance t))
          (λ t. chain (template_loop fuel t) (λ es u. some (template_string_expr es, u)))
