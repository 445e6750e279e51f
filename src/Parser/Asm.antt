-- ===== src/Parser/Asm.antt =====
-- `parseAsmExpr` in lib/frontend/parser/Parser.cpp.
use moksha.Base.{
  ℕ, zero, suc, true, false, Option, none, some, List, [], ◌∷◌, ◌++◌, Bytes, codes, leb, length,
  if◌then◌else◌,
}
use moksha.Lexer.Kinds.{TokenKind}
use moksha.Parser.Ast.{Expr, Asm, asm, Operands, no_operands, operand, asm_expr, Opaque}
use moksha.Parser.Kinds.{kind_is}
use moksha.Parser.Literals.{inner}
use moksha.Parser.State.{State, cur, advance, at, at_any, consume_if, expect, expect_greater, error}
use moksha.Parser.Steps.{Result, Callees, chain, when}

-- A string literal without its quotes; where there is none, `message` is reported.
unfoldable pub asm_string : Bytes → State → Bytes × State
unfolding at advance error
asm_string message s =
    let text = (cur s).spelling in
    if at TokenKind.string_literal s
    then (if leb 2 (length text) then inner text else text, advance s)
    else ([], error message s)

-- The messages where a string is missing.
abbrev pub no_text : Bytes
no_text = codes "Expected string literal for asm block"

abbrev pub no_register : Bytes
no_register = codes "Expected string literal for clobber register"

abbrev pub no_constraint : Bytes
no_constraint = codes "Expected string literal for asm constraint"

-- The directives behind the text.
abbrev pub directive_kinds : List TokenKind
directive_kinds =
    TokenKind.kw_out ∷ TokenKind.kw_in ∷ TokenKind.kw_inout ∷ TokenKind.kw_clobber
    ∷ TokenKind.kw_volatile ∷ []

abbrev no_asm : Asm
no_asm = asm no_operands no_operands no_operands [] false

-- What a directive adds in front of those behind it.
unfoldable pub as_volatile : Asm → Asm
as_volatile (asm outputs inputs inouts clobbers v) = asm outputs inputs inouts clobbers true

unfoldable pub with_clobbers : List Bytes → Asm → Asm
with_clobbers cs (asm outputs inputs inouts clobbers v) =
    asm outputs inputs inouts (cs ++ clobbers) v

unfoldable pub append_operands : Operands → Operands → Operands
append_operands no_operands os = os
append_operands (operand text e ps) os = operand text e (append_operands ps os)

unfoldable pub with_operands : TokenKind → Operands → Asm → Asm
unfolding kind_is append_operands
with_operands k os (asm outputs inputs inouts clobbers v) =
    if kind_is TokenKind.kw_out k
    then asm (append_operands os outputs) inputs inouts clobbers v
    else if kind_is TokenKind.kw_in k
    then asm outputs (append_operands os inputs) inouts clobbers v
    else asm outputs inputs (append_operands os inouts) clobbers v

-- The registers of `clobber(…)`, behind the parenthesis; those that are no string are left out.
unfoldable pub clobbers_loop : ℕ → State → Result (List Bytes)
unfolding at asm_string consume_if
clobbers_loop zero s = none
clobbers_loop (suc fuel) s =
    let (text, t) = asm_string no_register s in
    let (u, more) = consume_if TokenKind.comma t in
    chain (when more u (clobbers_loop fuel) (λ v. some ([], v)))
      (λ cs v. some (if at TokenKind.string_literal s then text ∷ cs else cs, v))

module _ (c : Callees) (expression : State → Result Expr) where
  -- The operands of `in(…)`, `out(…)` or `inout(…)`, behind the parenthesis.
  unfoldable pub operands_loop : ℕ → State → Result Operands
  unfolding asm_string consume_if expect
  operands_loop zero s = none
  operands_loop (suc fuel) s =
      let (text, t) = asm_string no_constraint s in
      chain (expression (expect TokenKind.lparen t).0) (λ e u.
        let (v, more) = consume_if TokenKind.comma (expect TokenKind.rparen u).0 in
        chain (when more v (operands_loop fuel) (λ w. some (no_operands, w)))
          (λ os w. some (operand text e os, w)))

  -- The loop over the directives.
  unfoldable pub directives_loop : ℕ → State → Result Asm
  unfolding at at_any advance expect clobbers_loop operands_loop as_volatile with_clobbers
      with_operands
  directives_loop zero s = none
  directives_loop (suc fuel) s =
      let t = (expect TokenKind.lparen (advance s)).0 in
      when (at_any directive_kinds s) s
        (λ _.
          when (at TokenKind.kw_volatile s) s
            (λ _. chain (directives_loop fuel (advance s)) (λ a v. some (as_volatile a, v)))
            (λ _.
              when (at TokenKind.kw_clobber s) t
                (λ _.
                  chain
                    (when (at TokenKind.rparen t) t (λ u. some ([], u)) (λ u. clobbers_loop fuel u))
                    (λ cs u.
                      chain (directives_loop fuel (expect TokenKind.rparen u).0)
                        (λ a v. some (with_clobbers cs a, v))))
                (λ _.
                  chain
                    (when (at TokenKind.rparen t) t (λ u. some (no_operands, u))
                      (λ u. operands_loop fuel u))
                    (λ os u.
                      chain (directives_loop fuel (expect TokenKind.rparen u).0)
                        (λ a v. some (with_operands (cur s).kind os a, v))))))
        (λ _. some (no_asm, s))

  -- The type between `<` and `>`.
  unfoldable pub asm_type : State → Result (Option Opaque)
  unfolding consume_if expect_greater
  asm_type s =
      let (t, typed) = consume_if TokenKind.less s in
      when typed t
        (λ u. chain (c.parse_type expression u) (λ type v. some (type, (expect_greater v).0)))
        (λ u. some (none, u))

  -- `parseAsmExpr()`
  unfoldable pub parse_asm_expr : ℕ → State → Result Expr
  unfolding advance asm_type expect asm_string directives_loop
  parse_asm_expr fuel s = chain (asm_type (advance s)) (λ type t.
      let (text, u) = asm_string no_text (expect TokenKind.lparen t).0 in
      chain (directives_loop fuel (expect TokenKind.rparen u).0)
        (λ a v. some (asm_expr type text a, v)))
