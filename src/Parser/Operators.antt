-- ===== src/Parser/Operators.antt =====
-- The operators of the levels, and the loop of a level that groups to the left, in
-- lib/frontend/parser/Parser.cpp.
use moksha.Base.{
  ℕ, zero, suc, Bool, true, false, not, ◌&&◌, ◌||◌, none, some, List, [], ◌∷◌, codes, bytes_eq,
}
use moksha.Lexer.Kinds.{TokenKind}
use moksha.Parser.Ast.{Expr, binary_expr, call_expr, member_expr, index_expr, identifier_expr, expr}
use moksha.Parser.Kinds.{kind_is}
use moksha.Parser.Lookahead.{has_newline_before, is_start_of_declaration}
use moksha.Parser.State.{State, cur, following, advance, at, at_any}
use moksha.Parser.Steps.{Result, chain, when, unless_null}

-- A level whose operators group to the left: `goes` tells whether the loop goes on.
module _ (goes : State → Bool) (sub : State → Result Expr) where
  unfoldable pub infix_loop : ℕ → Expr → State → Result Expr
  unfolding advance
  infix_loop zero l s = none
  infix_loop (suc fuel) l s =
      when (goes s) s
        (λ _. unless_null l s (λ t.
          chain (sub (advance t))
            (λ r u. unless_null r u (infix_loop fuel (binary_expr l (cur s).kind r)))))
        (λ t. some (l, t))

  unfoldable pub infix_level : ℕ → State → Result Expr
  unfolding infix_loop
  infix_level fuel s = chain (sub s) (infix_loop fuel)

-- The operators of the levels whose loops test the kind.
abbrev pub additive_kinds : List TokenKind
additive_kinds = TokenKind.plus ∷ TokenKind.minus ∷ []

abbrev pub shift_kinds : List TokenKind
shift_kinds = TokenKind.less_less ∷ TokenKind.greater_greater ∷ []

abbrev pub coalescing_kinds : List TokenKind
coalescing_kinds = TokenKind.question_question ∷ []

abbrev pub relational_kinds : List TokenKind
relational_kinds =
    TokenKind.less ∷ TokenKind.less_equal ∷ TokenKind.greater ∷ TokenKind.greater_equal ∷ []

abbrev pub equality_kinds : List TokenKind
equality_kinds = TokenKind.equal_equal ∷ TokenKind.not_equal ∷ []

abbrev pub and_kinds : List TokenKind
and_kinds = TokenKind.amp ∷ []

abbrev pub xor_kinds : List TokenKind
xor_kinds = TokenKind.caret ∷ []

abbrev pub or_kinds : List TokenKind
or_kinds = TokenKind.pipe ∷ []

abbrev pub logical_and_kinds : List TokenKind
logical_and_kinds = TokenKind.amp_amp ∷ []

abbrev pub logical_or_kinds : List TokenKind
logical_or_kinds = TokenKind.pipe_pipe ∷ []

-- The conditions of the loops.
unfoldable pub on_line : List TokenKind → State → Bool
unfolding at_any has_newline_before
on_line ks s = at_any ks s && not (has_newline_before (cur s))

-- A `*` that begins a declaration, or stands on a new line, ends the expression.
unfoldable pub at_factor : State → Bool
unfolding at at_any has_newline_before is_start_of_declaration
at_factor s =
    at_any (TokenKind.star ∷ TokenKind.slash ∷ TokenKind.percent ∷ []) s
    && not (at TokenKind.star s && (is_start_of_declaration s || has_newline_before (cur s)))

-- The prefix operators.
abbrev pub prefix_kinds : List TokenKind
prefix_kinds =
    TokenKind.bang ∷ TokenKind.minus ∷ TokenKind.tilde ∷ TokenKind.plus_plus ∷ TokenKind.minus_minus
    ∷ TokenKind.dot_dot_dot ∷ TokenKind.amp ∷ TokenKind.star ∷ TokenKind.kw_shared ∷ []

-- `&(`, `&mut`: the `&` of a lambda.
abbrev pub at_capture : State → Bool
at_capture s =
    let next = following s in
    at TokenKind.amp s
    && (kind_is TokenKind.lparen next.kind
        || kind_is TokenKind.kw_mut next.kind
        || (kind_is TokenKind.identifier next.kind && bytes_eq next.spelling (codes "mut")))

abbrev pub assignment_kinds : List TokenKind
assignment_kinds =
    TokenKind.equal ∷ TokenKind.plus_equal ∷ TokenKind.minus_equal ∷ TokenKind.star_equal
    ∷ TokenKind.slash_equal ∷ TokenKind.percent_equal ∷ TokenKind.amp_equal ∷ TokenKind.pipe_equal
    ∷ TokenKind.caret_equal ∷ TokenKind.less_less_equal ∷ TokenKind.greater_greater_equal ∷ []

-- The call that the right side of `|>` holds gets the left side as its first argument: `some` is the
-- right side with that call changed, below any members and indices.
unfoldable pub insert_first_arg : Expr → Expr → Expr × Bool
insert_first_arg l (member_expr object name optional) =
    let (e, found) = insert_first_arg l object in (member_expr e name optional, found)
insert_first_arg l (index_expr array index optional) =
    let (e, found) = insert_first_arg l array in (index_expr e index optional, found)
insert_first_arg l (call_expr callee args) = (call_expr callee (expr l args), true)
insert_first_arg l e = (e, false)

unfoldable pub is_identifier_expr : Expr → Bool
is_identifier_expr (identifier_expr name) = true
is_identifier_expr _ = false
