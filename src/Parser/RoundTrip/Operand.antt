-- ===== src/Parser/RoundTrip/Operand.antt =====
-- The operands of a printed tree: a name, or a tree in parentheses.
use moksha.Base.{
  ℕ, suc, ◌≤◌, ◌<◌, ◌≡◌, refl, ap, ◌∙◌, true, false, some, List, [], ◌∷◌, ◌++◌, append_assoc,
  length, length-append, bytes_eq, codes, arith, ltb, Bool-cases, inl, inr,
}
use moksha.Lexer.Kinds.{TokenKind}
use moksha.Parser.Ast.{Expr, identifier_expr, is_null}
use moksha.Parser.Groups.{parse_group, close_group}
use moksha.Parser.Infix.{parse_prefix}
use moksha.Parser.Kinds.{kind_is, is_any, kind_value}
use moksha.Parser.Postfix.{postfix_loop, parse_postfix}
use moksha.Parser.Primary.{parse_primary, parse_token, parse_composite, capture_modifier}
use moksha.Parser.RoundTrip.Heads.{
  IsHead, print-IsHead, Calm, skip_comments-print, at_rparen-print, is_typed_lambda-print,
}
use moksha.Parser.State.{Seen, State, cur, skip_comments, advance, at, at_any, expect}
use moksha.Parser.Steps.{Result, Callees, chain, when, unless_null}
use moksha.Parser.Trees.{
  Tree, leaf, node, rank, tagged, print, expression_of, IsWritten, written_leaf, written_node, push,
}

pub is_null-expression_of : (e : Tree) → is_null (expression_of e) ≡ false
unfolding is_null expression_of
is_null-expression_of (leaf t) = refl
is_null-expression_of (node k t l r) = refl

-- The rank is a matter of the kind's value.
rank-value : (k e : TokenKind) → kind_value e ≡ kind_value k → rank e ≡ rank k
unfolding rank is_any kind_is
rank-value k e h = rw h refl

kind_is-value : (e k : TokenKind) → kind_is e k ≡ true → kind_value e ≡ kind_value k
unfolding kind_is
kind_is-value e k h = ground (arith, h)

-- A token that is in reach of the levels is of no kind that is out of reach.
pub low-not : (k e : TokenKind) → rank k ≤ 13 → ltb 13 (rank e) ≡ true → kind_is e k ≡ false
low-not k e h g = elim (Bool-cases (kind_is e k)) [
  | inl p ↦ absurd (ground (arith, g, h, rank-value k e (kind_is-value e k p)))
  | inr p ↦ p
]

skip_comments-list :
    (s : State) (ts : List Seen)
    → rank (cur (record s { left = ts })).kind ≤ 13
    → skip_comments ts ≡ ts
unfolding skip_comments rank is_any kind_is
skip_comments-list s [] h = refl
skip_comments-list s (t ∷ ts) h = rw (low-not t.kind TokenKind.comment h refl)

-- A token that is in reach of the levels is no comment.
pub skip_comments-low : (s : State) → rank (cur s).kind ≤ 13 → skip_comments s.left ≡ s.left
skip_comments-low s = skip_comments-list s s.left

module _ (c : Callees) (expression : State → Result Expr) (m : ℕ) where
  -- The loop behind an operand ends at such a token.
  pub postfix_loop-low :
      (k : ℕ) (e : Expr) (s : State)
      → is_null e ≡ false
      → rank (cur s).kind ≤ 13
      → postfix_loop expression (suc m) (suc k) e s ≡ some (e, s)
  unfolding postfix_loop unless_null when at at_any is_any rank kind_is
  postfix_loop-low k e s n h =
      let g = (cur s).kind in
      rw (
        n,
        low-not g TokenKind.lparen h refl,
        low-not g TokenKind.dot h refl,
        low-not g TokenKind.question_dot h refl,
        low-not g TokenKind.plus_plus h refl,
        low-not g TokenKind.minus_minus h refl,
        low-not g TokenKind.lbracket h refl,
        low-not g TokenKind.question h refl,
      )

  leaf-primary :
      (t : Seen) (s : State)
      → bytes_eq t.spelling (codes "move") ≡ false
      → rank (cur s).kind ≤ 13
      → parse_primary c expression (suc m) (push (tagged TokenKind.identifier t ∷ []) s)
        ≡ some (identifier_expr t.spelling, s)
  unfolding parse_primary parse_token capture_modifier advance when at at_any is_any kind_is
  leaf-primary t s m h = rw (m, skip_comments-low s h)

  module _ (opening closing : Seen) where
    abbrev closed : State → State
    closed s = push (tagged TokenKind.rparen closing ∷ []) s

    group-primary :
        (e : Tree) (s : State)
        → IsWritten e
        → rank (cur s).kind ≤ 13
        → expression (push (print opening closing 0 e) (closed s))
          ≡ some (expression_of e, closed s)
        → parse_primary c expression
            (suc m)
            (push (tagged TokenKind.lparen opening ∷ print opening closing 0 e) (closed s))
          ≡ some (expression_of e, s)
    unfolding parse_primary parse_token parse_composite parse_group close_group capture_modifier
        advance expect when chain at at_any is_any kind_is rank
    group-primary e s w h x =
        let calm : Calm opening closing (closed s) = record { low = omega arith; named = refl } in
        rw (
          skip_comments-print opening closing 0 e (closed s).left,
          at_rparen-print opening closing 0 e (closed s),
          is_typed_lambda-print opening closing 0 e (closed s) w calm,
          x,
          skip_comments-low s h,
        )

    print-group :
        (k : TokenKind) (t : Seen) (l r : Tree)
        → rank k < 14
        → print opening closing 14 (node k t l r)
          ≡ tagged TokenKind.lparen opening
            ∷ (print opening closing 0 (node k t l r) ++ tagged TokenKind.rparen closing ∷ [])
    unfolding print
    print-group k t l r h =
        let p : ltb (rank k) 14 ≡ true = ground arith in
        let q : ltb (rank k) 0 ≡ false = ground arith in rw (p, q)

    shorter :
        (k : TokenKind) (t : Seen) (l r : Tree) (n : ℕ)
        → rank k < 14
        → length (print opening closing 14 (node k t l r)) < suc n
        → length (print opening closing 0 (node k t l r)) < n
    shorter k t l r n h b = omega (
      arith,
      b,
      ap length (print-group k t l r h),
      length-append (print opening closing 0 (node k t l r)) (tagged TokenKind.rparen closing ∷ []),
    )

    -- The parser of expressions on the printed trees of fewer than `n` tokens.
    abbrev pub Reads : ℕ → Type 0
    Reads n =
        (e : Tree) (s : State)
        → IsWritten e
        → rank (cur s).kind ≡ 0
        → length (print opening closing 0 e) < n
        → expression (push (print opening closing 0 e) s) ≡ some (expression_of e, s)

    module _ (n : ℕ) (reads : Reads n) where
      -- What a function of the parser makes of a tree that is printed as an operand.
      abbrev pub ReadsOperand : (State → Result Expr) → Type 0
      ReadsOperand f =
          (e : Tree) (s : State)
          → IsWritten e
          → rank (cur s).kind ≤ 13
          → length (print opening closing 14 e) < suc n
          → f (push (print opening closing 14 e) s) ≡ some (expression_of e, s)

      operand-primary : ReadsOperand (parse_primary c expression (suc m))
      unfolding print expression_of
      operand-primary (leaf t) s (written_leaf _ m) h b = leaf-primary t s m h
      operand-primary (node k t l r) s (written_node _ _ _ _ p wl wr) h b =
          let e = node k t l r in
          let g = print-group k t l r p.binds in
          rw
            (
              g,
              append_assoc (print opening closing 0 e) (tagged TokenKind.rparen closing ∷ [])
                  s.left,
            )
            (group-primary e s (written_node k t l r p wl wr) h (
              reads e (closed s) (written_node k t l r p wl wr) (unfold rank is_any kind_is in refl)
                (shorter k t l r n p.binds b)))

      prefix-head :
          (k : ℕ) (t : Seen) (ts : List Seen) (s : State)
          → IsHead t
          → parse_prefix c expression (suc m) (suc k) (record s { left = t ∷ ts })
            ≡ parse_postfix c expression (suc m) (record s { left = t ∷ ts })
      unfolding parse_prefix when at at_any is_any kind_is
      prefix-head k t ts s h = elim h [ inl i ↦ rw i refl | inr i ↦ rw i refl ]

      operand-postfix : ReadsOperand (parse_postfix c expression (suc m))
      unfolding parse_postfix chain
      operand-postfix e s w h b =
          rw (operand-primary e s w h b)
            (postfix_loop-low m (expression_of e) s (is_null-expression_of e) h)

      pub operand-prefix : ReadsOperand (parse_prefix c expression (suc m) (suc m))
      operand-prefix e s w h b =
          let (t, ts, q, head) = print-IsHead opening closing 14 e s.left in
          let first : parse_prefix c expression (suc m) (suc m)
                (push (print opening closing 14 e) s)
              ≡ parse_postfix c expression (suc m) (push (print opening closing 14 e) s) =
            rw q (prefix-head m t ts s head) in
          first ∙ operand-postfix e s w h b
