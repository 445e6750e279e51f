-- ===== src/Parser/RoundTrip/Heads.antt =====
-- The first tokens of a printed tree, and the token behind it.
use moksha.Base.{
  ℕ, ◌≤◌, ◌≡◌, refl, ◌∙◌, false, ◌&&◌, ◌⊎◌, inl, inr, List, ◌∷◌, ◌++◌, append_assoc, ltb,
  Bool-cases, arith,
}
use moksha.Lexer.Kinds.{TokenKind}
use moksha.Parser.Kinds.{kind_is, is_any}
use moksha.Parser.Groups.{is_typed_lambda}
use moksha.Parser.Lookahead.{names_parameter}
use moksha.Parser.State.{Seen, State, cur, at, at_any, skip_comments}
use moksha.Parser.Trees.{
  Tree, leaf, node, rank, left_rank, right_rank, tagged, print, IsWritten, written_node, push,
}

-- A token that begins a printed tree.
abbrev pub IsHead : Seen → Type 0
IsHead t = (t.kind ≡ TokenKind.identifier) ⊎ (t.kind ≡ TokenKind.lparen)

module _ (opening closing : Seen) where
  pub print-IsHead :
      (j : ℕ) (e : Tree) (rest : List Seen)
      → (t : Seen) × (ts : List Seen) × (print opening closing j e ++ rest ≡ t ∷ ts) × IsHead t
  unfolding print
  print-IsHead j (leaf t) rest = (_, _, refl, inl refl)
  print-IsHead j (node k t l r) rest = elim (Bool-cases (ltb (rank k) j)) [
    | inl p ↦ rw p (_, _, refl, inr refl)
    | inr p ↦
        let (u, us, e, h) =
          print-IsHead (left_rank k) l
            (tagged k t ∷ (print opening closing (right_rank k) r ++ rest)) in
        (u, us, rw p (append_assoc _ _ rest ∙ e), h)
  ]

  pub skip_comments-print :
      (j : ℕ) (e : Tree) (rest : List Seen)
      → skip_comments (print opening closing j e ++ rest) ≡ print opening closing j e ++ rest
  unfolding skip_comments kind_is
  skip_comments-print j e rest =
      let (t, ts, q, h) = print-IsHead j e rest in
      rw q (elim h [ inl i ↦ rw i refl | inr i ↦ rw i refl ])

  pub at_rparen-print :
      (j : ℕ) (e : Tree) (s : State)
      → at TokenKind.rparen (push (print opening closing j e) s) ≡ false
  unfolding at kind_is
  at_rparen-print j e s =
      let (t, ts, q, h) = print-IsHead j e s.left in
      rw q (elim h [ inl i ↦ rw i refl | inr i ↦ rw i refl ])

  -- What stands behind a name: an operator or an end, and not the arguments of a type.
  pub record Calm (s : State) : Type 0 where
    pub low : rank (cur s).kind ≤ 13
    pub named : kind_is TokenKind.less (cur s).kind && names_parameter (cur s).onward ≡ false

  pub is_typed_lambda-print :
      (j : ℕ) (e : Tree) (s : State)
      → IsWritten e
      → Calm s
      → is_typed_lambda (push (print opening closing j e) s) ≡ false
  unfolding print is_typed_lambda kind_is is_any at at_any rank
  is_typed_lambda-print j (leaf t) s w calm = ground (arith, calm.low, calm.named)
  is_typed_lambda-print j (node k t l r) s (written_node _ _ _ _ p wl wr) calm =
      elim (Bool-cases (ltb (rank k) j)) [
        | inl q ↦ rw q refl
        | inr q ↦
            rw
              (
                q,
                append_assoc (print opening closing (left_rank k) l)
                    (tagged k t ∷ print opening closing (right_rank k) r) s.left,
              )
              (is_typed_lambda-print (left_rank k) l
                (push (tagged k t ∷ print opening closing (right_rank k) r) s) wl
                (record { low = omega (arith, p.binds); named = ground (arith, p.no_arguments) }))
      ]
