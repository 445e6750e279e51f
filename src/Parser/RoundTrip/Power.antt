-- ===== src/Parser/RoundTrip/Power.antt =====
-- `**` on a printed tree: `parsePower` groups to the right.
use moksha.Base.{
  ℕ, zero, suc, ◌≤◌, ◌<◌, ◌≡◌, refl, ap, Bool, true, false, ◌&&◌, not, some, [], ◌∷◌, ◌++◌,
  append_assoc, length, length-append, arith, Bool-cases, inl, inr, ◌==◌, ==_iff,
}
use moksha.Lexer.Kinds.{TokenKind}
use moksha.Parser.Ast.{Expr}
use moksha.Parser.Infix.{parse_prefix, parse_power}
use moksha.Parser.Kinds.{kind_is, is_any, kind_value}
use moksha.Parser.Lookahead.{is_start_of_declaration}
use moksha.Parser.RoundTrip.Heads.{skip_comments-print}
use moksha.Parser.RoundTrip.Levels.{ReadsAt, print-suc}
use moksha.Parser.RoundTrip.Operand.{Reads, operand-prefix, is_null-expression_of}
use moksha.Parser.RoundTrip.Ranks.{power-OfRank}
use moksha.Parser.State.{Seen, State, cur, advance, at, at_any}
use moksha.Parser.Steps.{Result, Callees, chain, when, unless_null}
use moksha.Parser.Trees.{
  Tree, leaf, node, rank, left_rank, right_rank, tagged, print, expression_of, IsPlain, IsWritten,
  written_node, push,
}

-- The test of `parsePower`.
goes : State → Bool
goes s = at TokenKind.power s && not (is_start_of_declaration s)

goes-stops : (s : State) → rank (cur s).kind < 13 → goes s ≡ false
unfolding goes at is_any
goes-stops s h = let p = power-OfRank.only (cur s).kind h in ground (arith, p)

power-value : (k : TokenKind) → rank k ≡ 13 → kind_value k ≡ kind_value TokenKind.power
unfolding is_any kind_is
power-value k h = let p = power-OfRank.all k h in ground (arith, p)

value-kind : (k : TokenKind) → kind_value k ≡ kind_value TokenKind.power → k ≡ TokenKind.power
unfolding kind_value
value-kind TokenKind.power h = refl
value-kind _ h = absurd (omega (arith, h))

power-kind : (k : TokenKind) → rank k ≡ 13 → k ≡ TokenKind.power
power-kind k h = value-kind k (power-value k h)

goes-runs :
    (k : TokenKind) (t : Seen) (s : State)
    → rank k ≡ 13
    → IsPlain k t
    → goes (push (tagged k t ∷ []) s) ≡ true
unfolding goes at is_start_of_declaration at_any is_any kind_is
goes-runs k t s h p = rw (power-value k h, p.no_pointer)

print-power :
    (opening closing : Seen) (k : TokenKind) (t : Seen) (l r : Tree)
    → rank k ≡ 13
    → print opening closing 13 (node k t l r)
      ≡ print opening closing 14 l ++ tagged k t ∷ print opening closing 13 r
unfolding print left_rank right_rank
print-power opening closing k t l r h = rw h

module _ (c : Callees) (expression : State → Result Expr) (opening closing : Seen) (n : ℕ)
    (reads : Reads c expression n opening closing n) where
  prefix-ReadsAt : ReadsAt opening closing (suc n) 14 (parse_prefix c expression (suc n) (suc n))
  prefix-ReadsAt e s w h b =
      operand-prefix c expression n opening closing n reads e s w (omega arith) b

  -- A tree that is printed as an operand of `**`.
  power-operand :
      (i : ℕ) (e : Tree) (s : State)
      → IsWritten e
      → rank (cur s).kind < 13
      → length (print opening closing 13 e) < suc n
      → print opening closing 13 e ≡ print opening closing 14 e
      → parse_power c expression (suc n) (suc i) (push (print opening closing 13 e) s)
        ≡ some (expression_of e, s)
  unfolding parse_power chain when goes
  power-operand i e s w h b same =
      rw (same, prefix-ReadsAt e s w (omega arith) (omega (arith, ap length same)), goes-stops s h)

  power-node :
      (i : ℕ) (k : TokenKind) (t : Seen) (l r : Tree) (s : State)
      → rank k ≡ 13
      → IsPlain k t
      → IsWritten l
      → length (print opening closing 14 l) < suc n
      → parse_power c expression (suc n) i (push (print opening closing 13 r) s)
        ≡ some (expression_of r, s)
      → parse_power c expression
          (suc n)
          (suc i)
          (push (print opening closing 14 l) (push (tagged k t ∷ print opening closing 13 r) s))
        ≡ some (expression_of (node k t l r), s)
  unfolding parse_power chain when unless_null advance goes expression_of
  power-node i k t l r s e p w b right =
      rw
        (
          prefix-ReadsAt l (push (tagged k t ∷ print opening closing 13 r) s) w (omega arith) b,
          goes-runs k t (push (print opening closing 13 r) s) e p,
          is_null-expression_of l,
          skip_comments-print opening closing 13 r s.left,
          right,
          is_null-expression_of r,
        )
        (rw (power-kind k e))

  pub power-ReadsAt :
      (i : ℕ) (e : Tree) (s : State)
      → IsWritten e
      → rank (cur s).kind < 13
      → length (print opening closing 13 e) < i
      → i ≤ suc n
      → parse_power c expression (suc n) i (push (print opening closing 13 e) s)
        ≡ some (expression_of e, s)
  power-ReadsAt zero e s w h b f = absurd (omega arith)
  power-ReadsAt (suc i) (leaf t) s w h b f =
      power-operand i (leaf t) s w h (omega arith) (unfold print in refl)
  power-ReadsAt (suc i) (node k t l r) s (written_node _ _ _ _ p wl wr) h b f =
      elim (Bool-cases (rank k == 13)) [
        | inl e ↦
            let q : rank k ≡ 13 = (==_iff (rank k) 13).0 e in
            let shape = print-power opening closing k t l r q in
            let left = print opening closing 14 l in
            let right = print opening closing 13 r in
            let sizes = length-append left (tagged k t ∷ right) in
            let total = ap length shape in
            rw (shape, append_assoc left (tagged k t ∷ right) s.left)
              (power-node i k t l r s q p wl (omega arith)
                (power-ReadsAt i r s wr h (omega arith) (omega arith)))
        | inr e ↦
            power-operand i (node k t l r) s (written_node k t l r p wl wr) h (omega arith)
              (print-suc opening closing (suc n) 13 k t l r e)
      ]
