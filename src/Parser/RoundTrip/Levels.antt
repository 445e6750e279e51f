-- ===== src/Parser/RoundTrip/Levels.antt =====
-- One level of operators on a printed tree.
use moksha.Base.{
  ℕ, zero, suc, ◌+◌, ◌<◌, ◌≡◌, refl, ap, ◌∙◌, Bool, true, false, some, [], ◌∷◌, ◌++◌, append_assoc,
  length, length-append, arith, ltb, Bool-cases, inl, inr, ◌==◌, ==_iff,
}
use moksha.Lexer.Kinds.{TokenKind}
use moksha.Parser.Ast.{Expr}
use moksha.Parser.Operators.{infix_loop, infix_level}
use moksha.Parser.RoundTrip.Heads.{skip_comments-print}
use moksha.Parser.RoundTrip.Operand.{is_null-expression_of}
use moksha.Parser.State.{Seen, State, cur, advance}
use moksha.Parser.Steps.{Result, chain, when, unless_null}
use moksha.Parser.Trees.{
  Tree, leaf, node, rank, left_rank, right_rank, tagged, print, expression_of, IsPlain, IsWritten,
  written_node, push,
}

module _ (opening closing : Seen) (bound : ℕ) where
  -- What a function of the parser makes of a tree that is printed at the rank `j`, in front of a
  -- token that binds no tighter.
  abbrev pub ReadsAt : ℕ → (State → Result Expr) → Type 0
  ReadsAt j f =
      (e : Tree) (s : State)
      → IsWritten e
      → rank (cur s).kind < j
      → length (print opening closing j e) < bound
      → f (push (print opening closing j e) s) ≡ some (expression_of e, s)

  -- Where no operator of the tree has the rank `j`, it is printed as at the next rank.
  pub print-suc :
      (j : ℕ) (k : TokenKind) (t : Seen) (l r : Tree)
      → (rank k == j) ≡ false
      → print opening closing j (node k t l r) ≡ print opening closing (suc j) (node k t l r)
  unfolding print
  print-suc j k t l r h = let p : ltb (rank k) j ≡ ltb (rank k) (suc j) = ground arith in rw p

  print-here :
      (j : ℕ) (k : TokenKind) (t : Seen) (l r : Tree)
      → rank k ≡ j
      → j < 13
      → print opening closing j (node k t l r)
        ≡ print opening closing j l ++ tagged k t ∷ print opening closing (suc j) r
  unfolding print left_rank right_rank
  print-here j k t l r h low =
      let q : (rank k == 13) ≡ false = ground arith in
      let a : left_rank k ≡ j = rw (left_rank, q) h in
      let b : right_rank k ≡ suc j = rw (right_rank, q) (ap suc h) in
      let p : ltb (rank k) j ≡ false = ground arith in rw (p, a, b)

  module _ (goes : State → Bool) (sub : State → Result Expr) (j : ℕ)
      (stops : (s : State) → rank (cur s).kind < j → goes s ≡ false)
      (runs : (k : TokenKind) (t : Seen) (s : State)
        → rank k ≡ j
        → IsPlain k t
        → goes (push (tagged k t ∷ []) s) ≡ true)
      (reads : ReadsAt (suc j) sub) (low : j < 13) where
    -- A round of the loop at an operator of the level.
    infix_round :
        (i : ℕ) (k : TokenKind) (t : Seen) (l r : Tree) (s : State)
        → rank k ≡ j
        → IsPlain k t
        → IsWritten r
        → rank (cur s).kind < suc j
        → length (print opening closing (suc j) r) < bound
        → infix_loop goes sub
            (suc i)
            (expression_of l)
            (push (tagged k t ∷ print opening closing (suc j) r) s)
          ≡ infix_loop goes sub i (expression_of (node k t l r)) s
    unfolding infix_loop when unless_null chain advance expression_of
    infix_round i k t l r s e p w h b = rw (
      runs k t (push (print opening closing (suc j) r) s) e p,
      is_null-expression_of l,
      skip_comments-print opening closing (suc j) r s.left,
      reads r s w h b,
      is_null-expression_of r,
    )

    -- The loop at an operator of the level, where the loop behind the right operand has the
    -- result `x`.
    infix_rounds :
        (m : ℕ) (i : ℕ) (k : TokenKind) (t : Seen) (l r : Tree) (s : State) (x : Result Expr)
        → rank k ≡ j
        → IsPlain k t
        → IsWritten r
        → rank (cur s).kind < suc j
        → length (print opening closing (suc j) r) < bound
        → suc i < m
        → ((m : ℕ) → i < m → infix_loop goes sub m (expression_of (node k t l r)) s ≡ x)
        → infix_loop goes sub m
            (expression_of l)
            (push (tagged k t ∷ print opening closing (suc j) r) s)
          ≡ x
    infix_rounds zero i k t l r s x e p w h b f done = absurd (omega arith)
    infix_rounds (suc m) i k t l r s x e p w h b f done =
        infix_round m k t l r s e p w h b ∙ done m (omega arith)

    infix_end :
        (m : ℕ) (e : Expr) (s : State)
        → rank (cur s).kind < j
        → 0 < m
        → infix_loop goes sub m e s ≡ some (e, s)
    unfolding infix_loop when
    infix_end zero e s h f = absurd (omega arith)
    infix_end (suc m) e s h f = rw (stops s h)

    -- A tree that is printed as an operand of the level.
    level-operand :
        (e : Tree) (i : ℕ) (s : State) (x : Result Expr)
        → IsWritten e
        → rank (cur s).kind < suc j
        → i + length (print opening closing j e) < bound
        → print opening closing j e ≡ print opening closing (suc j) e
        → ((m : ℕ) → i < m → infix_loop goes sub m (expression_of e) s ≡ x)
        → infix_level goes sub bound (push (print opening closing j e) s) ≡ x
    unfolding infix_level chain
    level-operand e i s x w h b same done =
        rw (same, reads e s w h (omega (arith, ap length same))) (done bound (omega arith))

    -- The level on a tree, where the loop behind the tree has the result `x` with more than `i`
    -- rounds.
    level-tree :
        (e : Tree) (i : ℕ) (s : State) (x : Result Expr)
        → IsWritten e
        → rank (cur s).kind < suc j
        → i + length (print opening closing j e) < bound
        → ((m : ℕ) → i < m → infix_loop goes sub m (expression_of e) s ≡ x)
        → infix_level goes sub bound (push (print opening closing j e) s) ≡ x
    level-tree (leaf t) i s x w h b done =
        level-operand (leaf t) i s x w h b (unfold print in refl) done
    level-tree (node k t l r) i s x (written_node _ _ _ _ p wl wr) h b done =
        elim (Bool-cases (rank k == j)) [
          | inl e ↦
              let q : rank k ≡ j = (==_iff (rank k) j).0 e in
              let shape = print-here j k t l r q low in
              let right = print opening closing (suc j) r in
              let left = print opening closing j l in
              let sizes = length-append left (tagged k t ∷ right) in
              let total = ap length shape in
              rw (shape, append_assoc left (tagged k t ∷ right) s.left)
                (level-tree l (suc i) (push (tagged k t ∷ right) s) x wl (omega arith) (omega arith)
                  (λ m f. infix_rounds m i k t l r s x q p wr h (omega arith) f done))
          | inr e ↦
              level-operand (node k t l r) i s x (written_node k t l r p wl wr) h b
                (print-suc j k t l r e) done
        ]

    -- The level reads the trees that are printed at its rank.
    pub level-ReadsAt : ReadsAt j (infix_level goes sub bound)
    level-ReadsAt e s w h b =
        level-tree e 0 s (some (expression_of e, s)) w (omega arith) (omega arith)
          (λ m. infix_end m (expression_of e) s h)
