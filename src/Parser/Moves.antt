-- ===== src/Parser/Moves.antt =====
-- How many tokens the moves of the parser leave.
use moksha.Base.{
  ℕ, ◌+◌, ◌≤◌, ◌<◌, ◌≡◌, ◌&&◌, refl, sym, Bool, not, true, false, List, [], ◌∷◌, length, arith,
  Bool-cases, inl, inr,
}
use moksha.Lexer.Kinds.{TokenKind}
use moksha.Parser.Kinds.{is_any, kind_is}
use moksha.Parser.State.{
  Seen, State, Ending, finished, stuck, debt, weight, skip_comments, advance, at, at_any,
  consume_if, expect, expect_greater, error, report_here, retag,
}

pub length-skip_comments : (ts : List Seen) → length (skip_comments ts) ≤ length ts
unfolding skip_comments
length-skip_comments [] = omega arith
length-skip_comments (t ∷ ts) = ground (arith, length-skip_comments ts)

-- The kinds hold neither of the tokens that the lexer can return for ever.
abbrev pub passes : List TokenKind → Bool
passes ks = not (is_any ks TokenKind.eof) && not (is_any ks TokenKind.error)

any-fewer :
    (b : ℕ) (ks : List TokenKind) (e : Ending) (ts : List Seen) (s : State)
    → passes ks ≡ true
    → at_any ks (record s { left = ts; ending = e }) ≡ true
    → weight b (advance (record s { left = ts; ending = e })) < debt b e + length ts
unfolding advance at_any
any-fewer b ks finished [] s p h = ground (arith, p, h)
any-fewer b ks (stuck t) [] s p h = ground (arith, p, h)
any-fewer b ks e (t ∷ ts) s p h = omega (arith, length-skip_comments ts)

pub at-any : (k : TokenKind) (s : State) → at k s ≡ at_any (k ∷ []) s
unfolding at at_any is_any
at-any k s = ground arith

length-retag : (k : TokenKind) (ts : List Seen) → length (retag k ts) ≡ length ts
length-retag k [] = refl
length-retag k (t ∷ ts) = refl

before_end-list :
    (b : ℕ) (e : Ending) (ts : List Seen) (s : State)
    → debt b e + length ts ≤ b
    → at TokenKind.eof (record s { left = ts; ending = e }) ≡ false
    → weight b (advance (record s { left = ts; ending = e })) < debt b e + length ts
unfolding at kind_is advance
before_end-list b finished [] s l h = cc
before_end-list b (stuck t) [] s l h = absurd (omega arith)
before_end-list b e (t ∷ ts) s l h = omega (arith, length-skip_comments ts)

-- The moves of the parser do not go back.
module _ (b : ℕ) where
  pub weight-advance : (s : State) → weight b (advance s) ≤ weight b s
  unfolding advance
  weight-advance s =
      elim s.left
        as (λ ts. weight b (advance (record s { left = ts })) ≤ debt b s.ending + length ts) [
          | [] ↦ omega arith
          | t ∷ ts ↦ omega (arith, length-skip_comments ts)
        ]

  -- Where one of the kinds stands, a token is left.
  pub advance-fewer :
      (ks : List TokenKind) (s : State)
      → passes ks ≡ true
      → at_any ks s ≡ true
      → weight b (advance s) < weight b s
  advance-fewer ks s = any-fewer b ks s.ending s.left s

  pub advance-fewer_at :
      (k : TokenKind) (s : State)
      → passes (k ∷ []) ≡ true
      → at k s ≡ true
      → weight b (advance s) < weight b s
  advance-fewer_at k s e h = advance-fewer (k ∷ []) s e (rw (sym (at-any k s)) h)

  pub weight-consume_if : (k : TokenKind) (s : State) → weight b (consume_if k s).0 ≤ weight b s
  unfolding consume_if
  weight-consume_if k s = elim (Bool-cases (at k s)) [
    | inl e ↦ rw e (weight-advance s)
    | inr e ↦ rw e (omega arith)
  ]

  pub consume_if-fewer :
      (k : TokenKind) (s : State)
      → passes (k ∷ []) ≡ true
      → (consume_if k s).1 ≡ true
      → weight b (consume_if k s).0 < weight b s
  unfolding consume_if
  consume_if-fewer k s e h = ground (arith, advance-fewer_at k s e)

  pub weight-expect : (k : TokenKind) (s : State) → weight b (expect k s).0 ≤ weight b s
  unfolding expect error report_here
  weight-expect k s = elim (Bool-cases (at k s)) [
    | inl e ↦ rw e (weight-advance s)
    | inr e ↦ rw e (omega arith)
  ]

  pub weight-expect_greater : (s : State) → weight b (expect_greater s).0 ≤ weight b s
  unfolding expect_greater
  weight-expect_greater s = ground (
    arith,
    weight-advance s,
    weight-expect TokenKind.greater s,
    length-retag TokenKind.greater s.left,
    length-retag TokenKind.greater_equal s.left,
  )

  -- Before the end of the file a token is left, unless an error stands at the end.
  pub before_end-fewer :
      (s : State) → weight b s ≤ b → at TokenKind.eof s ≡ false → weight b (advance s) < weight b s
  before_end-fewer s = before_end-list b s.ending s.left s
