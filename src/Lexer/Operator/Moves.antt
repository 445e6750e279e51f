-- ===== src/Lexer/Operator/Moves.antt =====
-- The cursor across an operator.
use moksha.Base.{
  ℕ, ◌≤◌, ◌<◌, ◌≡◌, ◌≢◌, ◌==◌, ◌⊎◌, inl, inr, refl, false, Option, none, some, List, [], ◌∷◌, arith,
  Bool-cases,
}
use moksha.Lexer.State.{Lexer, at_end, peek, advance, pointer}
use moksha.Lexer.State.Well.{IsWell, resumes}
use moksha.Lexer.State.Moves.{Moves, Moves-refl, Moves-trans, Moves-one, Moves-peek}
use moksha.Lexer.State.Scanned.{IsScanned, IsScanned-token}
use moksha.Lexer.Operator.{
  Munch, arithmetic_operator, comparison_operator, bitwise_operator, syntax_operator,
  grouping_operator, ◌or_else◌, operator_kind, close_brace, munch_token, scan_operator,
}

-- The bytes that an operator takes behind its first one are there.
abbrev pub Looks : ℕ → ℕ → Option Munch → Type 0
Looks p q none = Unit {0}
Looks p q (some (n, k)) = (n ≡ 0) ⊎ ((n ≡ 1) × (p ≢ 0)) ⊎ ((n ≡ 2) × (q ≢ 0))

Looks-or_else : (p q : ℕ) (m n : Option Munch) → Looks p q m → Looks p q n → Looks p q (m or_else n)
Looks-or_else p q none n x y = y
Looks-or_else p q (some r) n x y = x

arithmetic-Looks : (c p q : ℕ) → Looks p q (arithmetic_operator c p)
unfolding arithmetic_operator
arithmetic-Looks c p q = ground arith

comparison-Looks : (c p q : ℕ) → Looks p q (comparison_operator c p q)
unfolding comparison_operator
comparison-Looks c p q = ground arith

bitwise-Looks : (c p q : ℕ) → Looks p q (bitwise_operator c p)
unfolding bitwise_operator
bitwise-Looks c p q = ground arith

syntax-Looks : (c p q : ℕ) → Looks p q (syntax_operator c p q)
unfolding syntax_operator
syntax-Looks c p q = ground arith

grouping-Looks : (c p q : ℕ) → Looks p q (grouping_operator c)
unfolding grouping_operator
grouping-Looks c p q = ground arith

pub operator_kind-Looks : (c p q : ℕ) → Looks p q (operator_kind c p q)
unfolding operator_kind
operator_kind-Looks c p q = Looks-or_else p q _ _ (arithmetic-Looks c p q) (
    Looks-or_else p q _ _ (comparison-Looks c p q) (
      Looks-or_else p q _ _ (bitwise-Looks c p q)
        (Looks-or_else p q _ _ (syntax-Looks c p q) (grouping-Looks c p q))))

-- Behind the first byte of the operator that begins at `s`.
module _ {s : Lexer} (t : Lexer) (m : Moves s t) (a : s.cur < t.cur) (e : t.diags ≡ s.diags) where
  munch_token-IsScanned :
      (r : Option Munch) → Looks (peek t 0) (peek t 1) r → IsScanned s.cur s (munch_token t s.cur r)
  munch_token-IsScanned none l =
      IsScanned-token t s.cur m (omega arith) _ refl refl (omega arith) a (λ _. e)
  munch_token-IsScanned (some (n, k)) l =
      IsScanned-token (advance t n) s.cur
        (Moves-trans m (ground (arith, Moves-refl t, Moves-peek t 0, Moves-peek t 1))) (omega arith)
        _ refl refl (omega arith) (omega arith) (λ _. e)

  close_brace-IsScanned : (st : List ℕ) → IsScanned s.cur s (close_brace t s.cur st)
  unfolding close_brace
  close_brace-IsScanned [] =
      IsScanned-token t s.cur m (omega arith) _ refl refl (omega arith) a (λ _. e)
  close_brace-IsScanned (b ∷ st) = elim (Bool-cases (b == 0)) [
    | inl z ↦ rw z (
        IsScanned-token _ s.cur (record { word = m.word; splits = m.splits; counts = m.counts })
          (omega arith) _ refl refl (omega arith) a (λ _. e))
    | inr z ↦ rw z (
        IsScanned-token _ s.cur (record { word = m.word; splits = m.splits; counts = m.counts })
          (omega arith) _ refl refl (omega arith) a (λ _. e))
  ]

-- From a byte that is left, the operator takes it and nothing that is not there; nothing is reported.
pub scan_operator-IsScanned : (s : Lexer) → at_end s ≡ false → IsScanned s.cur s (scan_operator s)
unfolding scan_operator
scan_operator-IsScanned s h =
    let t = advance s 1 in
    let m = Moves-one s h in
    elim (Bool-cases (peek s 0 == b'{')) [
      | inl l ↦ rw l (
          IsScanned-token _ s.cur (record { word = m.word; splits = m.splits; counts = m.counts })
            (omega arith) _ refl refl (omega arith) (omega arith) (λ _. refl))
      | inr l ↦ rw l (elim (Bool-cases (peek s 0 == b'}')) [
        | inl r ↦ rw r (close_brace-IsScanned t m (omega arith) refl s.interpolation_stack)
        | inr r ↦ rw r (
            munch_token-IsScanned t m (omega arith) refl _
              (operator_kind-Looks (peek s 0) (peek t 0) (peek t 1)))
      ])
    ]

close_brace-IsWell :
    (s : Lexer) (start : ℕ) (st : List ℕ)
    → st ≡ s.interpolation_stack
    → pointer s.fragment_start ≤ s.cur
    → (resumes s ≡ false)
    → IsWell (close_brace s start st).0
unfolding close_brace
close_brace-IsWell s start [] e h code = record { behind = h; at_cursor = λ r. ground arith }
close_brace-IsWell s start (b ∷ st) e h code = elim (Bool-cases (b == 0)) [
  | inl z ↦ rw z (record { behind = omega arith; at_cursor = λ _. refl })
  | inr z ↦ rw z (record { behind = h; at_cursor = λ r. ground arith })
]

munch_token-IsWell :
    (s : Lexer) (start : ℕ) (r : Option Munch)
    → pointer s.fragment_start ≤ s.cur
    → (resumes s ≡ false)
    → IsWell (munch_token s start r).0
munch_token-IsWell s start none h code = record { behind = h; at_cursor = λ r. ground arith }
munch_token-IsWell s start (some (n, k)) h code = record {
  behind = omega (arith, h);
  at_cursor = λ r. ground arith;
}

-- Outside of strings an operator keeps the lexer in order, and a right brace may lead back to one.
pub scan_operator-IsWell : (s : Lexer) → resumes s ≡ false → IsWell s → IsWell (scan_operator s).0
unfolding scan_operator
scan_operator-IsWell s code w =
    let t = advance s 1 in
    elim (Bool-cases (peek s 0 == b'{')) [
      | inl l ↦ rw l (record { behind = omega (arith, w.behind); at_cursor = λ r. ground arith })
      | inr l ↦ rw l (elim (Bool-cases (peek s 0 == b'}')) [
        | inl r ↦
            rw r
              (close_brace-IsWell t s.cur s.interpolation_stack refl (omega (arith, w.behind)) code)
        | inr r ↦ rw r (munch_token-IsWell t s.cur _ (omega (arith, w.behind)) code)
      ])
    ]
