-- ===== src/Lexer/Operator/Longest.antt =====
-- The operator that is read is spelled as its kind says, and it is the longest one.
use moksha.Base.{
  ℕ, zero, suc, ◌+◌, ◌-◌, ◌≤◌, ◌≡◌, ◌≢◌, ◌==◌, inl, inr, refl, false, Option, none, some, List, [],
  ◌∷◌, ◌++◌, Bytes, length, arith, Bool-cases, get_or, drop, take, ap,
}
use moksha.Lexer.Kinds.{TokenKind, Token, token}
use moksha.Lexer.State.{Lexer, at_end, peek, advance}
use moksha.Lexer.Operator.{
  Munch, arithmetic_operator, comparison_operator, bitwise_operator, syntax_operator,
  grouping_operator, operator_kind, close_brace, munch_token, scan_operator,
}
use moksha.Lexer.Operator.Moves.{Looks, operator_kind-Looks}
use moksha.Lexer.Operator.Spelling.{spelling, Spells, operator_kind-Spells}

-- The bytes that an operator at the head of a text takes.
abbrev munch_length : Option Munch → ℕ
munch_length none = 1
munch_length (some (n, k)) = suc n

abbrev taken : Bytes → ℕ
taken [] = 0
taken (c ∷ cs) = munch_length (operator_kind c (get_or cs 0 0) (get_or cs 1 0))

longest : (k : TokenKind) (w : Bytes) → length (spelling k) ≤ taken (spelling k ++ w)
unfolding spelling operator_kind arithmetic_operator comparison_operator bitwise_operator
    syntax_operator grouping_operator
longest TokenKind.plus w = ground arith
longest _ w = ground arith

cur-close_brace : (s : Lexer) (start : ℕ) (st : List ℕ) → (close_brace s start st).0.cur ≡ s.cur
unfolding close_brace
cur-close_brace s start [] = refl
cur-close_brace s start (b ∷ st) = ground arith

cur-munch_token :
    (s : Lexer) (start : ℕ) (r : Option Munch)
    → (munch_token s start r).0.cur + 1 ≡ s.cur + munch_length r
cur-munch_token s start none = omega arith
cur-munch_token s start (some (n, k)) = omega arith

no_brace : (p q : ℕ) → (operator_kind b'{' p q ≡ none) × (operator_kind b'}' p q ≡ none)
unfolding operator_kind arithmetic_operator comparison_operator bitwise_operator syntax_operator
    grouping_operator
no_brace p q = (refl, refl)

cur-scan_operator :
    (s : Lexer) (c : ℕ) (cs : Bytes)
    → s.rest ≡ c ∷ cs
    → (scan_operator s).0.cur ≡ s.cur + taken (c ∷ cs)
unfolding scan_operator
cur-scan_operator s c cs e =
    let p = get_or cs 0 0 in
    let q = get_or cs 1 0 in
    rw e (elim (Bool-cases (c == b'{')) [
      | inl l ↦ rw l (ground (arith, no_brace p q))
      | inr l ↦ rw l (elim (Bool-cases (c == b'}')) [
        | inl r ↦ rw r (
            ground (arith, no_brace p q, cur-close_brace (advance s 1) s.cur s.interpolation_stack))
        | inr r ↦ rw r (
            omega (
              arith,
              cur-munch_token (record (advance s 1) { rest = cs }) s.cur (operator_kind c p q),
            ))
      ])
    ])

longest_at :
    (s : Lexer) (k : TokenKind) (w cs : Bytes)
    → at_end s ≡ false
    → s.rest ≡ cs
    → cs ≡ spelling k ++ w
    → s.cur + length (spelling k) ≤ (scan_operator s).0.cur
longest_at s k w [] h e f = ground arith
longest_at s k w (c ∷ cs) h e f = omega (arith, cur-scan_operator s c cs e, ap taken f, longest k w)

-- If the text at the cursor begins with the spelling of an operator, what is read there is at least
-- as long: the lexer takes the longest operator.
pub scan_operator_longest :
    (s : Lexer) (k : TokenKind) (w : Bytes)
    → at_end s ≡ false
    → s.rest ≡ spelling k ++ w
    → s.cur + length (spelling k) ≤ (scan_operator s).0.cur
scan_operator_longest s k w h e = longest_at s k w (spelling k ++ w) h e refl

-- The bytes that are taken behind the first one.
take_seen :
    (n : ℕ) (k : TokenKind) (cs : Bytes)
    → Looks (get_or cs 0 0) (get_or cs 1 0) (some (n, k))
    → cs ≡ take n (get_or cs 0 0 ∷ get_or cs 1 0 ∷ []) ++ drop n cs
take_seen zero k cs l = refl
take_seen (suc zero) k [] l = ground arith
take_seen (suc zero) k (x ∷ cs) l = refl
take_seen (suc (suc zero)) k [] l = ground arith
take_seen (suc (suc zero)) k (x ∷ []) l = ground arith
take_seen (suc (suc zero)) k (x ∷ y ∷ cs) l = refl
take_seen (suc (suc (suc n))) k cs l = ground arith

-- What the operator `r` of first byte `c` leaves of the text `cs` behind it.
munched :
    (s : Lexer) (start c : ℕ) (r : Option Munch)
    → Looks (peek s 0) (peek s 1) r
    → Spells c (peek s 0) (peek s 1) r
    → (munch_token s start r).1.kind ≢ TokenKind.error
    → c ∷ s.rest ≡ spelling (munch_token s start r).1.kind ++ (munch_token s start r).0.rest
munched s start c none l p h = absurd (h refl)
munched s start c (some (n, k)) l p h = rw p (ap (◌∷◌ c) (take_seen n k s.rest l))

closed :
    (s : Lexer) (start : ℕ) (st : List ℕ)
    → b'}' ∷ s.rest ≡ spelling (close_brace s start st).1.kind ++ (close_brace s start st).0.rest
unfolding close_brace spelling
closed s start [] = refl
closed s start (b ∷ st) = ground arith

opened : (cs : Bytes) → b'{' ∷ cs ≡ spelling TokenKind.lbrace ++ cs
unfolding spelling
opened cs = refl

abbrev IsSpelled : Bytes → Lexer × Token → Type 0
IsSpelled text (t, k) = k.kind ≢ TokenKind.error → text ≡ spelling k.kind ++ t.rest

IsSpelled-at :
    (s : Lexer) (c : ℕ) (cs : Bytes) → s.rest ≡ c ∷ cs → IsSpelled (c ∷ cs) (scan_operator s)
unfolding scan_operator
IsSpelled-at s c cs e =
    let t : Lexer = record s { cur = s.cur + 1; rest = cs } in
    let r = operator_kind c (peek t 0) (peek t 1) in
    rw e (elim (Bool-cases (c == b'{')) [
      | inl l ↦ let f : c ≡ b'{' = ground arith in rw l (λ _. rw f (opened cs))
      | inr l ↦ rw l (elim (Bool-cases (c == b'}')) [
        | inl r ↦
            let f : c ≡ b'}' = ground arith in
            rw r (λ _. rw f (closed t s.cur s.interpolation_stack))
        | inr r ↦ rw r (
            munched t s.cur c _ (operator_kind-Looks c (peek t 0) (peek t 1))
              (operator_kind-Spells c (peek t 0) (peek t 1)))
      ])
    ])

-- An operator that is read is spelled as its kind says: the bytes at the cursor are the spelling,
-- and then what the lexer has left.
pub scan_operator-spelling :
    (s : Lexer) (c : ℕ) (cs : Bytes)
    → s.rest ≡ c ∷ cs
    → (scan_operator s).1.kind ≢ TokenKind.error
    → c ∷ cs ≡ spelling (scan_operator s).1.kind ++ (scan_operator s).0.rest
scan_operator-spelling s c cs e = IsSpelled-at s c cs e

no_dollar : (p q : ℕ) → operator_kind b'$' p q ≡ none
unfolding operator_kind arithmetic_operator comparison_operator bitwise_operator syntax_operator
    grouping_operator
no_dollar p q = refl

-- A dollar sign is no operator.
pub scan_operator_dollar :
    (s : Lexer) (cs : Bytes)
    → s.rest ≡ b'$' ∷ cs
    → scan_operator s ≡ (advance s 1, token TokenKind.error s.cur (s.cur + 1 - s.cur))
unfolding scan_operator
scan_operator_dollar s cs e =
    let t = advance s 1 in
    let d : peek s 0 ≡ b'$' = ap (λ l. get_or l 0 0) e in
    rw (
      ap (λ c. c == b'{') d,
      ap (λ c. c == b'}') d,
      ap (λ c. operator_kind c (peek t 0) (peek t 1)) d,
      no_dollar,
    )
