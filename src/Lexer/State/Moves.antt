-- ===== src/Lexer/State/Moves.antt =====
-- How the cursor moves: forward, over bytes that are there.
use moksha.Base.{
  ℕ, zero, suc, ◌+◌, ◌≤◌, ◌<◌, ◌≡◌, ◌≢◌, refl, sym, ap, ◌∙◌, Bool, true, false, Option, List, [],
  ◌∷◌, ◌++◌, append_assoc, Bytes, length, get_or, take, length-append, take-append-drop,
  length-take, arith, Bool-cases, inl, inr,
}
use moksha.Lexer.State.{
  Utf8, LexerState, Lexer, at_end, peek, advance, span, skip_while, skip_whitespace, utf8_fits,
  advance_utf8,
}

-- From `s` to `t` the cursor passes the bytes of `word`.
pub record Moves (s t : Lexer) : Type 0 where
  pub word : Bytes
  pub splits : s.rest ≡ word ++ t.rest
  pub counts : t.cur ≡ s.cur + length word

pub Moves-refl : (s : Lexer) → Moves s s
Moves-refl s = record { word = []; splits = refl; counts = omega arith }

pub Moves-trans : {s t u : Lexer} → Moves s t → Moves t u → Moves s u
Moves-trans {s} {t} {u} p q = record {
  word = p.word ++ q.word;
  splits = p.splits ∙ ap (◌++◌ p.word) q.splits ∙ sym (append_assoc p.word q.word u.rest);
  counts = omega (arith, p.counts, q.counts, length-append p.word q.word);
}

pub Moves-advance : (s : Lexer) (n : ℕ) → n ≤ length s.rest → Moves s (advance s n)
Moves-advance s n h = record {
  word = take n s.rest;
  splits = sym (take-append-drop n s.rest);
  counts = omega (arith, length-take n s.rest h);
}

-- A byte other than NUL that `peek` sees is in the buffer.
pub peek-lt : (n : ℕ) (cs : Bytes) → get_or cs n 0 ≢ 0 → n < length cs
peek-lt n [] h = absurd (h refl)
peek-lt zero (c ∷ cs) h = omega arith
peek-lt (suc n) (c ∷ cs) h = omega (arith, peek-lt n cs h)

pub Moves-peek : (s : Lexer) (n : ℕ) → peek s n ≢ 0 → Moves s (advance s (suc n))
Moves-peek s n h = Moves-advance s (suc n) (peek-lt n s.rest h)

pub span-le : (p : ℕ → Bool) (cs : Bytes) → span p cs ≤ length cs
unfolding span
span-le p [] = omega arith
span-le p (c ∷ cs) = ground (arith, span-le p cs)

pub Moves-skip_while : (p : ℕ → Bool) (s : Lexer) → Moves s (skip_while p s)
Moves-skip_while p s = Moves-advance s (span p s.rest) (span-le p s.rest)

pub Moves-skip_whitespace : (s : Lexer) → Moves s (skip_whitespace s)
unfolding skip_whitespace
Moves-skip_whitespace s = Moves-skip_while _ s

pub Moves-advance_utf8 : (u : Utf8) (s : Lexer) → Moves s (advance_utf8 u s).0
unfolding advance_utf8
Moves-advance_utf8 u s = elim (Bool-cases (utf8_fits u s)) [
  | inl fits ↦ rw fits (Moves-advance s (u.num_bytes (peek s 0)) (ground arith))
  | inr not_fits ↦ rw not_fits (Moves-refl s)
]

-- The cursor never goes back.
pub Moves-le : {s t : Lexer} → Moves s t → s.cur ≤ t.cur
Moves-le m = omega (arith, m.counts)

-- The bytes left and the cursor add up to the same number.
pub Moves-length : {s t : Lexer} → Moves s t → t.cur + length t.rest ≡ s.cur + length s.rest
Moves-length {s} {t} m = omega (arith, m.counts, ap length m.splits, length-append m.word t.rest)

-- A legal sequence has a byte at least.
pub advance_utf8_ahead :
    (u : Utf8) (s : Lexer) → (advance_utf8 u s).1 ≡ true → s.cur < (advance_utf8 u s).0.cur
unfolding advance_utf8
advance_utf8_ahead u s h = ground arith

pub diags-advance_utf8 : (u : Utf8) (s : Lexer) → (advance_utf8 u s).0.diags ≡ s.diags
unfolding advance_utf8
diags-advance_utf8 u s = ground arith

-- Where a byte is left, the cursor can pass it.
pub Moves-one : (s : Lexer) → at_end s ≡ false → Moves s (advance s 1)
Moves-one s h = Moves-advance s 1 (ground arith)

-- What only strings and braces change: the state, the stack and the fragment.
pub record Same (a x : LexerState) (b y : List ℕ) (c z : Option ℕ) : Type 0 where
  pub state_eq : x ≡ a
  pub stack_eq : y ≡ b
  pub fragment_eq : z ≡ c

abbrev pub Frame : Lexer → Lexer → Type 0
Frame s t =
    Same s.state t.state s.interpolation_stack t.interpolation_stack s.fragment_start
      t.fragment_start

pub Same-refl : {a : LexerState} {b : List ℕ} {c : Option ℕ} → Same a a b b c c
Same-refl = record { state_eq = refl; stack_eq = refl; fragment_eq = refl }

pub Frame-trans :
    {a x u : LexerState} {b y v : List ℕ} {c z w : Option ℕ}
    → Same a x b y c z
    → Same x u y v z w
    → Same a u b v c w
Frame-trans p q = record {
  state_eq = cc (p.state_eq, q.state_eq);
  stack_eq = cc (p.stack_eq, q.stack_eq);
  fragment_eq = cc (p.fragment_eq, q.fragment_eq);
}

pub Frame-advance_utf8 : (u : Utf8) (s : Lexer) → Frame s (advance_utf8 u s).0
unfolding advance_utf8
Frame-advance_utf8 u s = ground arith
