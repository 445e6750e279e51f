-- ===== src/Parser/Recovery.antt =====
-- The recovery of the parser from an error, `synchronize`, moves on.
use moksha.Base.{
  ℕ, zero, suc, ◌≤◌, ◌<◌, ◌≡◌, refl, ◌⊎◌, inl, inr, true, false, ◌||◌, some, List, [], ◌∷◌, length,
  arith, Bool-cases,
}
use moksha.Lexer.Kinds.{TokenKind}
use moksha.Parser.Kinds.{kind_is}
use moksha.Parser.Moves.{length-skip_comments}
use moksha.Parser.State.{
  Seen, State, finished, size, advance, at, at_any, stops, synchronize_loop, synchronize,
}

before_end-list :
    (s : State) (ts : List Seen)
    → s.ending ≡ finished
    → at TokenKind.eof (record s { left = ts }) ≡ false
    → size (advance (record s { left = ts })) < length ts
unfolding at kind_is advance
before_end-list s [] f h =
    let eof : at TokenKind.eof (record s { left = [] }) ≡ true = rw f refl in cc
before_end-list s (t ∷ ts) f h = omega (arith, length-skip_comments ts)

before_end-fewer :
    (s : State) → s.ending ≡ finished → at TokenKind.eof s ≡ false → size (advance s) < size s
before_end-fewer s = before_end-list s s.left

size-advance : (s : State) → size (advance s) ≤ size s
unfolding advance
size-advance s = elim s.left as (λ ts. size (advance (record s { left = ts })) ≤ length ts) [
  | [] ↦ omega arith
  | t ∷ ts ↦ omega (arith, length-skip_comments ts)
]

-- The loop returns, and does not go back.
synchronize_loop-size :
    (fuel : ℕ) (s : State)
    → s.ending ≡ finished
    → size s < fuel
    → (t : State) × (synchronize_loop fuel s ≡ some t) × (size t ≤ size s)
unfolding synchronize_loop
synchronize_loop-size zero s f h = absurd (omega arith)
synchronize_loop-size (suc fuel) s f h = elim (Bool-cases (at TokenKind.eof s || at_any stops s)) [
  | inl e ↦ (s, rw e refl, omega arith)
  | inr e ↦ elim (Bool-cases (at TokenKind.semicolon s)) [
    | inl p ↦ (advance s, rw (e, p) refl, size-advance s)
    | inr p ↦
        let less = before_end-fewer s f (ground (arith, e)) in
        let (t, runs, le) =
          synchronize_loop-size fuel (advance s) (unfold advance in f) (omega arith) in
        (t, rw (e, p) runs, omega arith)
  ]
]

-- Where the tokens end with the end of the file, recovery returns, with fuel beyond the number of the
-- tokens that are left; before the end of the file it passes at least one token, and at the end it
-- changes nothing.
pub synchronize_moves :
    (fuel : ℕ) (s : State)
    → s.ending ≡ finished
    → size s < fuel
    → (t : State) × (synchronize fuel s ≡ some t)
      × (((at TokenKind.eof s ≡ true) × (t ≡ s)) ⊎ (size t < size s))
unfolding synchronize
synchronize_moves fuel s f h = elim (Bool-cases (at TokenKind.eof s)) [
  | inl e ↦ (s, rw e refl, inl (e, refl))
  | inr e ↦
      let less = before_end-fewer s f e in
      elim (Bool-cases (at TokenKind.semicolon s)) [
        | inl p ↦ (advance s, rw (e, p) refl, inr less)
        | inr p ↦
            let (t, runs, le) =
              synchronize_loop-size fuel (advance s) (unfold advance in f) (omega arith) in
            (t, rw (e, p) runs, inr (omega arith))
      ]
]
