-- ===== src/Lexer/Run/Ends.antt =====
-- The calls of `next` reach the end of the file, or an error.
use moksha.Base.{
  ℕ, zero, suc, ◌≤◌, ◌<◌, ◌≡◌, ◌≢◌, ◌⊎◌, inl, inr, refl, ap, sym, ◌∙◌, Bool, true, false, Bytes,
  length, arith, Bool-cases,
}
use moksha.Diagnostics.{DiagnosticEngine}
use moksha.Lexer.Kinds.{TokenKind}
use moksha.Lexer.State.{Utf8, Lexer, lexer}
use moksha.Lexer.State.Moves.{Moves-length}
use moksha.Lexer.State.Well.{IsWell, IsWell-lexer}
use moksha.Lexer.Next.{next}
use moksha.Lexer.Next.Loop.{next-IsNext}
use moksha.Lexer.Run.{calls, nth_token}

is_stop : TokenKind → Bool
is_stop TokenKind.eof = true
is_stop TokenKind.error = true
is_stop _ = false

abbrev Stops : TokenKind → Type 0
Stops k = (k ≡ TokenKind.eof) ⊎ (k ≡ TokenKind.error)

Stops-is_stop : (k : TokenKind) → is_stop k ≡ true → Stops k
unfolding is_stop
Stops-is_stop TokenKind.eof h = inl refl
Stops-is_stop TokenKind.error h = inr refl
Stops-is_stop _ h = cc

ne_stop : (k e : TokenKind) → is_stop k ≡ false → is_stop e ≡ true → k ≢ e
ne_stop k e h g p = cc (h, g, ap is_stop p)

calls-next : (u : Utf8) (n : ℕ) (s : Lexer) → calls u n (next u s).0 ≡ calls u (suc n) s
unfolding calls
calls-next u zero s = refl
calls-next u (suc n) s = ap (λ t. (next u t).0) (calls-next u n s)

-- In at most as many calls as bytes are left, one more returns the end of the file or an error.
abbrev EndsWithin : Utf8 → ℕ → Lexer → Type 0
EndsWithin u k s = (n : ℕ) × (n ≤ k) × Stops (nth_token u n s).kind

-- A call that does not stop leaves fewer bytes.
fewer :
    (u : Utf8) (s : Lexer)
    → IsWell s
    → is_stop (next u s).1.kind ≡ false
    → length (next u s).0.rest < length s.rest
fewer u s w more =
    let i = next-IsNext u s w in
    elim (i.ahead (ne_stop _ TokenKind.error more (unfold is_stop in refl))) [
      | inl a ↦ omega (arith, Moves-length i.moves)
      | inr e ↦ absurd (ne_stop _ TokenKind.eof more (unfold is_stop in refl) e.0)
    ]

later : (u : Utf8) (k : ℕ) (s : Lexer) → EndsWithin u k (next u s).0 → EndsWithin u (suc k) s
later u k s (n, h, stop) =
    let e : (nth_token u n (next u s).0).kind ≡ (nth_token u (suc n) s).kind =
      ap (λ t. (next u t).1.kind) (calls-next u n s) in
    (suc n, omega arith, elim stop [ inl a ↦ inl (sym e ∙ a) | inr b ↦ inr (sym e ∙ b) ])

ends_at : (u : Utf8) (k : ℕ) (s : Lexer) → IsWell s → length s.rest ≤ k → EndsWithin u k s
unfolding calls
ends_at u zero s w h = elim (Bool-cases (is_stop (next u s).1.kind)) [
  | inl stop ↦ (0, omega arith, Stops-is_stop _ stop)
  | inr more ↦ absurd (omega (arith, fewer u s w more))
]
ends_at u (suc k) s w h = elim (Bool-cases (is_stop (next u s).1.kind)) [
  | inl stop ↦ (0, omega arith, Stops-is_stop _ stop)
  | inr more ↦
      later u k s
        (ends_at u k (next u s).0 (next-IsNext u s w).well (omega (arith, fewer u s w more)))
]

-- From the start of a buffer, after at most as many calls as it has bytes, one more call returns
-- the end of the file or an error: the lexer never runs on without a token of these kinds.
pub lexer_ends :
    (u : Utf8) (buffer : Bytes) (e : DiagnosticEngine)
    → (n : ℕ) × (n ≤ length buffer)
      × (((nth_token u n (lexer buffer e)).kind ≡ TokenKind.eof)
          ⊎ ((nth_token u n (lexer buffer e)).kind ≡ TokenKind.error))
lexer_ends u buffer e =
    ends_at u (length buffer) (lexer buffer e) (IsWell-lexer buffer e) (omega arith)
