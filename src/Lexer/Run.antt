-- ===== src/Lexer/Run.antt =====
-- Any number of calls of `Lexer::next` (lib/frontend/lexer/Lexer.cpp), from the start of a buffer.
pub mod Ends
pub mod Stuck
use moksha.Base.{
  ℕ, zero, suc, ◌+◌, ◌-◌, ◌≤◌, ◌<◌, ◌≡◌, ◌≢◌, ◌^◌, ◌⊎◌, inl, inr, refl, ap, sym, ◌∙◌, Bool, true,
  false, List, [], ◌∷◌, ◌++◌, append_assoc, Bytes, length, length-append, arith, ◌&&◌, some, loop,
  result_or,
}
use mathlib.Core.List.{map}
use moksha.Diagnostics.{DiagnosticEngine}
use moksha.Lexer.Kinds.{TokenKind, Token, uint32}
use moksha.Lexer.State.{Utf8, Lexer, lexer, pointer, error_at, in_template_string, no_interpolation}
use moksha.Lexer.State.Moves.{Moves, Moves-length, Moves-le}
use moksha.Lexer.State.Well.{IsWell, IsWell-lexer}
use moksha.Lexer.Text.Scanned.{string_low}
use moksha.Lexer.Next.{next_step, next_body, next}
use moksha.Lexer.Next.Result.{IsNext}
use moksha.Lexer.Next.Loop.{next-IsNext, IsNext-loop_total}

-- The state after `n` calls.
unfoldable pub calls : Utf8 → ℕ → Lexer → Lexer
calls u zero s = s
calls u (suc n) s = (next u (calls u n s)).0

-- The token of the call behind the first `n`.
abbrev pub nth_token : Utf8 → ℕ → Lexer → Token
nth_token u n s = (next u (calls u n s)).1

-- The state is one of the buffer: the cursor stands between what was read and what is left.
pub record IsOf (buffer : Bytes) (s : Lexer) : Type 0 where
  pub before : Bytes
  pub splits : buffer ≡ before ++ s.rest
  pub counts : s.cur ≡ length before
  pub well : IsWell s

next-IsOf : (u : Utf8) {buffer : Bytes} (s : Lexer) → IsOf buffer s → IsOf buffer (next u s).0
next-IsOf u s i =
    let r = next-IsNext u s i.well in
    let m = r.moves in
    record {
      before = i.before ++ m.word;
      splits = i.splits ∙ ap (◌++◌ i.before) m.splits ∙ sym (append_assoc i.before m.word _);
      counts = omega (arith, i.counts, m.counts, length-append i.before m.word);
      well = r.well;
    }

calls-IsOf :
    (u : Utf8) {buffer : Bytes} (n : ℕ) (s : Lexer) → IsOf buffer s → IsOf buffer (calls u n s)
unfolding calls
calls-IsOf u zero s i = i
calls-IsOf u (suc n) s i = next-IsOf u (calls u n s) (calls-IsOf u n s i)

module _ (u : Utf8) (buffer : Bytes) (e : DiagnosticEngine) (n : ℕ) where
  abbrev run : Lexer
  run = calls u n (lexer buffer e)

  -- One more call.
  abbrev result : Lexer × Token
  result = next u run

  run-IsOf : IsOf buffer run
  run-IsOf =
      calls-IsOf u n (lexer buffer e)
        (record { before = []; splits = refl; counts = refl; well = IsWell-lexer buffer e })

  run-IsNext : IsNext (string_low run) run result
  run-IsNext = next-IsNext u run run-IsOf.well

  -- After any number of calls the buffer is what was read and then what is left, the cursor is the
  -- length of what was read, and the start of the fragment (the start of the buffer where there is
  -- none) is not behind the cursor.
  pub calls_split :
      (before : Bytes) × (buffer ≡ before ++ (calls u n (lexer buffer e)).rest)
      × ((calls u n (lexer buffer e)).cur ≡ length before)
      × (pointer (calls u n (lexer buffer e)).fragment_start ≤ (calls u n (lexer buffer e)).cur)
  calls_split = let i = run-IsOf in (i.before, i.splits, i.counts, i.well.behind)

  room : run.cur + length run.rest ≡ length buffer
  room =
      let i = run-IsOf in
      omega (arith, i.counts, ap length i.splits, length-append i.before run.rest)

  -- No token, error or not, begins behind the end of the buffer.
  pub location_le : (next u (calls u n (lexer buffer e))).1.location ≤ length buffer
  location_le = let i = run-IsNext in omega (arith, i.to, room, Moves-length i.moves)

  -- In a buffer of less than 2^32 bytes every token that is no error ends where the cursor stands
  -- behind it, and this is inside the buffer.
  pub token_bounds :
      length buffer < 2 ^ 32
      → (next u (calls u n (lexer buffer e))).1.kind ≢ TokenKind.error
      → ((next u (calls u n (lexer buffer e))).1.location
            + (next u (calls u n (lexer buffer e))).1.length
          ≡ (next u (calls u n (lexer buffer e))).0.cur)
        × ((next u (calls u n (lexer buffer e))).0.cur ≤ length buffer)
  token_bounds small k =
      let i = run-IsNext in
      let le : result.0.cur ≤ length buffer = omega (arith, room, Moves-length i.moves) in
      (omega (arith, i.ends k, i.to), le)

  -- After any number of calls: a call whose token is neither an error nor the end of the file moves
  -- the cursor on by a byte at least; the end of the file is returned only where nothing is left.
  pub token_progress :
      (next u (calls u n (lexer buffer e))).1.kind ≢ TokenKind.error
      → ((calls u n (lexer buffer e)).cur < (next u (calls u n (lexer buffer e))).0.cur)
        ⊎ (((next u (calls u n (lexer buffer e))).1.kind ≡ TokenKind.eof)
            × ((next u (calls u n (lexer buffer e))).0.rest ≡ []))
  token_progress k = run-IsNext.ahead k

  -- After any number of calls: a call whose token is neither an error nor a string fragment reports
  -- nothing.
  pub token_silent :
      (next u (calls u n (lexer buffer e))).1.kind ≢ TokenKind.error
      → (next u (calls u n (lexer buffer e))).1.kind ≢ TokenKind.string_fragment
      → (next u (calls u n (lexer buffer e))).0.diags ≡ (calls u n (lexer buffer e)).diags
  token_silent k f = run-IsNext.quiet k f

  -- After any number of calls, where the lexer is in no template string: the next token begins at
  -- the cursor or behind it, so it does not overlap with what was read before.
  pub token_order :
      in_template_string (calls u n (lexer buffer e)) ≡ false
      → (calls u n (lexer buffer e)).cur ≤ (next u (calls u n (lexer buffer e))).1.location
  token_order code = let i = run-IsNext.from in rw code at i

  -- After any number of calls, outside of template strings: the loop of `next` over white space and
  -- comments returns within as many rounds as bytes are left, and one more.
  pub next_loop_ends :
      in_template_string (calls u n (lexer buffer e))
          && no_interpolation (calls u n (lexer buffer e))
        ≡ false
      → loop
          (next_step u)
          (suc (length (calls u n (lexer buffer e)).rest))
          (calls u n (lexer buffer e))
        ≡ some (next_body u (calls u n (lexer buffer e)))
  next_loop_ends code =
      let (r, returns, i) =
        IsNext-loop_total u run run-IsOf.well code (suc (length run.rest)) (omega arith) in
      returns ∙ sym (ap some (ap (result_or (run, error_at run run.cur)) returns))
