-- ===== src/Lexer/State/Scanned.antt =====
-- What every scanning function promises of the state and the token that it returns.
use moksha.Base.{ℕ, ◌-◌, ◌≤◌, ◌<◌, ◌≡◌, ◌≢◌, refl, arith}
use moksha.Lexer.Kinds.{TokenKind, Token, uint32}
use moksha.Lexer.State.{Lexer, error_at}
use moksha.Lexer.State.Moves.{Moves}

-- A call from `s`, for a token that begins at `lo` or behind it.
pub record IsScanned (lo : ℕ) (s : Lexer) (r : Lexer × Token) : Type 0 where
  -- The cursor passes bytes of the buffer.
  pub moves : Moves s r.0
  -- The token begins in between, and it ends at the cursor, unless it is an error.
  pub from : lo ≤ r.1.location
  pub to : r.1.location ≤ r.0.cur
  pub ends : r.1.kind ≢ TokenKind.error → r.1.length ≡ uint32 (r.0.cur - r.1.location)
  -- But for an error, the cursor goes on by a byte at least.
  pub ahead : r.1.kind ≢ TokenKind.error → s.cur < r.0.cur
  -- But for an error and a string fragment, nothing is reported.
  pub quiet :
      r.1.kind ≢ TokenKind.error → r.1.kind ≢ TokenKind.string_fragment → r.0.diags ≡ s.diags

module _ {lo : ℕ} {s : Lexer} (t : Lexer) (start : ℕ) (m : Moves s t) (l : lo ≤ start) where
  -- A token from `start` to the cursor. Its suffix and its flags do not matter.
  pub IsScanned-token :
      (k : Token)
      → k.location ≡ start
      → k.length ≡ uint32 (t.cur - start)
      → start ≤ t.cur
      → s.cur < t.cur
      → (k.kind ≢ TokenKind.string_fragment → t.diags ≡ s.diags)
      → IsScanned lo s (t, k)
  IsScanned-token k p q h a e = record {
    moves = m;
    from = omega arith;
    to = omega arith;
    ends = λ _. rw p q;
    ahead = λ _. a;
    quiet = λ _. e;
  }

  pub IsScanned-error : start ≤ t.cur → IsScanned lo s (t, error_at t start)
  IsScanned-error h = record {
    moves = m;
    from = l;
    to = h;
    ends = λ e. absurd (e refl);
    ahead = λ e. absurd (e refl);
    quiet = λ e. absurd (e refl);
  }
