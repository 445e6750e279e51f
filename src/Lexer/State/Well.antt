-- ===== src/Lexer/State/Well.antt =====
-- The states in which `Lexer::next` leaves the lexer.
use moksha.Base.{◌≤◌, ◌≡◌, Bool, true, false, ◌&&◌, some, Bytes, arith}
use moksha.Diagnostics.{DiagnosticEngine}
use moksha.Lexer.State.{Lexer, lexer, in_template_string, no_interpolation, pointer}
use moksha.Lexer.State.Moves.{Frame}

-- The lexer reads a template string, outside every interpolation.
abbrev pub resumes : Lexer → Bool
resumes s = in_template_string s && no_interpolation s

-- The fragment begins at the cursor or before it; in a template string outside every interpolation
-- it begins at the cursor.
pub record IsWell (s : Lexer) : Type 0 where
  pub behind : pointer s.fragment_start ≤ s.cur
  pub at_cursor : resumes s ≡ true → s.fragment_start ≡ some s.cur

pub IsWell-lexer : (buffer : Bytes) (e : DiagnosticEngine) → IsWell (lexer buffer e)
IsWell-lexer buffer e = record { behind = omega arith; at_cursor = λ h. cc }

-- Code moves the cursor and leaves the strings alone.
pub IsWell-Frame :
    {s : Lexer} (t : Lexer) → resumes s ≡ false → IsWell s → Frame s t → s.cur ≤ t.cur → IsWell t
IsWell-Frame {s} t code w f h = record {
  behind = rw f.fragment_eq (omega (arith, w.behind));
  at_cursor = λ r. ground arith;
}
