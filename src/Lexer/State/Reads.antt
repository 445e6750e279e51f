-- ===== src/Lexer/State/Reads.antt =====
-- A function that returns a state and a result moves the cursor forward: one rule for each way to
-- build such a function.
use moksha.Base.{ℕ, ◌≡◌, refl, Bool, true, false, Bytes, if◌then◌else◌}
use moksha.Lexer.State.{Lexer, unexpected}
use moksha.Lexer.State.Moves.{Moves, Moves-refl, Moves-trans}

pub record Reads {A : Type 0} (s : Lexer) (r : Lexer × A) : Type 0 where
  pub moves : Moves s r.0

module _ {A : Type 0} {s : Lexer} where
  pub Reads-if :
      (b : Bool) (x y : Lexer × A)
      → (b ≡ true → Reads s x)
      → (b ≡ false → Reads s y)
      → Reads s (if b then x else y)
  Reads-if true x y p q = p refl
  Reads-if false x y p q = q refl

  pub Reads-pair : (t : Lexer) (a : A) → Moves s t → Reads s (t, a)
  Reads-pair t a m = record { moves = m }

  pub Reads-here : (a : A) → Reads s (s, a)
  Reads-here a = record { moves = Moves-refl s }

  pub Reads-trans : {t : Lexer} {r : Lexer × A} → Moves s t → Reads t r → Reads s r
  Reads-trans m r = record { moves = Moves-trans m r.moves }

-- A report leaves the cursor where it is.
pub Moves-unexpected :
    {s : Lexer} (t : Lexer) (loc : ℕ) (extra : Bytes) → Moves s t → Moves s (unexpected t loc extra)
Moves-unexpected t loc extra m = record { word = m.word; splits = m.splits; counts = m.counts }

pub ruleset reads_rules = (Reads-if, Reads-pair, Reads-here)
