-- ===== src/Worklist.antt =====
-- The marking loops of the passes: a set of what was found and a stack of what is still to be looked
-- at. Both marking loops of lib/middle/mir/passes/DeadCodeEliminationPass.cpp have this form.
pub mod Bounds
pub mod Exact
use moksha.Base.{
  ℕ, zero, suc, ◌*◌, ◌≡◌, Bool, true, false, List, [], ◌∷◌, length, ◌==◌, ◌||◌, Step, again, leave,
  loop, result_or, if◌then◌else◌,
}

-- Membership in a set, kept as a list.
abbrev pub contains : ℕ → List ℕ → Bool
contains v [] = false
contains v (x ∷ xs) = v == x || contains v xs

-- The set of what was found, and the stack, its top first.
pub record Marking : Type 0 where
  pub seen : List ℕ
  pub work : List ℕ

-- `if (set.insert(v).second) worklist.push_back(v)`
abbrev pub mark : ℕ → Marking → Marking
mark v m = if contains v m.seen then m else record { seen = v ∷ m.seen; work = v ∷ m.work }

unfoldable pub mark_all : List ℕ → Marking → Marking
mark_all [] m = m
mark_all (v ∷ vs) m = mark_all vs (mark v m)

module _ (next_of : ℕ → List ℕ) where
  abbrev pub round_on : List ℕ → List ℕ → Step Marking (List ℕ)
  round_on seen [] = leave seen
  round_on seen (v ∷ work) = again (mark_all (next_of v) (record { seen = seen; work = work }))

  -- A round of `while (!worklist.empty())`.
  abbrev pub round : Marking → Step Marking (List ℕ)
  round m = round_on m.seen m.work

  -- What the loop finds from the seeds. The fuel is enough where every value that it can meet is in
  -- `all`.
  unfoldable pub closure : List ℕ → List ℕ → List ℕ
  closure all seeds =
      result_or []
        (loop round (suc (2 * length all)) (mark_all seeds (record { seen = []; work = [] })))

-- What can be reached from the seeds.
pub data Reaches (next_of : ℕ → List ℕ) (seeds : List ℕ) : ℕ → Type 0 where
  seed : {v : ℕ} → contains v seeds ≡ true → Reaches next_of seeds v
  further :
      {v w : ℕ} → Reaches next_of seeds v → contains w (next_of v) ≡ true → Reaches next_of seeds w
