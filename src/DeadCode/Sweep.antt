-- ===== src/DeadCode/Sweep.antt =====
-- What the mark phase marks, and what the sweep leaves.
use moksha.Base.{ℕ, ◌≡◌, ◌==◌, ◌↔◌, refl, true, [], ◌∷◌, ◌++◌, Bool-cases, inl, inr}
use moksha.Mir.{MirModule}
use moksha.Worklist.{contains, Reaches}
use moksha.Worklist.Bounds.{within, within-append-right, within-append-left, within_self}
use moksha.Worklist.Exact.{closure-IsExact}
use moksha.DeadCode.{Entries, entries, operands_in, seeds, mentioned, alive}

-- The operands of a value are among the mentioned ones.
operands_in-mentioned : (es : Entries) (v : ℕ) → within (operands_in es v) (mentioned es) ≡ true
operands_in-mentioned [] v = refl
operands_in-mentioned ((w, operands) ∷ es) v = elim (Bool-cases (v == w)) [
  | inl e ↦ rw e (within-append-left operands operands (mentioned es) (within_self operands))
  | inr e ↦
      rw e (
        within-append-right (operands_in es v) operands (mentioned es) (operands_in-mentioned es v))
]

-- What the mark phase marks is exactly what can be reached, over operands, from the instructions and
-- globals that it starts with.
pub alive-Reaches :
    (m : MirModule) (v : ℕ)
    → (contains v (alive m) ≡ true) ↔ Reaches (operands_in (entries m)) (seeds m) v
unfolding alive
alive-Reaches m v =
    closure-IsExact (operands_in (entries m)) (seeds m ++ mentioned (entries m)) (seeds m)
      (λ w h.
        within-append-right (operands_in (entries m) w) (seeds m) (mentioned (entries m))
          (operands_in-mentioned (entries m) w))
      (within-append-left (seeds m) (seeds m) (mentioned (entries m)) (within_self (seeds m))) v
