-- ===== src/Base/Loop.antt =====
-- Loops with several exits: `while (true)` around a body that goes on or leaves with a result.
use Prim.Native.Nat.{ℕ, zero, suc, ◌<◌}
use mathlib.Core.Path.{◌≡◌, refl}
use mathlib.Core.Option.{Option, none, some}
use native.Mathlib.Omega.{arith}

-- What one round does.
pub data Step (X R : Type 0) : Type 0 where
  again : X → Step X R
  leave : R → Step X R

module _ {X R : Type 0} where
  -- At most `fuel` rounds; `none` if they are not enough.
  unfoldable pub loop : (X → Step X R) → ℕ → X → Option R
  loop step zero x = none
  loop step (suc fuel) x = elim (step x) [ again y ↦ loop step fuel y | leave r ↦ some r ]

-- The loop's result, and `d` where the fuel runs out.
abbrev pub result_or : {R : Type 0} → R → Option R → R
result_or d none = d
result_or d (some r) = r

module _ {X R : Type 0} (P : X → Type 0) (Q : R → Type 0) (measure : X → ℕ) where
  -- A round from `x` keeps the invariant and lessens the measure, or ends with a good result.
  abbrev pub Fine : X → Step X R → Type 0
  Fine x (again y) = P y × (measure y < measure x)
  Fine x (leave r) = Q r

  abbrev Ends : Option R → Type 0
  Ends o = (r : R) × (o ≡ some r) × Q r

  go_on :
      (step : X → Step X R) (fuel : ℕ) (x : X) (k : Step X R)
      → Fine x k
      → measure x < suc fuel
      → ((y : X) → P y → measure y < fuel → Ends (loop step fuel y))
      → Ends (elim k as (λ _. Option R) [ again y ↦ loop step fuel y | leave r ↦ some r ])
  go_on step fuel x (again y) (p, less) h ih = ih y p (omega arith)
  go_on step fuel x (leave r) q h ih = (r, refl, q)

  -- With more fuel than the measure the loop ends with a good result.
  pub loop_total :
      (step : X → Step X R)
      → ((x : X) → P x → Fine x (step x))
      → (fuel : ℕ) (x : X) → P x
      → measure x < fuel
      → (r : R) × (loop step fuel x ≡ some r) × Q r
  unfolding loop
  loop_total step fine zero x p h = absurd (omega arith)
  loop_total step fine (suc fuel) x p h =
      go_on step fuel x (step x) (fine x p) h (loop_total step fine fuel)

  pub loop_result :
      (step : X → Step X R)
      → ((x : X) → P x → Fine x (step x))
      → (fuel : ℕ) (x : X) (d : R) → P x
      → measure x < fuel
      → Q (result_or d (loop step fuel x))
  loop_result step fine fuel x d p h =
      let (r, runs, q) = loop_total step fine fuel x p h in rw runs q

module _ {X R : Type 0} (step : X → Step X R) (fuel : ℕ) (x : X) where
  pub loop_leave : (r : R) → step x ≡ leave r → loop step (suc fuel) x ≡ some r
  unfolding loop
  loop_leave r e = rw (e, loop)

  pub loop_again : (y : X) → step x ≡ again y → loop step (suc fuel) x ≡ loop step fuel y
  unfolding loop
  loop_again y e = rw (e, loop)
