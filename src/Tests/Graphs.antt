-- ===== src/Tests/Graphs.antt =====
-- The orders of the blocks of a small graph, and the theorems on them at it.
use moksha.Base.{ℕ, ◌+◌, ◌<◌, ◌≡◌, ◌↔◌, refl, true, some, List, [], ◌∷◌, arith}
use moksha.Mir.{Block}
use moksha.Worklist.{contains, Reaches}
use moksha.Mir.Blocks.{successors_of}
use moksha.DeadCode.Unreachable.{entry_seeds}
use moksha.Dominance.{compute_rpo, reverse_postorder}
use moksha.Dominance.Visited.{distinct}
use moksha.Dominance.Order.{reverse_postorder-Reaches}
use moksha.Dominance.Intersect.{at, rpo_index, intersect}
use moksha.Dominance.Rank.{rank, all_fit, Above}
use moksha.Dominance.Nearest.{intersect-nearest}

abbrev leads : ℕ → List ℕ → Block
leads a ss = record { id = a; instructions = []; predecessors = []; successors = ss }

-- A diamond with a loop back to its top.
abbrev diamond : List Block
diamond =
    leads 1 (2 ∷ 3 ∷ [])
    ∷ leads 2 (4 ∷ [])
    ∷ leads 3 (4 ∷ [])
    ∷ leads 4 (1 ∷ [])
    ∷ leads 5 (4 ∷ [])
    ∷ []

diamond_order : reverse_postorder diamond ≡ 1 ∷ 3 ∷ 2 ∷ 4 ∷ []
unfolding reverse_postorder compute_rpo
diamond_order = refl

reverse_postorder-Reaches_example :
    ((a : ℕ)
      → (contains a (reverse_postorder diamond) ≡ true)
        ↔ Reaches (successors_of diamond) (entry_seeds diamond) a)
    × (distinct (reverse_postorder diamond) ≡ true)
reverse_postorder-Reaches_example = reverse_postorder-Reaches diamond

abbrev idoms : List (ℕ × ℕ)
idoms = (1, 1) ∷ (3, 1) ∷ (2, 1) ∷ (4, 2) ∷ []

abbrev order : List ℕ
order = 1 ∷ 3 ∷ 2 ∷ 4 ∷ []

idoms_fit : all_fit idoms order order ≡ true
unfolding all_fit at rank
idoms_fit = refl

few : rank order 4 + rank order 3 < 6
unfolding rank
few = omega arith

intersect-nearest_example :
    (r : ℕ) × (intersect idoms (rpo_index 0 order) 6 4 3 ≡ some r)
    × Above idoms r 4
    × Above idoms r 3
    × ((a : ℕ) → Above idoms a 4 → Above idoms a 3 → Above idoms a r)
intersect-nearest_example = intersect-nearest idoms order idoms_fit 6 4 3 refl refl few
