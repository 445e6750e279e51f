-- ===== src/Dominance.antt =====
-- `MIRDominance` in lib/middle/analysis/MIRDominance.cpp: the reverse postorder of the blocks that the
-- immediate dominators are computed in, `computeRPO` with the call of `analyze`.
pub mod Visited
pub mod Order
pub mod Intersect
pub mod Rank
pub mod Nearest
use moksha.Base.{ℕ, zero, suc, ◌==◌, Bool, true, false, List, [], ◌∷◌, length, ◌++◌}
use moksha.Mir.{Block}
use moksha.Worklist.{contains}
use moksha.Mir.Blocks.{successors_of}
use moksha.DeadCode.Unreachable.{entry_seeds, all_successors}

-- `visited`, and `rpo` with its last member first: the order in which `analyze` reads it.
pub record Visit : Type 0 where
  pub visited : List ℕ
  pub order : List ℕ

-- The calls for the successors of a block.
abbrev pub visit_all : (ℕ → Visit → Visit) → List ℕ → Visit → Visit
visit_all f [] s = s
visit_all f (v ∷ vs) s = visit_all f vs (f v s)

abbrev pub enter : ℕ → Visit → Visit
enter v s = record s { visited = v ∷ s.visited }

abbrev pub finish : ℕ → Visit → Visit
finish v s = record s { order = v ∷ s.order }

-- `computeRPO`. With more fuel than there are blocks that were not visited it visits all of them.
unfoldable pub compute_rpo : (ℕ → List ℕ) → ℕ → ℕ → Visit → Visit
compute_rpo next_of zero v s = s
compute_rpo next_of (suc fuel) v s = elim (contains v s.visited) [
  | true ↦ s
  | false ↦ finish v (visit_all (compute_rpo next_of fuel) (next_of v) (enter v s))
]

abbrev pub visit_entries : (ℕ → List ℕ) → ℕ → List ℕ → Visit
visit_entries next_of fuel seeds =
    visit_all (compute_rpo next_of fuel) seeds (record { visited = []; order = [] })

-- The blocks in the order in which `analyze` goes over them.
unfoldable pub reverse_postorder : List Block → List ℕ
reverse_postorder bs =
    (visit_entries (successors_of bs) (suc (length (entry_seeds bs ++ all_successors bs)))
      (entry_seeds bs)).order
