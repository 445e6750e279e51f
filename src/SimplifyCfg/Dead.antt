-- ===== src/SimplifyCfg/Dead.antt =====
-- `SimplifyCFGPass::removeDeadBlocks` in lib/middle/mir/passes/SimplifyCFGPass.cpp.
use moksha.Base.{
  ℕ, suc, ◌==◌, Bool, false, not, ◌&&◌, ◌||◌, List, [], ◌∷◌, length, Step, again, leave, loop,
  result_or, if◌then◌else◌,
}
use moksha.Mir.{Block}
use moksha.Mir.Blocks.{remove_predecessor, update, remove_incoming, update_phis}
use moksha.Worklist.{contains}
use moksha.SimplifyCfg.{entry_of}

-- `truePreds[a]` has a member: some block has `a` as a successor.
abbrev pub is_successor : ℕ → List Block → Bool
is_successor a [] = false
is_successor a (b ∷ bs) = contains a b.successors || is_successor a bs

abbrev pub is_dead : ℕ → List Block → Block → Bool
is_dead entry all b = not (b.id == entry) && not (is_successor b.id all)

-- The successors of a dead block lose it.
abbrev pub sever : ℕ → List ℕ → List Block → List Block
sever d [] bs = bs
sever d (s ∷ ss) bs =
    sever d ss (update s (update_phis (remove_incoming d)) (update s (remove_predecessor d) bs))

abbrev pub sever_dead : ℕ → List Block → List Block → List Block → List Block
sever_dead entry all [] bs = bs
sever_dead entry all (b ∷ todo) bs =
    sever_dead entry all todo (if is_dead entry all b then sever b.id b.successors bs else bs)

abbrev pub erase_dead : ℕ → List Block → List Block → List Block
erase_dead entry all [] = []
erase_dead entry all (b ∷ bs) =
    let rest = erase_dead entry all bs in if is_dead entry all b then rest else b ∷ rest

abbrev pub any_dead : ℕ → List Block → List Block → Bool
any_dead entry all [] = false
any_dead entry all (b ∷ bs) = is_dead entry all b || any_dead entry all bs

-- A round of `while (changed)`. The edges of the blocks that stay do not change in a round, so that
-- `truePreds` and the dead blocks are those of its start.
unfoldable pub dead_round : ℕ → List Block → Step (List Block) (List Block)
dead_round entry bs =
    if any_dead entry bs bs
    then again (erase_dead entry bs (sever_dead entry bs bs bs))
    else leave bs

-- With the number of blocks, and one more, as fuel the loop ends.
unfoldable pub remove_dead_blocks : List Block → List Block
remove_dead_blocks bs = result_or bs (loop (dead_round (entry_of bs)) (suc (length bs)) bs)
