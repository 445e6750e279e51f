-- ===== src/Tests/Passes.antt =====
-- The passes on a small function, and the theorems on them at it.
use moksha.Base.{
  ℕ, ◌≡◌, ◌↔◌, refl, none, some, Bool, true, false, List, [], ◌∷◌, ltb, arith, codes, loop,
  bytes_eq,
}
use moksha.Mir.{br, cond_br, ret, binary, add, phi, store, Block, MirModule, scalar}
use moksha.Mir.Operands.{replace_operand}
use moksha.Mir.Blocks.{
  find_block, addresses, update, remove_all, targets, link, add_instruction, with_phis,
  remove_incoming,
}
use moksha.Worklist.{contains, closure, mark_all, Reaches}
use moksha.DeadCode.{
  has_side_effects, extract_operands, constant_operands, entries, operands_in, seeds, alive, sweep,
  global_seeds, instruction_seeds, is_system_root,
}
use moksha.DeadCode.Sweep.{alive-Reaches}
use moksha.DeadCode.Effects.{function_effects, effects-sweep, alive_operands}
use moksha.DeadCode.Unreachable.{reachable, remove_unreachable}
use moksha.DeadCode.Edges.{Mutual, remove_unreachable-Mutual}
use moksha.DeadCode.Pass.{AllLeft, eliminate_dead_code, eliminate_dead_code-AllLeft}
use moksha.DeadCode.Phis.{eliminate_phis}
use moksha.DeadCode.Closed.{Closed, eliminate_phis-Closed}
use moksha.SimplifyCfg.{entry_of, last_inst, fold_branch, fold_branches}
use moksha.SimplifyCfg.Dead.{any_dead, dead_round, remove_dead_blocks}
use moksha.SimplifyCfg.Live.{remove_dead_blocks_total}
use moksha.SimplifyCfg.Folding.{fold_branch_unlinked}

abbrev entry : Block
entry = record {
  id = 1;
  instructions = record { id = 10; inst = cond_br 90 2 2 } ∷ [];
  predecessors = [];
  successors = 2 ∷ [];
}

-- A sum that is stored, and one that nothing uses.
abbrev target : Block
target = record {
  id = 2;
  instructions =
      record { id = 11; inst = phi ((91, 1) ∷ []) }
      ∷ record { id = 12; inst = binary add 11 11 }
      ∷ record { id = 13; inst = binary add 11 92 }
      ∷ record { id = 14; inst = store 12 93 }
      ∷ record { id = 15; inst = ret none }
      ∷ [];
  predecessors = 1 ∷ 3 ∷ [];
  successors = [];
}

abbrev lonely : Block
lonely = record {
  id = 3;
  instructions = record { id = 16; inst = br 2 } ∷ [];
  predecessors = [];
  successors = 2 ∷ [];
}

abbrev blocks : List Block
blocks = entry ∷ target ∷ lonely ∷ []

abbrev small : MirModule
small = record {
  functions = record { name = codes "main"; blocks = blocks } ∷ [];
  globals = [];
  constants = (92, scalar) ∷ [];
}

swept_13 : contains 13 (alive small) ≡ false
unfolding alive closure mark_all seeds global_seeds instruction_seeds is_system_root
    has_side_effects entries extract_operands constant_operands loop bytes_eq
swept_13 = refl

kept_12 : contains 12 (alive small) ≡ true
unfolding alive closure mark_all seeds global_seeds instruction_seeds is_system_root
    has_side_effects entries extract_operands constant_operands loop bytes_eq
kept_12 = refl

operands_12 : operands_in (entries small) 12 ≡ extract_operands (binary add 11 11)
unfolding entries extract_operands
operands_12 = refl

alive-Reaches_example :
    (contains 12 (alive small) ≡ true) ↔ Reaches (operands_in (entries small)) (seeds small) 12
alive-Reaches_example = alive-Reaches small 12

effects-sweep_example : function_effects (sweep small).functions ≡ function_effects small.functions
effects-sweep_example = effects-sweep small

alive_operands_example : replace_operand 13 7 (binary add 11 11) ≡ binary add 11 11
alive_operands_example =
    alive_operands small 12 13 7 (binary add 11 11) operands_12 kept_12 swept_13

-- A folded branch without its edge: the block that it leads to is removed as dead.
dangling : addresses (remove_dead_blocks (fold_branches (λ a. 50) (entry ∷ target ∷ [])).0) ≡ 1 ∷ []
unfolding remove_dead_blocks dead_round loop fold_branches fold_branch add_instruction link targets
    update find_block remove_all with_phis remove_incoming
dangling = refl

found : find_block 1 blocks ≡ some entry
unfolding find_block
found = refl

fold_branch_unlinked_example :
    (c : Block) × (find_block 1 (fold_branch (λ a. 50) 1 2 blocks) ≡ some c)
    × (last_inst c.instructions ≡ some (br 2))
    × (contains 2 c.successors ≡ false)
fold_branch_unlinked_example = fold_branch_unlinked (λ a. 50) 1 2 blocks entry (ground arith) found

remove_dead_blocks_total_example :
    (rs : List Block) × (loop (dead_round 1) 4 blocks ≡ some rs)
    × (remove_dead_blocks blocks ≡ rs)
    × (entry_of rs ≡ 1)
    × (any_dead 1 rs rs ≡ false)
remove_dead_blocks_total_example = remove_dead_blocks_total blocks

lonely_removed : addresses (remove_unreachable blocks) ≡ 1 ∷ 2 ∷ []
unfolding remove_unreachable reachable closure mark_all loop update remove_all
lonely_removed = refl

blocks-Mutual : Mutual blocks
unfolding Mutual
blocks-Mutual a p h = ground arith

remove_unreachable-Mutual_example : Mutual (remove_unreachable blocks)
remove_unreachable-Mutual_example = remove_unreachable-Mutual blocks blocks-Mutual

abbrev is_small : ℕ → Bool
is_small v = ltb v 50

blocks-Closed : Closed is_small blocks
unfolding Closed extract_operands
blocks-Closed v h local = ground arith

eliminate_phis-Closed_example : Closed is_small (eliminate_phis (λ a. 99) blocks)
eliminate_phis-Closed_example =
    eliminate_phis-Closed is_small (λ a. 99) (λ a. refl) blocks blocks-Closed

eliminate_dead_code-AllLeft_example :
    AllLeft small.functions (eliminate_dead_code (λ a. 99) small).functions
eliminate_dead_code-AllLeft_example = eliminate_dead_code-AllLeft (λ a. 99) small
