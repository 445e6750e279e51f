-- ===== src/SimplifyCfg/Merge.antt =====
-- `SimplifyCFGPass::mergeBlocks`, and `replaceAllUsesInFunction`, in
-- lib/middle/mir/passes/SimplifyCFGPass.cpp.
use moksha.Base.{
  ℕ, zero, suc, ◌==◌, Bool, false, not, ◌&&◌, Option, none, some, List, [], ◌∷◌, length,
  if◌then◌else◌,
}
use moksha.Mir.{Inst, br, phi, Instruction, Block}
use moksha.Mir.Operands.{replace_operand}
use moksha.Mir.Blocks.{
  add_successor, add_predecessor, remove_successor, remove_predecessor, update, find_block,
  push_instruction, remove_incoming, update_phis,
}
use moksha.SimplifyCfg.{last_inst, pop_instruction, incoming_from, entry_of}

abbrev uses_replaced : ℕ → ℕ → List Instruction → List Instruction
uses_replaced old new [] = []
uses_replaced old new (i ∷ is) =
    record i { inst = replace_operand old new i.inst } ∷ uses_replaced old new is

-- `replaceAllUsesInFunction`
unfoldable pub replace_all_uses : ℕ → ℕ → List Block → List Block
replace_all_uses old new [] = []
replace_all_uses old new (b ∷ bs) =
    record b { instructions = uses_replaced old new b.instructions } ∷ replace_all_uses old new bs

-- The value that a phi instruction has from a block; `none` for other instructions.
abbrev phi_values : Inst → Option (List (ℕ × ℕ))
phi_values (phi ps) = some ps
phi_values _ = none

-- The instructions of the merged block, `n` of them, are moved behind those of block `a`; a phi
-- instruction is replaced by the value that it has from there.
unfoldable pub move_all : ℕ → ℕ → List Instruction → List Block → List Block
move_all zero a todo bs = bs
move_all (suc n) a [] bs = bs
move_all (suc n) a (i ∷ todo) bs = elim (phi_values i.inst) [
  | none ↦ move_all n a todo (update a (push_instruction i) bs)
  | some ps ↦ elim (incoming_from a ps) [
    | none ↦ move_all n a todo bs
    | some v ↦ move_all n a (uses_replaced i.id v todo) (replace_all_uses i.id v bs)
  ]
]

-- A phi instruction has the value from `b` from `a` instead.
abbrev renamed : ℕ → ℕ → List (ℕ × ℕ) → List (ℕ × ℕ)
renamed b a ps = elim (incoming_from b ps) [
  | none ↦ ps
  | some v ↦ append_pair (remove_incoming b ps) (v, a)
]
  where
    append_pair : List (ℕ × ℕ) → ℕ × ℕ → List (ℕ × ℕ)
    append_pair [] p = p ∷ []
    append_pair (q ∷ qs) p = q ∷ append_pair qs p

abbrev take_over : ℕ → ℕ → List ℕ → List Block → List Block
take_over a b [] bs = bs
take_over a b (s ∷ ss) bs =
    let linked = update s (remove_predecessor b) (update a (add_successor s) bs) in
    take_over a b ss (update s (update_phis (renamed b a)) (update s (add_predecessor a) linked))

unfoldable pub merge : ℕ → Block → List Block → List Block
merge a b bs =
    let popped = update a pop_instruction bs in
    let moved = move_all (length b.instructions) a b.instructions popped in
    let emptied = update b.id (λ block. record block { instructions = [] }) moved in
    let cut = update a (remove_successor b.id) emptied in
    let linked = take_over a b.id b.successors cut in
    update b.id (λ block. record block { predecessors = []; successors = [] }) linked

abbrev only_predecessor : ℕ → List ℕ → Bool
only_predecessor a (p ∷ []) = p == a
only_predecessor a _ = false

-- The block that is merged into the block `a`, if any.
abbrev merged_block : ℕ → ℕ → Option Block → Option Block
merged_block entry a none = none
merged_block entry a (some b) =
    if not (b.id == a) && not (b.id == entry) && only_predecessor a b.predecessors
    then some b
    else none

abbrev branch_target : Option Inst → Option ℕ
branch_target (some (br t)) = some t
branch_target _ = none

abbrev found_at : Option ℕ → List Block → Option Block
found_at none bs = none
found_at (some t) bs = find_block t bs

unfoldable pub merge_target : Block → List Block → Option Block
merge_target a bs =
    merged_block (entry_of bs) a.id (found_at (branch_target (last_inst a.instructions)) bs)

abbrev try_merge : Block → Option Block → List Block → Option (List Block) → Option (List Block)
try_merge a none bs rest = rest
try_merge a (some b) bs rest = some (merge a.id b bs)

abbrev merge_first : List Block → List Block → Option (List Block)
merge_first [] bs = none
merge_first (a ∷ todo) bs = try_merge a (merge_target a bs) bs (merge_first todo bs)

unfoldable pub merge_blocks : List Block → Option (List Block)
merge_blocks bs = merge_first bs bs
