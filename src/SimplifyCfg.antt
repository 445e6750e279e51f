-- ===== src/SimplifyCfg.antt =====
-- `SimplifyCFGPass` in lib/middle/mir/passes/SimplifyCFGPass.cpp: the healer of the edges, and the
-- four simplifications. A step that simplifies one block and returns gives the changed blocks, or
-- `none` where it finds nothing.
pub mod Bypass
pub mod Merge
pub mod Dead
pub mod Live
pub mod Folding
pub mod Links
pub mod Healed
use moksha.Base.{
  ℕ, zero, suc, ◌==◌, Bool, true, false, not, ◌&&◌, ◌||◌, Option, none, some, List, [], ◌∷◌, ◌++◌,
  length, Step, again, leave, loop, result_or, if◌then◌else◌,
}
use moksha.Mir.{Inst, br, cond_br, switch, invoke, throw, phi, Instruction, Block, Function}
use moksha.Mir.Operands.{replace_operand}
use moksha.Mir.Blocks.{
  addresses, add_successor, add_predecessor, remove_successor, remove_predecessor, update,
  find_block, targets, link_all, push_instruction, add_instruction, remove_incoming, with_phis,
  update_phis,
}
use moksha.Worklist.{contains}

abbrev pub last_inst : List Instruction → Option Inst
last_inst [] = none
last_inst (i ∷ []) = some i.inst
last_inst (i ∷ is) = last_inst is

-- `pop_back`
abbrev pub drop_last : List Instruction → List Instruction
drop_last [] = []
drop_last (i ∷ []) = []
drop_last (i ∷ is) = i ∷ drop_last is

abbrev pub pop_instruction : Block → Block
pop_instruction b = record b { instructions = drop_last b.instructions }

-- The address of the entry block.
abbrev pub entry_of : List Block → ℕ
entry_of [] = 0
entry_of (b ∷ bs) = b.id

-- The value that comes from a block, if any.
abbrev pub incoming_from : ℕ → List (ℕ × ℕ) → Option ℕ
incoming_from b [] = none
incoming_from b ((v, c) ∷ ps) = if c == b then some v else incoming_from b ps

abbrev pub add_incoming : Option ℕ → ℕ → List (ℕ × ℕ) → List (ℕ × ℕ)
add_incoming none b ps = ps
add_incoming (some v) b ps = ps ++ ((v, b) ∷ [])

-- 1. The healer: the edges are cleared, and linked again from the terminators.
abbrev pub cleared : List Block → List Block
cleared [] = []
cleared (b ∷ bs) = record b { predecessors = []; successors = [] } ∷ cleared bs

abbrev pub targets_of : Option Inst → List ℕ
targets_of none = []
targets_of (some i) = targets i

-- The blocks of `ps` that the block does not have as predecessors.
abbrev stale_blocks : List ℕ → List (ℕ × ℕ) → List ℕ
stale_blocks preds [] = []
stale_blocks preds ((v, c) ∷ ps) =
    let rest = stale_blocks preds ps in if contains c preds then rest else c ∷ rest

abbrev incoming_blocks : List (ℕ × ℕ) → List ℕ
incoming_blocks [] = []
incoming_blocks ((v, c) ∷ ps) = c ∷ incoming_blocks ps

abbrev missing_blocks : List ℕ → List ℕ → List ℕ
missing_blocks known [] = []
missing_blocks known (p ∷ ps) =
    let rest = missing_blocks known ps in if contains p known then rest else p ∷ rest

abbrev add_rescued : Option ℕ → List ℕ → List (ℕ × ℕ) → List (ℕ × ℕ)
add_rescued v [] ps = ps
add_rescued v (b ∷ bs) ps = add_rescued v bs (add_incoming v b ps)

-- One stale block, and blocks that are missing: its value is taken for them.
abbrev rescue : List ℕ → List ℕ → List (ℕ × ℕ) → List (ℕ × ℕ)
rescue (c ∷ []) (m ∷ ms) ps = add_rescued (incoming_from c ps) (m ∷ ms) (remove_incoming c ps)
rescue stale missing ps = ps

unfoldable pub heal_phi : List ℕ → List (ℕ × ℕ) → List (ℕ × ℕ)
heal_phi preds ps = rescue (stale_blocks preds ps) (missing_blocks (incoming_blocks ps) preds) ps

abbrev heal_phis_of : ℕ → Option Block → List Block → List Block
heal_phis_of b none bs = bs
heal_phis_of b (some block) bs = update b (update_phis (heal_phi block.predecessors)) bs

-- The phi instructions are healed with the edges that are linked so far.
abbrev pub heal_block : Block → List Block → List Block
heal_block b bs =
    let linked = link_all b.id (targets_of (last_inst b.instructions)) bs in
    heal_phis_of b.id (find_block b.id linked) linked

abbrev pub heal_all : List Block → List Block → List Block
heal_all [] bs = bs
heal_all (b ∷ todo) bs = heal_all todo (heal_block b bs)

unfoldable pub heal : List Block → List Block
heal bs = heal_all bs (cleared bs)

-- 2. Branch folding. A phi instruction loses the first value from the block.
abbrev pub erase_first : ℕ → List (ℕ × ℕ) → List (ℕ × ℕ)
erase_first b [] = []
erase_first b ((v, c) ∷ ps) = if c == b then ps else (v, c) ∷ erase_first b ps

-- The conditional branch at the end of block `a`, both of whose targets are `t`, becomes a branch.
unfoldable pub fold_branch : (ℕ → ℕ) → ℕ → ℕ → List Block → List Block
fold_branch fresh a t bs =
    let popped = update a pop_instruction bs in
    let pushed = add_instruction a (record { id = fresh a; inst = br t }) popped in
    let cut = update t (remove_predecessor a) (update a (remove_successor t) pushed) in
    update t (update_phis (erase_first a)) cut

abbrev same_target : Option Inst → Option ℕ
same_target (some (cond_br c t f)) = if t == f then some t else none
same_target _ = none

abbrev fold_at : (ℕ → ℕ) → ℕ → Option Block → List Block → List Block × Bool
fold_at fresh a none bs = (bs, false)
fold_at fresh a (some b) bs = elim (same_target (last_inst b.instructions)) [
  | none ↦ (bs, false)
  | some t ↦ (fold_branch fresh a t bs, true)
]

abbrev fold_all : (ℕ → ℕ) → List ℕ → List Block → List Block × Bool
fold_all fresh [] bs = (bs, false)
fold_all fresh (a ∷ todo) bs =
    let (cs, here) = fold_at fresh a (find_block a bs) bs in
    let (ds, later) = fold_all fresh todo cs in (ds, here || later)

-- `fresh` gives the address of the branch that is made for a block.
unfoldable pub fold_branches : (ℕ → ℕ) → List Block → List Block × Bool
fold_branches fresh bs = fold_all fresh (addresses bs) bs
