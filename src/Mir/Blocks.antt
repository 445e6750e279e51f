-- ===== src/Mir/Blocks.antt =====
-- The edges between blocks: `addSuccessor`, `addPredecessor`, `removeSuccessor`,
-- `removePredecessor` and `addInstruction` in lib/middle/mir/MIRBlock.cpp, and `removeIncoming` of
-- `PhiInst`. The blocks of a function are its store: a block is found by its address.
use moksha.Base.{ℕ, ◌==◌, Option, none, some, List, [], ◌∷◌, ◌++◌, if◌then◌else◌}
use moksha.Mir.{Inst, br, cond_br, switch, invoke, throw, phi, Instruction, Block}
use moksha.Worklist.{contains}

-- `push_back` unless the block is there.
abbrev pub push_new : ℕ → List ℕ → List ℕ
push_new b bs = if contains b bs then bs else bs ++ (b ∷ [])

-- `erase(remove(...))`
unfoldable pub remove_all : ℕ → List ℕ → List ℕ
remove_all b [] = []
remove_all b (c ∷ cs) = let rest = remove_all b cs in if b == c then rest else c ∷ rest

abbrev pub add_successor : ℕ → Block → Block
add_successor s b = record b { successors = push_new s b.successors }

abbrev pub add_predecessor : ℕ → Block → Block
add_predecessor p b = record b { predecessors = push_new p b.predecessors }

abbrev pub remove_successor : ℕ → Block → Block
remove_successor s b = record b { successors = remove_all s b.successors }

abbrev pub remove_predecessor : ℕ → Block → Block
remove_predecessor p b = record b { predecessors = remove_all p b.predecessors }

-- A change of the block at an address.
unfoldable pub update : ℕ → (Block → Block) → List Block → List Block
update a f [] = []
update a f (b ∷ bs) = let rest = update a f bs in if a == b.id then f b ∷ rest else b ∷ rest

unfoldable pub find_block : ℕ → List Block → Option Block
find_block a [] = none
find_block a (b ∷ bs) = if a == b.id then some b else find_block a bs

abbrev pub blocks_of : List (ℕ × ℕ) → List ℕ
blocks_of [] = []
blocks_of ((v, b) ∷ cases) = b ∷ blocks_of cases

abbrev pub block_of : Option ℕ → List ℕ
block_of none = []
block_of (some b) = b ∷ []

-- The blocks that a terminator leads to, in the order in which they are linked.
unfoldable pub targets : Inst → List ℕ
targets (br b) = b ∷ []
targets (cond_br c t f) = t ∷ f ∷ []
targets (switch c d cases) = d ∷ blocks_of cases
targets (invoke f args n u) = n ∷ block_of u
targets (throw v u) = block_of u
targets _ = []

-- `b->addSuccessor(t); t->addPredecessor(b);`
unfoldable pub link : ℕ → ℕ → List Block → List Block
link b t bs = update t (add_predecessor b) (update b (add_successor t) bs)

abbrev pub link_all : ℕ → List ℕ → List Block → List Block
link_all b [] bs = bs
link_all b (t ∷ ts) bs = link_all b ts (link b t bs)

abbrev pub push_instruction : Instruction → Block → Block
push_instruction i b = record b { instructions = b.instructions ++ (i ∷ []) }

-- `MIRBlock::addInstruction`
unfoldable pub add_instruction : ℕ → Instruction → List Block → List Block
add_instruction b i bs = update b (push_instruction i) (link_all b (targets i.inst) bs)

-- `PhiInst::removeIncoming`
unfoldable pub remove_incoming : ℕ → List (ℕ × ℕ) → List (ℕ × ℕ)
remove_incoming b [] = []
remove_incoming b ((v, c) ∷ ps) =
    let rest = remove_incoming b ps in if c == b then rest else (v, c) ∷ rest

-- A change of the phi instructions that a block begins with.
unfoldable pub with_phis : (List (ℕ × ℕ) → List (ℕ × ℕ)) → List Instruction → List Instruction
with_phis f [] = []
with_phis f (i ∷ is) = elim i.inst [
  | phi incoming ↦ record i { inst = phi (f incoming) } ∷ with_phis f is
  | _ ↦ i ∷ is
]

abbrev pub update_phis : (List (ℕ × ℕ) → List (ℕ × ℕ)) → Block → Block
update_phis f b = record b { instructions = with_phis f b.instructions }

abbrev pub addresses : List Block → List ℕ
addresses [] = []
addresses (b ∷ bs) = b.id ∷ addresses bs

-- `getSuccessors` and `getPredecessors` of the block at an address.
abbrev pub successors_of : List Block → ℕ → List ℕ
successors_of [] a = []
successors_of (b ∷ bs) a = if a == b.id then b.successors else successors_of bs a

abbrev pub predecessors_of : List Block → ℕ → List ℕ
predecessors_of [] a = []
predecessors_of (b ∷ bs) a = if a == b.id then b.predecessors else predecessors_of bs a
