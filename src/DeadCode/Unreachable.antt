-- ===== src/DeadCode/Unreachable.antt =====
-- `DeadCodeEliminationPass::runOnModule` in lib/middle/mir/passes/DeadCodeEliminationPass.cpp, its
-- first step: the blocks of a function that its entry does not lead to are removed.
use moksha.Base.{ℕ, Bool, ◌&&◌, List, [], ◌∷◌, ◌++◌, if◌then◌else◌}
use moksha.Mir.{Inst, phi, Instruction, Block, Function}
use moksha.Mir.Blocks.{successors_of, remove_predecessor, update}
use moksha.Worklist.{contains, closure}

abbrev pub entry_seeds : List Block → List ℕ
entry_seeds [] = []
entry_seeds (b ∷ bs) = b.id ∷ []

abbrev pub all_successors : List Block → List ℕ
all_successors [] = []
all_successors (b ∷ bs) = b.successors ++ all_successors bs

-- The set `reachable`. Whatever its loop can meet is the entry, or a successor.
unfoldable pub reachable : List Block → List ℕ
reachable bs = closure (successors_of bs) (entry_seeds bs ++ all_successors bs) (entry_seeds bs)

-- `livePreds[b]` has block `c`.
abbrev is_live_pred : List ℕ → List Block → ℕ → ℕ → Bool
is_live_pred live bs b c = contains c live && contains b (successors_of bs c)

abbrev live_incoming : List ℕ → List Block → ℕ → List (ℕ × ℕ) → List (ℕ × ℕ)
live_incoming live bs b [] = []
live_incoming live bs b ((v, c) ∷ ps) =
    let rest = live_incoming live bs b ps in
    if is_live_pred live bs b c then (v, c) ∷ rest else rest

abbrev prune_inst : List ℕ → List Block → ℕ → Inst → Inst
prune_inst live bs b (phi incoming) = phi (live_incoming live bs b incoming)
prune_inst live bs b i = i

abbrev prune_instructions : List ℕ → List Block → ℕ → List Instruction → List Instruction
prune_instructions live bs b [] = []
prune_instructions live bs b (i ∷ is) =
    record i { inst = prune_inst live bs b i.inst } ∷ prune_instructions live bs b is

abbrev prune_block : List ℕ → List Block → Block → Block
prune_block live bs b =
    if contains b.id live
    then record b { instructions = prune_instructions live bs b.id b.instructions }
    else b

-- The phi instructions of the reachable blocks lose the values from blocks that are not.
abbrev pub prune_phis : List ℕ → List Block → List Block → List Block
prune_phis live all [] = []
prune_phis live all (b ∷ bs) = prune_block live all b ∷ prune_phis live all bs

-- The reachable successors of a block lose it.
abbrev pub detach : List ℕ → ℕ → List ℕ → List Block → List Block
detach live d [] bs = bs
detach live d (s ∷ ss) bs =
    detach live d ss (if contains s live then update s (remove_predecessor d) bs else bs)

abbrev pub detach_all : List ℕ → List Block → List Block → List Block
detach_all live [] bs = bs
detach_all live (b ∷ todo) bs =
    detach_all live todo (if contains b.id live then bs else detach live b.id b.successors bs)

abbrev pub keep_live : List ℕ → List Block → List Block
keep_live live [] = []
keep_live live (b ∷ bs) =
    let rest = keep_live live bs in if contains b.id live then b ∷ rest else rest

unfoldable pub remove_unreachable : List Block → List Block
remove_unreachable bs =
    keep_live (reachable bs) (detach_all (reachable bs) bs (prune_phis (reachable bs) bs bs))

abbrev pub remove_unreachable_all : List Function → List Function
remove_unreachable_all [] = []
remove_unreachable_all (f ∷ fs) =
    record f { blocks = remove_unreachable f.blocks } ∷ remove_unreachable_all fs
