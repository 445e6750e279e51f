-- ===== src/DeadCode/Phis.antt =====
-- `DeadCodeEliminationPass::runOnModule` in lib/middle/mir/passes/DeadCodeEliminationPass.cpp, its
-- step 1.5: the phi instructions of a function that have one value, or none, are replaced by it.
use moksha.Base.{ℕ, ◌==◌, Bool, true, false, Option, none, some, List, [], ◌∷◌, if◌then◌else◌}
use moksha.Mir.{Inst, phi, Instruction, Block}
use moksha.Mir.Operands.{replace_operand}
use moksha.Mir.Blocks.{update, find_block, addresses}

-- `replaceAllUsesLocally`
abbrev pub replace_uses : ℕ → ℕ → List Instruction → List Instruction
replace_uses old new [] = []
replace_uses old new (i ∷ is) =
    record i { inst = replace_operand old new i.inst } ∷ replace_uses old new is

abbrev pub replace_locally : ℕ → ℕ → List Block → List Block
replace_locally old new [] = []
replace_locally old new (b ∷ bs) =
    record b { instructions = replace_uses old new b.instructions } ∷ replace_locally old new bs

abbrev pub erase_inst : ℕ → List Instruction → List Instruction
erase_inst a [] = []
erase_inst a (i ∷ is) = let rest = erase_inst a is in if a == i.id then is else i ∷ rest

abbrev pub erase_in : ℕ → Block → Block
erase_in a b = record b { instructions = erase_inst a b.instructions }

abbrev at_most_one : List ℕ → Bool
at_most_one [] = true
at_most_one (p ∷ []) = true
at_most_one _ = false

-- What the phi instruction at address `a` is replaced by, where it is: `undef` is the undefined value
-- of its type.
unfoldable pub phi_value : ℕ → ℕ → List ℕ → List (ℕ × ℕ) → Option ℕ
phi_value undef a preds [] = some undef
phi_value undef a preds ((v, b) ∷ []) =
    if at_most_one preds then some (if v == a then undef else v) else none
phi_value undef a preds _ = none

abbrev pub phi_inst : ℕ → ℕ → List ℕ → Inst → Option ℕ
phi_inst undef a preds (phi incoming) = phi_value undef a preds incoming
phi_inst undef a preds _ = none

abbrev pub value_at : ℕ → ℕ → List ℕ → List Instruction → Option ℕ
value_at undef a preds [] = none
value_at undef a preds (i ∷ is) =
    if a == i.id then phi_inst undef a preds i.inst else value_at undef a preds is

abbrev pub value_in : ℕ → ℕ → Option Block → Option ℕ
value_in undef a none = none
value_in undef a (some b) = value_at undef a b.predecessors b.instructions

abbrev pub drop_phi : ℕ → ℕ → Option ℕ → List Block → List Block
drop_phi b a none bs = bs
drop_phi b a (some v) bs = update b (erase_in a) (replace_locally a v bs)

-- The instruction at address `a` of the block at address `b`.
unfoldable pub visit_inst : (ℕ → ℕ) → ℕ → ℕ → List Block → List Block
visit_inst undef b a bs = drop_phi b a (value_in (undef a) a (find_block b bs)) bs

abbrev pub visit_insts : (ℕ → ℕ) → ℕ → List ℕ → List Block → List Block
visit_insts undef b [] bs = bs
visit_insts undef b (a ∷ as_left) bs = visit_insts undef b as_left (visit_inst undef b a bs)

abbrev pub inst_addresses : List Instruction → List ℕ
inst_addresses [] = []
inst_addresses (i ∷ is) = i.id ∷ inst_addresses is

abbrev pub addresses_in : Option Block → List ℕ
addresses_in none = []
addresses_in (some b) = inst_addresses b.instructions

abbrev pub visit_blocks : (ℕ → ℕ) → List ℕ → List Block → List Block
visit_blocks undef [] bs = bs
visit_blocks undef (b ∷ todo) bs =
    visit_blocks undef todo (visit_insts undef b (addresses_in (find_block b bs)) bs)

unfoldable pub eliminate_phis : (ℕ → ℕ) → List Block → List Block
eliminate_phis undef bs = visit_blocks undef (addresses bs) bs
