-- ===== src/SimplifyCfg/Bypass.antt =====
-- `SimplifyCFGPass::bypassEmptyBlocks`, and `replaceTargetBlock`, in
-- lib/middle/mir/passes/SimplifyCFGPass.cpp.
use moksha.Base.{
  ℕ, ◌==◌, Bool, true, false, not, ◌&&◌, ◌||◌, Option, none, some, List, [], ◌∷◌, if◌then◌else◌,
}
use moksha.Mir.{Inst, br, cond_br, switch, invoke, throw, phi, Instruction, Block}
use moksha.Mir.Operands.{replaced, option_replaced}
use moksha.Mir.Blocks.{
  add_successor, add_predecessor, remove_successor, remove_predecessor, update, find_block,
  remove_incoming, update_phis,
}
use moksha.Worklist.{contains}
use moksha.SimplifyCfg.{last_inst, incoming_from, add_incoming, entry_of}

abbrev cases_retargeted : ℕ → ℕ → List (ℕ × ℕ) → List (ℕ × ℕ)
cases_retargeted old new [] = []
cases_retargeted old new ((v, b) ∷ cs) = (v, replaced old new b) ∷ cases_retargeted old new cs

-- `replaceTargetBlock`
unfoldable pub replace_target : ℕ → ℕ → Inst → Inst
replace_target o n (br t) = br (replaced o n t)
replace_target o n (cond_br c t f) = cond_br c (replaced o n t) (replaced o n f)
replace_target o n (invoke f args d u) = invoke f args (replaced o n d) (option_replaced o n u)
replace_target o n (throw v u) = throw v (option_replaced o n u)
replace_target o n (switch c d cases) = switch c (replaced o n d) (cases_retargeted o n cases)
replace_target o n i = i

abbrev retarget_last : ℕ → ℕ → List Instruction → List Instruction
retarget_last old new [] = []
retarget_last old new (i ∷ []) = record i { inst = replace_target old new i.inst } ∷ []
retarget_last old new (i ∷ is) = i ∷ retarget_last old new is

abbrev retarget : ℕ → ℕ → Block → Block
retarget old new b = record b { instructions = retarget_last old new b.instructions }

abbrev is_phi : Inst → Bool
is_phi (phi ps) = true
is_phi _ = false

abbrev has_phi : List Instruction → Bool
has_phi [] = false
has_phi (i ∷ is) = is_phi i.inst || has_phi is

abbrev is_invoke : Option Inst → Bool
is_invoke (some (invoke f args n u)) = true
is_invoke _ = false

abbrev last_of : Option Block → Option Inst
last_of none = none
last_of (some b) = last_inst b.instructions

abbrev any_invokes : List ℕ → List Block → Bool
any_invokes [] bs = false
any_invokes (a ∷ rest) bs = is_invoke (last_of (find_block a bs)) || any_invokes rest bs

abbrev any_shared : List ℕ → List ℕ → Bool
any_shared [] ps = false
any_shared (a ∷ rest) ps = contains a ps || any_shared rest ps

-- The only instruction of a block, where it is a branch.
abbrev only_branch : List Instruction → Option ℕ
only_branch (i ∷ []) = elim i.inst [ br t ↦ some t | _ ↦ none ]
only_branch _ = none

abbrev is_empty_list : List ℕ → Bool
is_empty_list [] = true
is_empty_list _ = false

abbrev can_bypass : Block → Option Block → List Block → Bool
can_bypass b none bs = false
can_bypass b (some c) bs =
    not (any_invokes b.predecessors bs)
    && not (has_phi c.instructions && any_shared b.predecessors c.predecessors)

abbrev bypassed_to : Block → Option ℕ → List Block → Option ℕ
bypassed_to b none bs = none
bypassed_to b (some t) bs =
    if not (b.id == t) && can_bypass b (find_block t bs) bs then some t else none

-- The block that `b` is bypassed to, if it can be.
unfoldable pub bypass_target : Block → List Block → Option ℕ
bypass_target b bs =
    if b.id == entry_of bs || is_empty_list b.predecessors
    then none
    else bypassed_to b (only_branch b.instructions) bs

-- A predecessor `a` of `b` is led to `t`.
abbrev lead : ℕ → ℕ → List ℕ → List Block → List Block
lead b t [] bs = bs
lead b t (a ∷ rest) bs =
    let moved =
      update a (add_successor t) (update a (remove_successor b) (update a (retarget b t) bs)) in
    let linked = update t (add_predecessor a) moved in
    lead b t rest (update t (update_phis (λ ps. add_incoming (incoming_from b ps) a ps)) linked)

unfoldable pub bypass : Block → ℕ → List Block → List Block
bypass b t bs =
    let led = lead b.id t b.predecessors bs in
    let cut =
      update t (update_phis (remove_incoming b.id)) (update t (remove_predecessor b.id) led) in
    update b.id (λ block. record block { predecessors = []; successors = [] }) cut

abbrev try_bypass : Block → Option ℕ → List Block → Option (List Block) → Option (List Block)
try_bypass b none bs rest = rest
try_bypass b (some t) bs rest = some (bypass b t bs)

abbrev bypass_first : List Block → List Block → Option (List Block)
bypass_first [] bs = none
bypass_first (b ∷ todo) bs = try_bypass b (bypass_target b bs) bs (bypass_first todo bs)

unfoldable pub bypass_empty_blocks : List Block → Option (List Block)
bypass_empty_blocks bs = bypass_first bs bs
