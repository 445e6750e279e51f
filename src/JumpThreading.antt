-- ===== src/JumpThreading.antt =====
-- `JumpThreadingPass::runOnModule` in lib/middle/mir/passes/JumpThreadingPass.cpp: where a block ends
-- in a test of one of its phi instructions against null, a block that null comes from is led to the
-- branch for null.
pub mod Edges
use moksha.Base.{
  ℕ, ◌==◌, Bool, true, false, not, ◌&&◌, ◌||◌, Option, none, some, List, [], ◌∷◌, if◌then◌else◌,
}
use moksha.Mir.{Inst, br, cond_br, compare_int, phi, IntPredicate, ne, Instruction, Block, Function}
use moksha.Mir.Blocks.{
  add_successor, add_predecessor, remove_successor, remove_predecessor, update, find_block,
  addresses, add_instruction, remove_incoming, update_phis,
}
use moksha.Worklist.{contains}
use moksha.SimplifyCfg.{last_inst, pop_instruction}

abbrev pub inst_in : ℕ → List Instruction → Option Inst
inst_in a [] = none
inst_in a (i ∷ is) = if a == i.id then some i.inst else inst_in a is

-- The instruction at an address, and `none` for the address of another value.
abbrev pub inst_of : ℕ → List Block → Option Inst
inst_of a [] = none
inst_of a (b ∷ bs) = elim (inst_in a b.instructions) [ some i ↦ some i | none ↦ inst_of a bs ]

-- The phi instruction that the comparison is of, and the block for null: `is_null` says which values
-- are a `ConstantNull`.
abbrev null_test : (ℕ → Bool) → Option Inst → Option ℕ
null_test is_null (some (compare_int ne l r)) = if is_null r then some l else none
null_test is_null _ = none

abbrev incoming_of : Option Inst → Option (List (ℕ × ℕ))
incoming_of (some (phi incoming)) = some incoming
incoming_of _ = none

abbrev phi_of : Option ℕ → Block → Option (List (ℕ × ℕ))
phi_of none b = none
phi_of (some a) b = incoming_of (inst_in a b.instructions)

-- The values of the phi instruction, and the block for null.
unfoldable pub threads_of : (ℕ → Bool) → Block → List Block → Option (List (ℕ × ℕ) × ℕ)
threads_of is_null b bs = elim (last_inst b.instructions) [
  | some (cond_br c t f) ↦ elim (phi_of (null_test is_null (inst_of c bs)) b) [
    | some incoming ↦ some (incoming, f)
    | none ↦ none
  ]
  | _ ↦ none
]

abbrev first_is_phi : List Instruction → Bool
first_is_phi [] = false
first_is_phi (i ∷ is) = elim i.inst [ phi incoming ↦ true | _ ↦ false ]

abbrev pub has_predecessor : ℕ → Option Block → Bool
has_predecessor p none = false
has_predecessor p (some b) = contains p b.predecessors

-- `hasBailoutPred`
abbrev pub has_pred : ℕ → ℕ → List Block → Bool
has_pred p t bs = has_predecessor p (find_block t bs)

-- Block `p`, which ends in a branch, is led to `t` in place of `b`.
unfoldable pub thread_br : (ℕ → ℕ) → ℕ → ℕ → ℕ → List Block → List Block
thread_br fresh p b t bs =
    let popped = update p pop_instruction bs in
    let pushed = add_instruction p (record { id = fresh p; inst = br t }) popped in
    let cut = update b (remove_predecessor p) (update p (remove_successor b) pushed) in
    let linked =
      if has_pred p t cut
      then cut
      else update t (add_predecessor p) (update p (add_successor t) cut) in
    update b (update_phis (remove_incoming p)) linked

abbrev pub true_block : ℕ → ℕ → ℕ → ℕ
true_block b t x = if x == b then t else x

abbrev pub false_block : ℕ → ℕ → ℕ → ℕ → ℕ
false_block b t x y = if x == b then y else (if y == b then t else y)

-- `setTrueBlock` or `setFalseBlock`, of the conditional branch that the instructions end in.
abbrev pub set_blocks : ℕ → ℕ → List Instruction → List Instruction
set_blocks x y [] = []
set_blocks x y (i ∷ []) = elim i.inst [
  | cond_br c t f ↦ record i { inst = cond_br c x y } ∷ []
  | _ ↦ i ∷ []
]
set_blocks x y (i ∷ is) = i ∷ set_blocks x y is

-- The block that ends in the branch, with its new successors.
abbrev pub set_targets : ℕ → ℕ → Block → Block
set_targets x y b =
    let one =
      add_successor x
        (record b { instructions = set_blocks x y b.instructions; successors = [] }) in
    if x == y then one else add_successor y one

-- Block `p`, which ends in a conditional branch to `x` or `y`, is led to `t` in place of `b`.
unfoldable pub thread_cond : ℕ → ℕ → ℕ → ℕ → ℕ → List Block → List Block
thread_cond p b t x y bs =
    let new_x = true_block b t x in
    let new_y = false_block b t x y in
    let led = update b (remove_predecessor p) (update p (set_targets new_x new_y) bs) in
    let kept =
      if new_x == b || new_y == b
      then update b (add_predecessor p) led
      else update b (update_phis (remove_incoming p)) led in
    if has_pred p t kept then kept else update t (add_predecessor p) kept

unfoldable pub thread : (ℕ → ℕ) → ℕ → ℕ → ℕ → Option Inst → List Block → Option (List Block)
thread fresh p b t (some (br x)) bs = some (thread_br fresh p b t bs)
thread fresh p b t (some (cond_br c x y)) bs = some (thread_cond p b t x y bs)
thread fresh p b t _ bs = none

abbrev last_inst_of : Option Block → Option Inst
last_inst_of none = none
last_inst_of (some b) = last_inst b.instructions

abbrev begins_with_phi : Option Block → Bool
begins_with_phi none = false
begins_with_phi (some b) = first_is_phi b.instructions

-- The values of the phi instruction in order, up to the first null that is threaded.
unfoldable pub thread_first :
    (ℕ → Bool) → (ℕ → ℕ) → ℕ → ℕ → List (ℕ × ℕ) → List Block → Option (List Block)
thread_first is_null fresh b t [] bs = none
thread_first is_null fresh b t ((v, p) ∷ ps) bs =
    let later = thread_first is_null fresh b t ps bs in
    if is_null v && not (begins_with_phi (find_block t bs))
    then (elim (thread fresh p b t (last_inst_of (find_block p bs)) bs) [
      | some cs ↦ some cs
      | none ↦ later
    ])
    else later

abbrev thread_at : (ℕ → Bool) → (ℕ → ℕ) → Option Block → List Block → List Block × Bool
thread_at is_null fresh none bs = (bs, false)
thread_at is_null fresh (some b) bs = elim (threads_of is_null b bs) [
  | none ↦ (bs, false)
  | some (incoming, t) ↦ elim (thread_first is_null fresh b.id t incoming bs) [
    | none ↦ (bs, false)
    | some cs ↦ (cs, true)
  ]
]

abbrev thread_all : (ℕ → Bool) → (ℕ → ℕ) → List ℕ → List Block → List Block × Bool
thread_all is_null fresh [] bs = (bs, false)
thread_all is_null fresh (a ∷ todo) bs =
    let (cs, here) = thread_at is_null fresh (find_block a bs) bs in
    let (ds, later) = thread_all is_null fresh todo cs in (ds, here || later)

-- The pass over the blocks of a function. `fresh` gives the address of the branch that is made for a
-- block.
unfoldable pub thread_jumps : (ℕ → Bool) → (ℕ → ℕ) → List Block → List Block × Bool
thread_jumps is_null fresh bs = thread_all is_null fresh (addresses bs) bs

unfoldable pub run_on_functions : (ℕ → Bool) → (ℕ → ℕ) → List Function → List Function × Bool
run_on_functions is_null fresh [] = ([], false)
run_on_functions is_null fresh (f ∷ fs) =
    let (bs, here) = thread_jumps is_null fresh f.blocks in
    let (gs, later) = run_on_functions is_null fresh fs in
    (record f { blocks = bs } ∷ gs, here || later)
