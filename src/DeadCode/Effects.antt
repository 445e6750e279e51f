-- ===== src/DeadCode/Effects.antt =====
-- The sweep leaves every instruction with side effects, and no operand of what it leaves is erased.
use moksha.Base.{
  ℕ, ◌≡◌, refl, ap, ◌∙◌, Bool, true, false, ◌&&◌, List, [], ◌∷◌, ◌++◌, arith, if◌then◌else◌,
  Bool-cases, inl, inr,
}
use moksha.Mir.{Inst, Instruction, Block, Function, MirModule}
use moksha.Mir.Operands.{replace_operand}
use moksha.Worklist.{contains, seed, further}
use moksha.Worklist.Bounds.{within}
use moksha.DeadCode.{
  has_side_effects, extract_operands, entries, operands_in, seeds, alive, is_system_root,
  global_seeds, instruction_seeds, block_seeds, function_seeds, sweep_instructions, sweep_blocks,
  sweep_functions, sweep,
}
use moksha.DeadCode.Operands.{extract_operands-replace_operand}
use moksha.DeadCode.Sweep.{alive-Reaches}

within-append : (xs ys zs : List ℕ) → within (xs ++ ys) zs ≡ (within xs zs && within ys zs)
within-append [] ys zs = refl
within-append (x ∷ xs) ys zs = ground (arith, within-append xs ys zs)

-- The instructions with side effects, in order.
abbrev pub effects : List Instruction → List Instruction
effects [] = []
effects (i ∷ is) = if has_side_effects i.inst then i ∷ effects is else effects is

abbrev pub block_effects : List Block → List (List Instruction)
block_effects [] = []
block_effects (b ∷ bs) = effects b.instructions ∷ block_effects bs

abbrev pub function_effects : List Function → List (List (List Instruction))
function_effects [] = []
function_effects (f ∷ fs) = block_effects f.blocks ∷ function_effects fs

effects-sweep_instructions :
    (root : Bool) (live : List ℕ) (is : List Instruction)
    → within (instruction_seeds root is) live ≡ true
    → effects (sweep_instructions live is) ≡ effects is
unfolding instruction_seeds sweep_instructions
effects-sweep_instructions root live [] h = refl
effects-sweep_instructions root live (i ∷ is) h =
    let later : within (instruction_seeds root is) live ≡ true = ground arith in
    let rest = effects-sweep_instructions root live is later in
    elim (Bool-cases (contains i.id live)) [
      | inl k ↦ rw k (elim (Bool-cases (has_side_effects i.inst)) [
        | inl e ↦ rw e (ap (◌∷◌ i) rest)
        | inr e ↦ rw e rest
      ])
      | inr k ↦
          let none_here : has_side_effects i.inst ≡ false = ground arith in rw (k, none_here) rest
    ]

effects-sweep_blocks :
    (root : Bool) (live : List ℕ) (bs : List Block)
    → within (block_seeds root bs) live ≡ true
    → block_effects (sweep_blocks live bs) ≡ block_effects bs
effects-sweep_blocks root live [] h = refl
effects-sweep_blocks root live (b ∷ bs) h =
    let split = within-append (instruction_seeds root b.instructions) (block_seeds root bs) live in
    let here = effects-sweep_instructions root live b.instructions (ground (arith, split)) in
    let rest = effects-sweep_blocks root live bs (ground (arith, split)) in rw (here, rest) refl

effects-sweep_functions :
    (live : List ℕ) (fs : List Function)
    → within (function_seeds fs) live ≡ true
    → function_effects (sweep_functions live fs) ≡ function_effects fs
effects-sweep_functions live [] h = refl
effects-sweep_functions live (f ∷ fs) h =
    let split = within-append (block_seeds (is_system_root f) f.blocks) (function_seeds fs) live in
    let here = effects-sweep_blocks (is_system_root f) live f.blocks (ground (arith, split)) in
    let rest = effects-sweep_functions live fs (ground (arith, split)) in rw (here, rest) refl

within-all :
    (xs ys : List ℕ) → ((v : ℕ) → contains v xs ≡ true → contains v ys ≡ true) → within xs ys ≡ true
within-all [] ys h = refl
within-all (x ∷ xs) ys h =
    let here = h x (ground arith) in
    let rest = within-all xs ys (λ v k. h v (ground arith)) in ground (arith, here, rest)

seeds-alive : (m : MirModule) → within (seeds m) (alive m) ≡ true
seeds-alive m = within-all (seeds m) (alive m) (λ v h. (alive-Reaches m v).1 (seed h))

-- Each block keeps its instructions with side effects, all of them and in their order.
pub effects-sweep :
    (m : MirModule) → function_effects (sweep m).functions ≡ function_effects m.functions
unfolding sweep seeds
effects-sweep m =
    let split = within-append (global_seeds m.globals) (function_seeds m.functions) (alive m) in
    effects-sweep_functions (alive m) m.functions (ground (arith, split, seeds-alive m))

-- No operand of a marked instruction is swept: where the module holds the instruction `i` under the
-- address `v`, which is marked, a value `w` that is not marked is no operand of it, since replacing
-- it there changes nothing.
pub alive_operands :
    (m : MirModule) (v w n : ℕ) (i : Inst)
    → operands_in (entries m) v ≡ extract_operands i
    → contains v (alive m) ≡ true
    → contains w (alive m) ≡ false
    → replace_operand w n i ≡ i
alive_operands m v w n i e h k =
    extract_operands-replace_operand w n i (elim (Bool-cases (contains w (extract_operands i))) [
      | inr off ↦ off
      | inl on ↦
          let there : contains w (operands_in (entries m) v) ≡ true = ap (contains w) e ∙ on in
          let marked = (alive-Reaches m w).1 (further ((alive-Reaches m v).0 h) there) in cc
    ])
