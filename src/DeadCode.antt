-- ===== src/DeadCode.antt =====
-- `DeadCodeEliminationPass::runOnModule` in lib/middle/mir/passes/DeadCodeEliminationPass.cpp, its
-- second step: the instructions and globals that nothing needs are marked and swept.
pub mod Operands
pub mod Sweep
pub mod Effects
pub mod Unreachable
pub mod Kept
pub mod Edges
pub mod Phis
pub mod Pass
pub mod Replaced
pub mod Erased
pub mod Closed
use moksha.Base.{
  ℕ, Bool, true, false, ◌||◌, Option, none, some, List, [], ◌∷◌, ◌++◌, Bytes, codes, bytes_eq, ◌==◌,
  if◌then◌else◌,
}
use moksha.Mir.{
  Inst, br, cond_br, switch, ret, unreachable, alloca, load, store, get_element_ptr, insert_value,
  extract_value, arc, store_weak, load_weak, binary, cast, compare_int, compare_float, phi, call,
  invoke, landing_pad, resume, throw, inline_asm, make_closure, make_shared, spawn, await,
  atomic_load, atomic_store, atomic_rmw, atomic_cmp_xchg, fence,
}
use moksha.Mir.{Instruction, Block, Function, Linkage, internal, Global, Constant, MirModule}
use moksha.Mir.{scalar, array, slice, struct, map, union, constant_cast, constant_upcast}
use moksha.Worklist.{contains, closure}

unfoldable pub has_side_effects : Inst → Bool
has_side_effects (store v p) = true
has_side_effects (store_weak v p) = true
has_side_effects (call f args) = true
has_side_effects (invoke f args t u) = true
has_side_effects (ret v) = true
has_side_effects unreachable = true
has_side_effects (br b) = true
has_side_effects (cond_br c t f) = true
has_side_effects (switch c d cases) = true
has_side_effects (throw v u) = true
has_side_effects (resume v) = true
has_side_effects (inline_asm args) = true
has_side_effects (spawn c) = true
has_side_effects (await p) = true
has_side_effects (atomic_store v p) = true
has_side_effects (atomic_rmw p v) = true
has_side_effects (atomic_cmp_xchg p e d) = true
has_side_effects fence = true
has_side_effects (arc op v) = true
has_side_effects landing_pad = true
has_side_effects (load p volatile) = volatile
has_side_effects (atomic_load p) = true
has_side_effects _ = false

abbrev pub firsts : List (ℕ × ℕ) → List ℕ
firsts [] = []
firsts ((v, w) ∷ ps) = v ∷ firsts ps

abbrev pub both : List (ℕ × ℕ) → List ℕ
both [] = []
both ((v, w) ∷ ps) = v ∷ w ∷ both ps

abbrev pub some_of : Option ℕ → List ℕ
some_of none = []
some_of (some v) = v ∷ []

-- The operands of an instruction that `extractOperands` marks, in its order.
unfoldable pub extract_operands : Inst → List ℕ
extract_operands (load p b) = p ∷ []
extract_operands (store v p) = v ∷ p ∷ []
extract_operands (store_weak v p) = v ∷ p ∷ []
extract_operands (load_weak p) = p ∷ []
extract_operands (get_element_ptr p is) = p ∷ is
extract_operands (call f args) = f ∷ args
extract_operands (cast op v) = v ∷ []
extract_operands (phi incoming) = firsts incoming
extract_operands (binary op l r) = l ∷ r ∷ []
extract_operands (compare_int p l r) = l ∷ r ∷ []
extract_operands (compare_float l r) = l ∷ r ∷ []
extract_operands (ret v) = some_of v
extract_operands (cond_br c t f) = c ∷ []
extract_operands (switch c d cases) = c ∷ firsts cases
extract_operands (invoke f args t u) = f ∷ args
extract_operands (resume v) = v ∷ []
extract_operands (throw v u) = v ∷ []
extract_operands (inline_asm args) = args
extract_operands (spawn c) = c ∷ []
extract_operands (await p) = p ∷ []
extract_operands (atomic_load p) = p ∷ []
extract_operands (atomic_store v p) = v ∷ p ∷ []
extract_operands (atomic_rmw p v) = v ∷ p ∷ []
extract_operands (atomic_cmp_xchg p e d) = p ∷ e ∷ d ∷ []
extract_operands (extract_value a) = a ∷ []
extract_operands (insert_value a v) = a ∷ v ∷ []
extract_operands (arc op v) = v ∷ []
extract_operands (make_shared v) = v ∷ []
extract_operands (make_closure f cs) = f ∷ cs
extract_operands _ = []

-- What it marks of a constant: nothing of a slice, a union or an upcast.
unfoldable pub constant_operands : Constant → List ℕ
constant_operands (array es) = es
constant_operands (map entries) = both entries
constant_operands (struct fields) = fields
constant_operands (constant_cast v) = v ∷ []
constant_operands _ = []

-- A value with what it refers to.
abbrev pub Entries : Type 0
Entries = List (ℕ × List ℕ)

abbrev pub instruction_entries : List Instruction → Entries
instruction_entries [] = []
instruction_entries (i ∷ is) = (i.id, extract_operands i.inst) ∷ instruction_entries is

abbrev pub block_entries : List Block → Entries
block_entries [] = []
block_entries (b ∷ bs) = instruction_entries b.instructions ++ block_entries bs

abbrev pub function_entries : List Function → Entries
function_entries [] = []
function_entries (f ∷ fs) = block_entries f.blocks ++ function_entries fs

abbrev pub global_entries : List Global → Entries
global_entries [] = []
global_entries (g ∷ gs) = (g.id, some_of g.initializer) ∷ global_entries gs

abbrev pub constant_entries : List (ℕ × Constant) → Entries
constant_entries [] = []
constant_entries ((v, c) ∷ cs) = (v, constant_operands c) ∷ constant_entries cs

unfoldable pub entries : MirModule → Entries
entries m =
    function_entries m.functions ++ (global_entries m.globals ++ constant_entries m.constants)

-- `extractOperands(v)`
abbrev pub operands_in : Entries → ℕ → List ℕ
operands_in [] v = []
operands_in ((w, operands) ∷ es) v = if v == w then operands else operands_in es v

abbrev is_internal : Linkage → Bool
is_internal internal = true
is_internal _ = false

-- The globals that are marked first: those that other modules see, and those in use.
unfoldable pub global_seeds : List Global → List ℕ
global_seeds [] = []
global_seeds (g ∷ gs) =
    let rest = global_seeds gs in
    if is_internal g.linkage then (if g.is_used then g.id ∷ rest else rest) else g.id ∷ rest

unfoldable pub is_system_root : Function → Bool
is_system_root f =
    bytes_eq f.name (codes "__moksha_module_init")
    || bytes_eq f.name (codes "__moksha_module_destroy")

unfoldable pub instruction_seeds : Bool → List Instruction → List ℕ
instruction_seeds root [] = []
instruction_seeds root (i ∷ is) =
    let rest = instruction_seeds root is in
    if root || has_side_effects i.inst then i.id ∷ rest else rest

abbrev pub block_seeds : Bool → List Block → List ℕ
block_seeds root [] = []
block_seeds root (b ∷ bs) = instruction_seeds root b.instructions ++ block_seeds root bs

abbrev pub function_seeds : List Function → List ℕ
function_seeds [] = []
function_seeds (f ∷ fs) = block_seeds (is_system_root f) f.blocks ++ function_seeds fs

unfoldable pub seeds : MirModule → List ℕ
seeds m = global_seeds m.globals ++ function_seeds m.functions

abbrev pub mentioned : Entries → List ℕ
mentioned [] = []
mentioned ((v, operands) ∷ es) = operands ++ mentioned es

-- The mark phase. Whatever it can meet is a seed, or an operand of some value.
unfoldable pub alive : MirModule → List ℕ
alive m = closure (operands_in (entries m)) (seeds m ++ mentioned (entries m)) (seeds m)

-- The sweep phases: the instructions and the globals that were not marked are erased.
unfoldable pub sweep_instructions : List ℕ → List Instruction → List Instruction
sweep_instructions live [] = []
sweep_instructions live (i ∷ is) =
    let rest = sweep_instructions live is in if contains i.id live then i ∷ rest else rest

abbrev pub sweep_blocks : List ℕ → List Block → List Block
sweep_blocks live [] = []
sweep_blocks live (b ∷ bs) =
    record b { instructions = sweep_instructions live b.instructions } ∷ sweep_blocks live bs

abbrev pub sweep_functions : List ℕ → List Function → List Function
sweep_functions live [] = []
sweep_functions live (f ∷ fs) =
    record f { blocks = sweep_blocks live f.blocks } ∷ sweep_functions live fs

unfoldable pub sweep_globals : List ℕ → List Global → List Global
sweep_globals live [] = []
sweep_globals live (g ∷ gs) =
    let rest = sweep_globals live gs in if contains g.id live then g ∷ rest else rest

unfoldable pub sweep : MirModule → MirModule
sweep m = record m {
  functions = sweep_functions (alive m) m.functions;
  globals = sweep_globals (alive m) m.globals;
}
