-- ===== src/Mir/Operands.antt =====
-- `replaceOperand` of the instruction classes, where the value that is replaced is no block.
use moksha.Base.{ℕ, ◌==◌, Option, none, some, List, [], ◌∷◌, if◌then◌else◌}
use moksha.Mir.{
  Inst, br, cond_br, switch, ret, unreachable, alloca, load, store, get_element_ptr, insert_value,
  extract_value, arc, store_weak, load_weak, binary, cast, compare_int, compare_float, phi, call,
  invoke, landing_pad, resume, throw, inline_asm, make_closure, make_shared, spawn, await,
  atomic_load, atomic_store, atomic_rmw, atomic_cmp_xchg, fence,
}

-- `if (operand == oldVal) operand = newVal`
abbrev pub replaced : ℕ → ℕ → ℕ → ℕ
replaced old new v = if v == old then new else v

abbrev pub all_replaced : ℕ → ℕ → List ℕ → List ℕ
all_replaced old new [] = []
all_replaced old new (v ∷ vs) = replaced old new v ∷ all_replaced old new vs

-- In pairs of a value and a block, the values.
abbrev pub pairs_replaced : ℕ → ℕ → List (ℕ × ℕ) → List (ℕ × ℕ)
pairs_replaced old new [] = []
pairs_replaced old new ((v, b) ∷ vs) = (replaced old new v, b) ∷ pairs_replaced old new vs

abbrev pub option_replaced : ℕ → ℕ → Option ℕ → Option ℕ
option_replaced old new none = none
option_replaced old new (some v) = some (replaced old new v)

unfoldable pub replace_operand : ℕ → ℕ → Inst → Inst
replace_operand o n (br b) = br b
replace_operand o n (cond_br c t f) = cond_br (replaced o n c) t f
replace_operand o n (switch c d cases) = switch (replaced o n c) d (pairs_replaced o n cases)
replace_operand o n (ret v) = ret (option_replaced o n v)
replace_operand o n unreachable = unreachable
replace_operand o n alloca = alloca
replace_operand o n (load p b) = load (replaced o n p) b
replace_operand o n (store v p) = store (replaced o n v) (replaced o n p)
replace_operand o n (get_element_ptr p is) = get_element_ptr (replaced o n p) (all_replaced o n is)
replace_operand o n (insert_value a v) = insert_value (replaced o n a) (replaced o n v)
replace_operand o n (extract_value a) = extract_value (replaced o n a)
replace_operand o n (arc op v) = arc op (replaced o n v)
replace_operand o n (store_weak v p) = store_weak (replaced o n v) (replaced o n p)
replace_operand o n (load_weak p) = load_weak (replaced o n p)
replace_operand o n (binary op l r) = binary op (replaced o n l) (replaced o n r)
replace_operand o n (cast op v) = cast op (replaced o n v)
replace_operand o n (compare_int p l r) = compare_int p (replaced o n l) (replaced o n r)
replace_operand o n (compare_float l r) = compare_float (replaced o n l) (replaced o n r)
replace_operand o n (phi incoming) = phi (pairs_replaced o n incoming)
replace_operand o n (call f args) = call (replaced o n f) (all_replaced o n args)
replace_operand o n (invoke f args t u) = invoke (replaced o n f) (all_replaced o n args) t u
replace_operand o n landing_pad = landing_pad
replace_operand o n (resume v) = resume (replaced o n v)
replace_operand o n (throw v u) = throw (replaced o n v) u
replace_operand o n (inline_asm args) = inline_asm (all_replaced o n args)
replace_operand o n (make_closure f cs) = make_closure (replaced o n f) (all_replaced o n cs)
replace_operand o n (make_shared v) = make_shared (replaced o n v)
replace_operand o n (spawn c) = spawn (replaced o n c)
replace_operand o n (await p) = await (replaced o n p)
replace_operand o n (atomic_load p) = atomic_load (replaced o n p)
replace_operand o n (atomic_store v p) = atomic_store (replaced o n v) (replaced o n p)
replace_operand o n (atomic_rmw p v) = atomic_rmw (replaced o n p) (replaced o n v)
replace_operand o n (atomic_cmp_xchg p e d) =
    atomic_cmp_xchg (replaced o n p) (replaced o n e) (replaced o n d)
replace_operand o n fence = fence
