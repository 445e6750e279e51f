-- ===== src/DeadCode/Operands.antt =====
-- `extractOperands` against `replaceOperand` of the instruction classes.
use moksha.Base.{ℕ, ◌≡◌, ◌==◌, refl, ap, false, Option, none, some, List, [], ◌∷◌, arith}
use moksha.Mir.{
  Inst, br, cond_br, switch, ret, unreachable, alloca, load, store, get_element_ptr, insert_value,
  extract_value, arc, store_weak, load_weak, binary, cast, compare_int, compare_float, phi, call,
  invoke, landing_pad, resume, throw, inline_asm, make_closure, make_shared, spawn, await,
  atomic_load, atomic_store, atomic_rmw, atomic_cmp_xchg, fence,
}
use moksha.Mir.Operands.{replaced, all_replaced, pairs_replaced, option_replaced, replace_operand}
use moksha.Worklist.{contains}
use moksha.DeadCode.{extract_operands, firsts, some_of}

replaced_other : (o n v : ℕ) → (o == v) ≡ false → replaced o n v ≡ v
replaced_other o n v h = ground arith

all_replaced_other : (o n : ℕ) (vs : List ℕ) → contains o vs ≡ false → all_replaced o n vs ≡ vs
all_replaced_other o n [] h = refl
all_replaced_other o n (v ∷ vs) h =
    let here = replaced_other o n v (ground arith) in
    let later = all_replaced_other o n vs (ground arith) in rw (here, later) refl

pairs_replaced_other :
    (o n : ℕ) (ps : List (ℕ × ℕ)) → contains o (firsts ps) ≡ false → pairs_replaced o n ps ≡ ps
pairs_replaced_other o n [] h = refl
pairs_replaced_other o n ((v, b) ∷ ps) h =
    let here = replaced_other o n v (ground arith) in
    let later = pairs_replaced_other o n ps (ground arith) in rw (here, later) refl

option_replaced_other :
    (o n : ℕ) (v : Option ℕ) → contains o (some_of v) ≡ false → option_replaced o n v ≡ v
option_replaced_other o n none h = refl
option_replaced_other o n (some v) h = ap some (replaced_other o n v (ground arith))

one : (o n : ℕ) (f : ℕ → Inst) (v : ℕ) → contains o (v ∷ []) ≡ false → f (replaced o n v) ≡ f v
one o n f v h = ap f (replaced_other o n v (ground arith))

two :
    (o n : ℕ) (f : ℕ → ℕ → Inst) (v w : ℕ)
    → contains o (v ∷ w ∷ []) ≡ false
    → f (replaced o n v) (replaced o n w) ≡ f v w
two o n f v w h =
    let a = replaced_other o n v (ground arith) in
    let b = replaced_other o n w (ground arith) in rw (a, b) refl

one_and :
    (o n : ℕ) (f : ℕ → List ℕ → Inst) (v : ℕ) (vs : List ℕ)
    → contains o (v ∷ vs) ≡ false
    → f (replaced o n v) (all_replaced o n vs) ≡ f v vs
one_and o n f v vs h =
    let a = replaced_other o n v (ground arith) in
    let b = all_replaced_other o n vs (ground arith) in rw (a, b) refl

-- A value that the pass does not mark for an instruction is none of its operands: replacing it there
-- changes nothing.
pub extract_operands-replace_operand :
    (o n : ℕ) (i : Inst) → contains o (extract_operands i) ≡ false → replace_operand o n i ≡ i
unfolding extract_operands replace_operand
extract_operands-replace_operand o n (br b) h = refl
extract_operands-replace_operand o n (cond_br c t f) h =
    ap (λ x. cond_br x t f) (replaced_other o n c (ground arith))
extract_operands-replace_operand o n (switch c d cases) h =
    let here = replaced_other o n c (ground arith) in
    let later = pairs_replaced_other o n cases (ground arith) in rw (here, later) refl
extract_operands-replace_operand o n (ret v) h = ap ret (option_replaced_other o n v h)
extract_operands-replace_operand o n unreachable h = refl
extract_operands-replace_operand o n alloca h = refl
extract_operands-replace_operand o n (load p b) h =
    ap (λ x. load x b) (replaced_other o n p (ground arith))
extract_operands-replace_operand o n (store v p) h = two o n store v p h
extract_operands-replace_operand o n (get_element_ptr p is) h = one_and o n get_element_ptr p is h
extract_operands-replace_operand o n (insert_value a v) h = two o n insert_value a v h
extract_operands-replace_operand o n (extract_value a) h = one o n extract_value a h
extract_operands-replace_operand o n (arc op v) h = one o n (arc op) v h
extract_operands-replace_operand o n (store_weak v p) h = two o n store_weak v p h
extract_operands-replace_operand o n (load_weak p) h = one o n load_weak p h
extract_operands-replace_operand o n (binary op l r) h = two o n (binary op) l r h
extract_operands-replace_operand o n (cast op v) h = one o n (cast op) v h
extract_operands-replace_operand o n (compare_int p l r) h = two o n (compare_int p) l r h
extract_operands-replace_operand o n (compare_float l r) h = two o n compare_float l r h
extract_operands-replace_operand o n (phi incoming) h = ap phi (pairs_replaced_other o n incoming h)
extract_operands-replace_operand o n (call f args) h = one_and o n call f args h
extract_operands-replace_operand o n (invoke f args t u) h =
    one_and o n (λ f args. invoke f args t u) f args h
extract_operands-replace_operand o n landing_pad h = refl
extract_operands-replace_operand o n (resume v) h = one o n resume v h
extract_operands-replace_operand o n (throw v u) h = one o n (λ v. throw v u) v h
extract_operands-replace_operand o n (inline_asm args) h =
    ap inline_asm (all_replaced_other o n args h)
extract_operands-replace_operand o n (make_closure f cs) h = one_and o n make_closure f cs h
extract_operands-replace_operand o n (make_shared v) h = one o n make_shared v h
extract_operands-replace_operand o n (spawn c) h = one o n spawn c h
extract_operands-replace_operand o n (await p) h = one o n await p h
extract_operands-replace_operand o n (atomic_load p) h = one o n atomic_load p h
extract_operands-replace_operand o n (atomic_store v p) h = two o n atomic_store v p h
extract_operands-replace_operand o n (atomic_rmw p v) h = two o n (λ v p. atomic_rmw p v) v p h
extract_operands-replace_operand o n (atomic_cmp_xchg p e d) h =
    let a = replaced_other o n p (ground arith) in
    let b = replaced_other o n e (ground arith) in
    let c = replaced_other o n d (ground arith) in rw (a, b, c) refl
extract_operands-replace_operand o n fence h = refl
