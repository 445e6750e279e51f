-- ===== src/DeadCode/Replaced.antt =====
-- The operands and the addresses of instructions behind a replacement of one value by another.
use moksha.Base.{
  ℕ, ◌≡◌, ◌==◌, refl, ap, sym, ◌∙◌, true, false, not, ◌&&◌, ◌||◌, Option, none, some, List, [], ◌∷◌,
  ◌++◌, arith, Bool-cases, inl, inr, ==_iff,
}
use moksha.Mir.{
  Inst, br, cond_br, switch, ret, unreachable, alloca, load, store, get_element_ptr, insert_value,
  extract_value, arc, store_weak, load_weak, binary, cast, compare_int, compare_float, phi, call,
  invoke, landing_pad, resume, throw, inline_asm, make_closure, make_shared, spawn, await,
  atomic_load, atomic_store, atomic_rmw, atomic_cmp_xchg, fence,
}
use moksha.Mir.{Instruction, Block}
use moksha.Mir.Operands.{replaced, all_replaced, pairs_replaced, option_replaced, replace_operand}
use moksha.Worklist.{contains}
use moksha.DeadCode.{extract_operands, firsts, some_of}
use moksha.DeadCode.Phis.{replace_uses, replace_locally, inst_addresses}

firsts-pairs_replaced :
    (o n : ℕ) (ps : List (ℕ × ℕ)) → firsts (pairs_replaced o n ps) ≡ all_replaced o n (firsts ps)
firsts-pairs_replaced o n [] = refl
firsts-pairs_replaced o n ((v, b) ∷ ps) = ap (◌∷◌ (replaced o n v)) (firsts-pairs_replaced o n ps)

some_of-option_replaced :
    (o n : ℕ) (v : Option ℕ) → some_of (option_replaced o n v) ≡ all_replaced o n (some_of v)
some_of-option_replaced o n none = refl
some_of-option_replaced o n (some v) = refl

-- Replacing an operand replaces it among the operands that the pass marks, in their order.
operands-replace_operand :
    (o n : ℕ) (i : Inst)
    → extract_operands (replace_operand o n i) ≡ all_replaced o n (extract_operands i)
unfolding extract_operands replace_operand
operands-replace_operand o n (br b) = refl
operands-replace_operand o n (cond_br c t f) = refl
operands-replace_operand o n (switch c d cases) =
    ap (◌∷◌ (replaced o n c)) (firsts-pairs_replaced o n cases)
operands-replace_operand o n (ret v) = some_of-option_replaced o n v
operands-replace_operand o n unreachable = refl
operands-replace_operand o n alloca = refl
operands-replace_operand o n (load p b) = refl
operands-replace_operand o n (store v p) = refl
operands-replace_operand o n (get_element_ptr p is) = refl
operands-replace_operand o n (insert_value a v) = refl
operands-replace_operand o n (extract_value a) = refl
operands-replace_operand o n (arc op v) = refl
operands-replace_operand o n (store_weak v p) = refl
operands-replace_operand o n (load_weak p) = refl
operands-replace_operand o n (binary op l r) = refl
operands-replace_operand o n (cast op v) = refl
operands-replace_operand o n (compare_int p l r) = refl
operands-replace_operand o n (compare_float l r) = refl
operands-replace_operand o n (phi incoming) = firsts-pairs_replaced o n incoming
operands-replace_operand o n (call f args) = refl
operands-replace_operand o n (invoke f args t u) = refl
operands-replace_operand o n landing_pad = refl
operands-replace_operand o n (resume v) = refl
operands-replace_operand o n (throw v u) = refl
operands-replace_operand o n (inline_asm args) = refl
operands-replace_operand o n (make_closure f cs) = refl
operands-replace_operand o n (make_shared v) = refl
operands-replace_operand o n (spawn c) = refl
operands-replace_operand o n (await p) = refl
operands-replace_operand o n (atomic_load p) = refl
operands-replace_operand o n (atomic_store v p) = refl
operands-replace_operand o n (atomic_rmw p v) = refl
operands-replace_operand o n (atomic_cmp_xchg p e d) = refl
operands-replace_operand o n fence = refl

abbrev pub operands_of : List Instruction → List ℕ
operands_of [] = []
operands_of (i ∷ is) = extract_operands i.inst ++ operands_of is

-- The operands of the instructions of some blocks.
abbrev pub block_operands : List Block → List ℕ
block_operands [] = []
block_operands (b ∷ bs) = operands_of b.instructions ++ block_operands bs

-- The addresses of their instructions.
abbrev pub block_addresses : List Block → List ℕ
block_addresses [] = []
block_addresses (b ∷ bs) = inst_addresses b.instructions ++ block_addresses bs

all_replaced-append :
    (o n : ℕ) (xs ys : List ℕ)
    → all_replaced o n (xs ++ ys) ≡ all_replaced o n xs ++ all_replaced o n ys
all_replaced-append o n [] ys = refl
all_replaced-append o n (x ∷ xs) ys = ap (◌∷◌ (replaced o n x)) (all_replaced-append o n xs ys)

operands_of-replace_uses :
    (o n : ℕ) (is : List Instruction)
    → operands_of (replace_uses o n is) ≡ all_replaced o n (operands_of is)
operands_of-replace_uses o n [] = refl
operands_of-replace_uses o n (i ∷ is) =
    rw (operands-replace_operand o n i.inst, operands_of-replace_uses o n is)
      (sym (all_replaced-append o n (extract_operands i.inst) (operands_of is)))

pub block_operands-replace_locally :
    (o n : ℕ) (bs : List Block)
    → block_operands (replace_locally o n bs) ≡ all_replaced o n (block_operands bs)
block_operands-replace_locally o n [] = refl
block_operands-replace_locally o n (b ∷ bs) =
    rw (operands_of-replace_uses o n b.instructions, block_operands-replace_locally o n bs)
      (sym (all_replaced-append o n (operands_of b.instructions) (block_operands bs)))

inst_addresses-replace_uses :
    (o n : ℕ) (is : List Instruction) → inst_addresses (replace_uses o n is) ≡ inst_addresses is
inst_addresses-replace_uses o n [] = refl
inst_addresses-replace_uses o n (i ∷ is) = ap (◌∷◌ i.id) (inst_addresses-replace_uses o n is)

pub block_addresses-replace_locally :
    (o n : ℕ) (bs : List Block) → block_addresses (replace_locally o n bs) ≡ block_addresses bs
block_addresses-replace_locally o n [] = refl
block_addresses-replace_locally o n (b ∷ bs) =
    rw (inst_addresses-replace_uses o n b.instructions, block_addresses-replace_locally o n bs) refl

-- What is an operand behind a replacement was one, and is not what was replaced, or it is the new
-- value.
pub contains-all_replaced :
    (o n w : ℕ) (vs : List ℕ)
    → contains w (all_replaced o n vs) ≡ true
    → ((contains w vs && not (w == o)) || w == n) ≡ true
contains-all_replaced o n w [] h = cc
contains-all_replaced o n w (v ∷ vs) h = elim (Bool-cases (contains w (all_replaced o n vs))) [
  | inl later ↦ ground (arith, contains-all_replaced o n w vs later)
  | inr later ↦ elim (Bool-cases (v == o)) [
    | inl e ↦ let new : (w == n) ≡ true = ground (arith, later, e) in ground (arith, new)
    | inr e ↦
        let here : (w == v) ≡ true = ground (arith, later, e) in
        let same : w ≡ v = (==_iff w v).0 here in
        let other : (w == o) ≡ false = ap (λ x. x == o) same ∙ e in ground (arith, here, other)
  ]
]
