-- ===== src/DeadCode/Closed.antt =====
-- The elimination of phi instructions erases no instruction that is still in use.
use moksha.Base.{
  ℕ, ◌≡◌, ◌==◌, refl, ap, sym, ◌∙◌, Bool, true, false, not, ◌&&◌, ◌||◌, Option, none, some, List,
  [], ◌∷◌, arith, if◌then◌else◌, Bool-cases, inl, inr, ==_iff,
}
use moksha.Mir.{Inst, phi}
use moksha.Mir.{Instruction, Block}
use moksha.Mir.Operands.{all_replaced}
use moksha.Mir.Blocks.{find_block, addresses}
use moksha.Worklist.{contains}
use moksha.Worklist.Bounds.{contains-append}
use moksha.DeadCode.{extract_operands, firsts}
use moksha.DeadCode.Phis.{
  replace_locally, phi_value, phi_inst, value_at, value_in, drop_phi, visit_inst, visit_insts,
  addresses_in, visit_blocks, eliminate_phis,
}
use moksha.DeadCode.Replaced.{
  operands_of, block_operands, block_addresses, block_operands-replace_locally,
  block_addresses-replace_locally, contains-all_replaced,
}
use moksha.DeadCode.Erased.{block_operands-erase_in, block_addresses-erase_in}

-- The value that a phi instruction is replaced by is the undefined one, or one of its operands and
-- not the instruction itself.
abbrev Usable : ℕ → ℕ → ℕ → List ℕ → Type 0
Usable undef a v operands = ((v == undef) || (not (v == a) && contains v operands)) ≡ true

value_if : (test : Bool) {x v : ℕ} → (if test then some x else none) ≡ some v → x ≡ v
value_if true h = cc
value_if false h = cc

phi_value-Usable :
    (undef a : ℕ) (preds : List ℕ) (incoming : List (ℕ × ℕ)) (v : ℕ)
    → phi_value undef a preds incoming ≡ some v
    → Usable undef a v (firsts incoming)
unfolding phi_value
phi_value-Usable undef a preds [] v h =
    let new : v ≡ undef = cc in let test = (==_iff v undef).1 new in ground (arith, test)
phi_value-Usable undef a preds ((x, b) ∷ []) v h = elim (Bool-cases (x == a)) [
  | inl e ↦
      let new : undef ≡ v = ap (λ k. if k then undef else x) (sym e) ∙ value_if _ h in
      let test = (==_iff v undef).1 (sym new) in ground (arith, test)
  | inr e ↦
      let old : x ≡ v = ap (λ k. if k then undef else x) (sym e) ∙ value_if _ h in
      let test = (==_iff v x).1 (sym old) in
      let other : (v == a) ≡ false = ap (λ k. k == a) (sym old) ∙ e in ground (arith, test, other)
]
phi_value-Usable undef a preds (p ∷ q ∷ ps) v h = cc

phi_inst-Usable :
    (undef a : ℕ) (preds : List ℕ) (i : Inst) (v : ℕ)
    → phi_inst undef a preds i ≡ some v
    → Usable undef a v (extract_operands i)
unfolding extract_operands
phi_inst-Usable undef a preds (phi incoming) v h = phi_value-Usable undef a preds incoming v h
phi_inst-Usable undef a preds _ v h = cc

Usable-more :
    (undef a v : ℕ) (xs ys : List ℕ)
    → Usable undef a v xs
    → (contains v xs ≡ true → contains v ys ≡ true)
    → Usable undef a v ys
Usable-more undef a v xs ys u more = ground (arith, more)

value_at-Usable :
    (undef a : ℕ) (preds : List ℕ) (is : List Instruction) (v : ℕ)
    → value_at undef a preds is ≡ some v
    → Usable undef a v (operands_of is)
value_at-Usable undef a preds [] v h = cc
value_at-Usable undef a preds (i ∷ is) v h = elim (Bool-cases (a == i.id)) [
  | inl e ↦
      let found : phi_inst undef a preds i.inst ≡ some v =
        ap (λ k. if k then phi_inst undef a preds i.inst else value_at undef a preds is) (sym e)
        ∙ h in
      Usable-more undef a v (extract_operands i.inst) (operands_of (i ∷ is))
        (phi_inst-Usable undef a preds i.inst v found)
        (λ here. ground (arith, contains-append v (extract_operands i.inst) (operands_of is)))
  | inr e ↦
      let found : value_at undef a preds is ≡ some v =
        ap (λ k. if k then phi_inst undef a preds i.inst else value_at undef a preds is) (sym e)
        ∙ h in
      Usable-more undef a v (operands_of is) (operands_of (i ∷ is))
        (value_at-Usable undef a preds is v found)
        (λ here. ground (arith, contains-append v (extract_operands i.inst) (operands_of is)))
]

value_in-Usable :
    (undef a b : ℕ) (bs : List Block) (v : ℕ)
    → value_in undef a (find_block b bs) ≡ some v
    → Usable undef a v (block_operands bs)
unfolding find_block
value_in-Usable undef a b [] v h = cc
value_in-Usable undef a b (c ∷ bs) v h = elim (Bool-cases (b == c.id)) [
  | inl e ↦
      let found : value_at undef a c.predecessors c.instructions ≡ some v =
        ap (λ k. value_in undef a (if k then some c else find_block b bs)) (sym e) ∙ h in
      Usable-more undef a v (operands_of c.instructions) (block_operands (c ∷ bs))
        (value_at-Usable undef a c.predecessors c.instructions v found)
        (λ here. ground (arith, contains-append v (operands_of c.instructions) (block_operands bs)))
  | inr e ↦
      let found : value_in undef a (find_block b bs) ≡ some v =
        ap (λ k. value_in undef a (if k then some c else find_block b bs)) (sym e) ∙ h in
      Usable-more undef a v (block_operands bs) (block_operands (c ∷ bs))
        (value_in-Usable undef a b bs v found)
        (λ here. ground (arith, contains-append v (operands_of c.instructions) (block_operands bs)))
]

-- Every operand that is an instruction of the function is in one of its blocks. `is_local` tells the
-- instructions of the function from other values.
unfoldable pub Closed : (ℕ → Bool) → List Block → Type 0
Closed is_local bs =
    (v : ℕ)
    → contains v (block_operands bs) ≡ true
    → is_local v ≡ true
    → contains v (block_addresses bs) ≡ true

module _ (is_local : ℕ → Bool) (undef : ℕ → ℕ)
    (constant : (a : ℕ) → is_local (undef a) ≡ false) where
  drop_phi-Closed :
      (b a v : ℕ) (bs : List Block)
      → Closed is_local bs
      → Usable (undef a) a v (block_operands bs)
      → Closed is_local (drop_phi b a (some v) bs)
  unfolding Closed
  drop_phi-Closed b a v bs closed u w h local =
      let shown = block_operands-erase_in b a w (replace_locally a v bs) h in
      let listed : contains w (all_replaced a v (block_operands bs)) ≡ true =
        ap (contains w) (sym (block_operands-replace_locally a v bs)) ∙ shown in
      let (other, mentioned) = kept listed in
      block_addresses-erase_in b a w (replace_locally a v bs) other
        (ap (contains w) (block_addresses-replace_locally a v bs) ∙ closed w mentioned local)
    where
      kept :
          contains w (all_replaced a v (block_operands bs)) ≡ true
          → ((w == a) ≡ false) × (contains w (block_operands bs) ≡ true)
      kept listed =
          let cases = contains-all_replaced a v w (block_operands bs) listed in
          elim (Bool-cases (w == v)) [
            | inr n ↦ ground (arith, cases, n)
            | inl e ↦
                let same : w ≡ v = (==_iff w v).0 e in
                let usable : ((w == undef a) || (not (w == a) && contains w (block_operands bs)))
                    ≡ true =
                  ap (λ x. (x == undef a) || (not (x == a) && contains x (block_operands bs))) same
                  ∙ u in
                let new : (w == undef a) ≡ false = elim (Bool-cases (w == undef a)) [
                  | inr i ↦ i
                  | inl i ↦
                      let foreign : is_local w ≡ false =
                        ap is_local ((==_iff w (undef a)).0 i) ∙ constant a in
                      cc
                ] in
                ground (arith, usable, new)
          ]

  visit_inst-Closed :
      (b a : ℕ) (bs : List Block) → Closed is_local bs → Closed is_local (visit_inst undef b a bs)
  unfolding visit_inst
  visit_inst-Closed b a bs closed = go (value_in (undef a) a (find_block b bs)) refl
    where
      go :
          (o : Option ℕ)
          → value_in (undef a) a (find_block b bs) ≡ o
          → Closed is_local (drop_phi b a o bs)
      go none e = closed
      go (some v) e = drop_phi-Closed b a v bs closed (value_in-Usable (undef a) a b bs v e)

  visit_insts-Closed :
      (b : ℕ) (todo : List ℕ) (bs : List Block)
      → Closed is_local bs
      → Closed is_local (visit_insts undef b todo bs)
  visit_insts-Closed b [] bs closed = closed
  visit_insts-Closed b (a ∷ todo) bs closed =
      visit_insts-Closed b todo (visit_inst undef b a bs) (visit_inst-Closed b a bs closed)

  visit_blocks-Closed :
      (todo : List ℕ) (bs : List Block)
      → Closed is_local bs
      → Closed is_local (visit_blocks undef todo bs)
  visit_blocks-Closed [] bs closed = closed
  visit_blocks-Closed (b ∷ todo) bs closed =
      visit_blocks-Closed todo (visit_insts undef b (addresses_in (find_block b bs)) bs)
        (visit_insts-Closed b (addresses_in (find_block b bs)) bs closed)

  -- The elimination erases no phi instruction that an operand still names, where the undefined
  -- values are no instructions of the function: if every operand that is an instruction of the
  -- function is in its blocks, this holds behind the elimination too.
  pub eliminate_phis-Closed :
      (bs : List Block) → Closed is_local bs → Closed is_local (eliminate_phis undef bs)
  unfolding eliminate_phis
  eliminate_phis-Closed bs closed = visit_blocks-Closed (addresses bs) bs closed
