-- ===== src/DeadCode/Erased.antt =====
-- The operands and the addresses of instructions behind the erasure of one.
use moksha.Base.{ℕ, ◌≡◌, ◌==◌, true, false, List, [], ◌∷◌, arith, Bool-cases, inl, inr}
use moksha.Mir.{Instruction, Block}
use moksha.Mir.Blocks.{update}
use moksha.Worklist.{contains}
use moksha.Worklist.Bounds.{contains-append}
use moksha.DeadCode.{extract_operands}
use moksha.DeadCode.Phis.{erase_inst, erase_in, inst_addresses}
use moksha.DeadCode.Replaced.{operands_of, block_operands, block_addresses}

operands_of-erase_inst :
    (a w : ℕ) (is : List Instruction)
    → contains w (operands_of (erase_inst a is)) ≡ true
    → contains w (operands_of is) ≡ true
operands_of-erase_inst a w [] h = h
operands_of-erase_inst a w (i ∷ is) h = elim (Bool-cases (a == i.id)) [
  | inl e ↦
      let rest : contains w (operands_of is) ≡ true = ground (arith, e) in
      ground (arith, rest, contains-append w (extract_operands i.inst) (operands_of is))
  | inr e ↦
      let before = contains-append w (extract_operands i.inst) (operands_of is) in
      let behind = contains-append w (extract_operands i.inst) (operands_of (erase_inst a is)) in
      ground (arith, e, before, behind, operands_of-erase_inst a w is)
]

pub block_operands-erase_in :
    (b a w : ℕ) (bs : List Block)
    → contains w (block_operands (update b (erase_in a) bs)) ≡ true
    → contains w (block_operands bs) ≡ true
unfolding update
block_operands-erase_in b a w [] h = h
block_operands-erase_in b a w (c ∷ bs) h =
    let before = contains-append w (operands_of c.instructions) (block_operands bs) in
    let others = block_operands-erase_in b a w bs in
    elim (Bool-cases (b == c.id)) [
      | inl e ↦
          let behind =
            contains-append w (operands_of (erase_inst a c.instructions))
              (block_operands (update b (erase_in a) bs)) in
          let here = operands_of-erase_inst a w c.instructions in
          ground (arith, e, before, behind, here, others)
      | inr e ↦
          let behind =
            contains-append w (operands_of c.instructions)
              (block_operands (update b (erase_in a) bs)) in
          ground (arith, e, before, behind, others)
    ]

inst_addresses-erase_inst :
    (a w : ℕ) (is : List Instruction)
    → (w == a) ≡ false
    → contains w (inst_addresses is) ≡ true
    → contains w (inst_addresses (erase_inst a is)) ≡ true
inst_addresses-erase_inst a w [] n h = h
inst_addresses-erase_inst a w (i ∷ is) n h = ground (arith, inst_addresses-erase_inst a w is n)

pub block_addresses-erase_in :
    (b a w : ℕ) (bs : List Block)
    → (w == a) ≡ false
    → contains w (block_addresses bs) ≡ true
    → contains w (block_addresses (update b (erase_in a) bs)) ≡ true
unfolding update
block_addresses-erase_in b a w [] n h = h
block_addresses-erase_in b a w (c ∷ bs) n h =
    let before = contains-append w (inst_addresses c.instructions) (block_addresses bs) in
    let others = block_addresses-erase_in b a w bs n in
    elim (Bool-cases (b == c.id)) [
      | inl e ↦
          let behind =
            contains-append w (inst_addresses (erase_inst a c.instructions))
              (block_addresses (update b (erase_in a) bs)) in
          let here = inst_addresses-erase_inst a w c.instructions n in
          ground (arith, e, before, behind, here, others)
      | inr e ↦
          let behind =
            contains-append w (inst_addresses c.instructions)
              (block_addresses (update b (erase_in a) bs)) in
          ground (arith, e, before, behind, others)
    ]
