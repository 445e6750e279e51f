-- ===== src/Builder.antt =====
-- The terminators of `MIRBuilder`: lib/middle/mir/MIRBuilder.cpp and include/moksha/MIR/MIRBuilder.h.
pub mod Linked
use moksha.Base.{ℕ, Option, none, some, List, [], ◌∷◌}
use moksha.Mir.{Inst, br, cond_br, switch, ret, invoke, throw, Instruction, Block}
use moksha.Mir.Blocks.{block_of, link_all, add_instruction}

-- The block that instructions are inserted in, and the blocks of its function.
pub record Builder : Type 0 where
  pub current_block : Option ℕ
  pub blocks : List Block

abbrev pub set_insert_point : ℕ → Builder → Builder
set_insert_point b m = record m { current_block = some b }

abbrev pub clear_insert_point : Builder → Builder
clear_insert_point m = record m { current_block = none }

abbrev insert_in : Instruction → Option ℕ → Builder → Option Builder
insert_in i none m = none
insert_in i (some b) m = some (record m { blocks = add_instruction b i m.blocks })

-- `none` is its failed assertion.
abbrev pub insert : Instruction → Builder → Option Builder
insert i m = insert_in i m.current_block m

abbrev linked_in : List ℕ → Option ℕ → Builder → Builder
linked_in ts none m = m
linked_in ts (some b) m = record m { blocks = link_all b ts m.blocks }

-- `if (currentBlock)`, the edges to some blocks.
abbrev pub link_current : List ℕ → Builder → Builder
link_current ts m = linked_in ts m.current_block m

-- The address of the new instruction comes first.
unfoldable pub create_br : ℕ → ℕ → Builder → Option Builder
create_br a dest m = insert (record { id = a; inst = br dest }) (link_current (dest ∷ []) m)

unfoldable pub create_cond_br : ℕ → ℕ → ℕ → ℕ → Builder → Option Builder
create_cond_br a cond t f m =
    insert (record { id = a; inst = cond_br cond t f }) (link_current (t ∷ f ∷ []) m)

unfoldable pub create_ret : ℕ → Option ℕ → Builder → Option Builder
create_ret a v m = insert (record { id = a; inst = ret v }) m

unfoldable pub create_switch : ℕ → ℕ → ℕ → Builder → Option Builder
create_switch a cond d m =
    insert (record { id = a; inst = switch cond d [] }) (link_current (d ∷ []) m)

unfoldable pub create_invoke : ℕ → ℕ → List ℕ → ℕ → Option ℕ → Builder → Option Builder
create_invoke a callee args n u m =
    insert (record { id = a; inst = invoke callee args n u }) (link_current (n ∷ block_of u) m)

unfoldable pub create_throw : ℕ → ℕ → Option ℕ → Builder → Option Builder
create_throw a v u m = insert (record { id = a; inst = throw v u }) (link_current (block_of u) m)
