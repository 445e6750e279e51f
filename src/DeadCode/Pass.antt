-- ===== src/DeadCode/Pass.antt =====
-- `DeadCodeEliminationPass::runOnModule` in lib/middle/mir/passes/DeadCodeEliminationPass.cpp: its
-- three steps, one after another.
use moksha.Base.{ℕ, ◌≡◌, ◌↔◌, refl, ap, sym, ◌∙◌, true, false, Option, none, some, List, [], ◌∷◌}
use moksha.Mir.{Block, Function, MirModule}
use moksha.Mir.Blocks.{find_block, addresses, successors_of}
use moksha.Mir.Addresses.{addresses-update}
use moksha.Worklist.{contains, Reaches}
use moksha.DeadCode.{sweep, alive, sweep_blocks, sweep_functions}
use moksha.DeadCode.Unreachable.{entry_seeds, remove_unreachable, remove_unreachable_all}
use moksha.DeadCode.Kept.{remove_unreachable-Reaches}
use moksha.DeadCode.Phis.{
  replace_locally, erase_in, value_in, drop_phi, visit_inst, visit_insts, addresses_in,
  visit_blocks, eliminate_phis,
}

abbrev pub eliminate_phis_all : (ℕ → ℕ) → List Function → List Function
eliminate_phis_all undef [] = []
eliminate_phis_all undef (f ∷ fs) =
    record f { blocks = eliminate_phis undef f.blocks } ∷ eliminate_phis_all undef fs

unfoldable pub eliminate_dead_code : (ℕ → ℕ) → MirModule → MirModule
eliminate_dead_code undef m =
    sweep (record m { functions = eliminate_phis_all undef (remove_unreachable_all m.functions) })

addresses-replace_locally :
    (o n : ℕ) (bs : List Block) → addresses (replace_locally o n bs) ≡ addresses bs
addresses-replace_locally o n [] = refl
addresses-replace_locally o n (b ∷ bs) = ap (◌∷◌ b.id) (addresses-replace_locally o n bs)

addresses-drop_phi :
    (b a : ℕ) (o : Option ℕ) (bs : List Block) → addresses (drop_phi b a o bs) ≡ addresses bs
addresses-drop_phi b a none bs = refl
addresses-drop_phi b a (some v) bs =
    addresses-update b (erase_in a) (replace_locally a v bs) (λ c. refl)
    ∙ addresses-replace_locally a v bs

addresses-visit_insts :
    (undef : ℕ → ℕ) (b : ℕ) (todo : List ℕ) (bs : List Block)
    → addresses (visit_insts undef b todo bs) ≡ addresses bs
unfolding visit_inst
addresses-visit_insts undef b [] bs = refl
addresses-visit_insts undef b (a ∷ todo) bs =
    addresses-visit_insts undef b todo (visit_inst undef b a bs)
    ∙ addresses-drop_phi b a (value_in (undef a) a (find_block b bs)) bs

addresses-visit_blocks :
    (undef : ℕ → ℕ) (todo : List ℕ) (bs : List Block)
    → addresses (visit_blocks undef todo bs) ≡ addresses bs
addresses-visit_blocks undef [] bs = refl
addresses-visit_blocks undef (b ∷ todo) bs =
    addresses-visit_blocks undef todo (visit_insts undef b (addresses_in (find_block b bs)) bs)
    ∙ addresses-visit_insts undef b (addresses_in (find_block b bs)) bs

addresses-sweep_blocks :
    (live : List ℕ) (bs : List Block) → addresses (sweep_blocks live bs) ≡ addresses bs
addresses-sweep_blocks live [] = refl
addresses-sweep_blocks live (b ∷ bs) = ap (◌∷◌ b.id) (addresses-sweep_blocks live bs)

-- Function by function, the blocks that are left are those that the entry leads to.
abbrev pub AllLeft : List Function → List Function → Type 0
AllLeft [] [] = true ≡ true
AllLeft (f ∷ fs) (g ∷ gs) =
    ((a : ℕ)
      → (contains a (addresses g.blocks) ≡ true) ↔ (
          (contains a (addresses f.blocks) ≡ true)
          × Reaches (successors_of f.blocks) (entry_seeds f.blocks) a))
    × AllLeft fs gs
AllLeft _ _ = true ≡ false

sweep_functions-AllLeft :
    (undef : ℕ → ℕ) (live : List ℕ) (fs : List Function)
    → AllLeft fs (sweep_functions live (eliminate_phis_all undef (remove_unreachable_all fs)))
unfolding eliminate_phis
sweep_functions-AllLeft undef live [] = refl
sweep_functions-AllLeft undef live (f ∷ fs) =
    let left = remove_unreachable f.blocks in
    let same =
      addresses-sweep_blocks live (eliminate_phis undef left)
      ∙ addresses-visit_blocks undef (addresses left) left in
    (
      (λ a.
          let (forth, back) = remove_unreachable-Reaches f.blocks a in
          ((λ h. forth (ap (contains a) (sym same) ∙ h)), (λ h. ap (contains a) same ∙ back h))),
      sweep_functions-AllLeft undef live fs,
    )

-- The whole pass leaves of each function exactly the blocks that its entry leads to.
pub eliminate_dead_code-AllLeft :
    (undef : ℕ → ℕ) (m : MirModule) → AllLeft m.functions (eliminate_dead_code undef m).functions
unfolding eliminate_dead_code sweep
eliminate_dead_code-AllLeft undef m =
    sweep_functions-AllLeft undef
      (alive
        (record m { functions = eliminate_phis_all undef (remove_unreachable_all m.functions) }))
      m.functions
