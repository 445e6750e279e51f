-- ===== src/Tests/Jumps.antt =====
-- A jump that is threaded, and the theorem on its edge at it.
use moksha.Base.{ℕ, ◌≡◌, ◌==◌, ◌&&◌, Option, refl, true, none, some, List, [], ◌∷◌, arith}
use moksha.Mir.{switch, invoke, throw, br, cond_br, ret, call, phi, compare_int, ne, Block}
use moksha.Mir.Blocks.{
  successors_of, predecessors_of, addresses, find_block, update, remove_all, targets, link,
  add_instruction, with_phis, remove_incoming,
}
use moksha.Worklist.{contains}
use moksha.JumpThreading.{threads_of, thread_br, thread, thread_first, thread_jumps}
use moksha.JumpThreading.Edges.{IsEdge, thread-IsEdge}
use moksha.SimplifyCfg.{heal}
use moksha.SimplifyCfg.Healed.{leads, heal-leads}
use moksha.Builder.{
  Builder, create_br, create_cond_br, create_ret, create_switch, create_invoke, create_throw,
}
use moksha.Builder.Linked.{added, create-added}

-- The value 90 is null.
abbrev first_block : Block
first_block = record {
  id = 1;
  instructions = record { id = 10; inst = br 2 } ∷ [];
  predecessors = [];
  successors = 2 ∷ [];
}

-- The block calls a function between its phi instruction and its test.
abbrev test_block : Block
test_block = record {
  id = 2;
  instructions =
      record { id = 20; inst = phi ((90, 1) ∷ []) }
      ∷ record { id = 21; inst = call 91 [] }
      ∷ record { id = 22; inst = compare_int ne 20 90 }
      ∷ record { id = 23; inst = cond_br 22 3 4 }
      ∷ [];
  predecessors = 1 ∷ [];
  successors = 3 ∷ 4 ∷ [];
}

abbrev null_block : Block
null_block = record {
  id = 4;
  instructions = record { id = 40; inst = ret none } ∷ [];
  predecessors = 2 ∷ [];
  successors = [];
}

abbrev chain : List Block
chain = first_block ∷ test_block ∷ null_block ∷ []

abbrev successors_at : List Block → List ℕ
successors_at [] = []
successors_at (b ∷ bs) = b.successors

-- The first block is led past the call.
call_skipped : successors_at (thread_jumps (λ v. v == 90) (λ a. 50) chain).0 ≡ 4 ∷ []
unfolding thread_jumps threads_of thread_first thread thread_br add_instruction link targets update
    find_block remove_all with_phis remove_incoming
call_skipped = refl

at_1 : find_block 1 chain ≡ some first_block
unfolding find_block
at_1 = refl

at_4 : find_block 4 chain ≡ some null_block
unfolding find_block
at_4 = refl

threaded : thread (λ a. 50) 1 2 4 (some (br 2)) chain ≡ some (thread_br (λ a. 50) 1 2 4 chain)
unfolding thread
threaded = refl

branch_leads : contains 2 (targets (br 2)) ≡ true
unfolding targets
branch_leads = refl

thread-IsEdge_example : IsEdge 1 4 (thread_br (λ a. 50) 1 2 4 chain)
thread-IsEdge_example =
    thread-IsEdge (λ a. 50) 1 2 4 (br 2) chain (thread_br (λ a. 50) 1 2 4 chain) first_block
      null_block (ground arith) (ground arith) (ground arith) at_1 at_4 branch_leads threaded

heal-leads_example :
    (contains 4 (successors_of (heal chain) 2) ≡ (leads chain 2 4 && contains 2 (addresses chain)))
    × (contains 2 (predecessors_of (heal chain) 4)
        ≡ (leads chain 2 4 && contains 4 (addresses chain)))
heal-leads_example = heal-leads chain 2 4

abbrev builder : Builder
builder = record { current_block = some 4; blocks = chain }

create-added_example :
    ((d : ℕ) → create_br 60 d builder ≡ some (added 4 (record { id = 60; inst = br d }) builder))
    × ((c t f : ℕ)
        → create_cond_br 60 c t f builder
          ≡ some (added 4 (record { id = 60; inst = cond_br c t f }) builder))
    × ((v : Option ℕ)
        → create_ret 60 v builder ≡ some (added 4 (record { id = 60; inst = ret v }) builder))
    × ((c d : ℕ)
        → create_switch 60 c d builder
          ≡ some (added 4 (record { id = 60; inst = switch c d [] }) builder))
    × ((f : ℕ) (args : List ℕ) (n : ℕ) (u : Option ℕ)
        → create_invoke 60 f args n u builder
          ≡ some (added 4 (record { id = 60; inst = invoke f args n u }) builder))
    × ((v : ℕ) (u : Option ℕ)
        → create_throw 60 v u builder
          ≡ some (added 4 (record { id = 60; inst = throw v u }) builder))
create-added_example = create-added 60 4 builder refl
