-- ===== src/SimplifyCfg/Folding.antt =====
-- The edge of a folded branch.
use moksha.Base.{
  ℕ, ◌≡◌, ◌≢◌, ◌==◌, refl, ap, ◌∙◌, true, false, Option, none, some, List, [], ◌∷◌, ◌++◌, arith,
  Bool-cases, inl, inr,
}
use moksha.Mir.{br, Instruction, Block}
use moksha.Mir.Blocks.{
  remove_all, add_successor, add_predecessor, remove_successor, remove_predecessor, update,
  find_block, targets, link, push_instruction, add_instruction, update_phis,
}
use moksha.Worklist.{contains}
use moksha.SimplifyCfg.{last_inst, pop_instruction, erase_first, fold_branch}

abbrev pub mapped : (Block → Block) → Option Block → Option Block
mapped f none = none
mapped f (some b) = some (f b)

-- A change that keeps the address.
abbrev KeepsId : (Block → Block) → Type 0
KeepsId f = (b : Block) → (f b).id ≡ b.id

pub find_block-update :
    (a : ℕ) (f : Block → Block) (bs : List Block)
    → KeepsId f
    → find_block a (update a f bs) ≡ mapped f (find_block a bs)
unfolding find_block update
find_block-update a f [] k = refl
find_block-update a f (b ∷ bs) k = elim (Bool-cases (a == b.id)) [
  | inl e ↦ let e2 : (a == (f b).id) ≡ true = ap (λ n. a == n) (k b) ∙ e in rw (e, e2) refl
  | inr e ↦ rw e (rw e (find_block-update a f bs k))
]

pub find_block-update_other :
    (a c : ℕ) (f : Block → Block) (bs : List Block)
    → KeepsId f
    → (a == c) ≡ false
    → find_block a (update c f bs) ≡ find_block a bs
unfolding find_block update
find_block-update_other a c f [] k n = refl
find_block-update_other a c f (b ∷ bs) k n = elim (Bool-cases (c == b.id)) [
  | inl e ↦
      let id_differs : (a == b.id) ≡ false = ground arith in
      let f_differs : (a == (f b).id) ≡ false = ap (λ m. a == m) (k b) ∙ id_differs in
      rw (e, f_differs, id_differs) (find_block-update_other a c f bs k n)
  | inr e ↦ elim (Bool-cases (a == b.id)) [
    | inl i ↦ rw e (rw i refl)
    | inr i ↦ rw e (rw i (find_block-update_other a c f bs k n))
  ]
]

contains-remove_all : (a : ℕ) (bs : List ℕ) → contains a (remove_all a bs) ≡ false
unfolding remove_all
contains-remove_all a [] = refl
contains-remove_all a (b ∷ bs) = ground (arith, contains-remove_all a bs)

last_inst-append :
    (is : List Instruction) (i : Instruction) → last_inst (is ++ (i ∷ [])) ≡ some i.inst
last_inst-append [] i = refl
last_inst-append (j ∷ []) i = refl
last_inst-append (j ∷ k ∷ is) i = last_inst-append (k ∷ is) i

-- Block `a` behind the folding of its branch to the block `t`.
abbrev folded : ℕ → ℕ → Block → Block
folded new t b =
    remove_successor t
      (push_instruction (record { id = new; inst = br t }) (add_successor t (pop_instruction b)))

find_block-fold_branch :
    (fresh : ℕ → ℕ) (a t : ℕ) (bs : List Block)
    → (a == t) ≡ false
    → find_block a (fold_branch fresh a t bs) ≡ mapped (folded (fresh a) t) (find_block a bs)
unfolding fold_branch add_instruction targets link
find_block-fold_branch fresh a t bs n =
    let i : Instruction = record { id = fresh a; inst = br t } in
    let popped = update a pop_instruction bs in
    let linked = update a (add_successor t) popped in
    let back = update t (add_predecessor a) linked in
    let pushed = update a (push_instruction i) back in
    let cut = update a (remove_successor t) pushed in
    find_block-update_other a t (update_phis (erase_first a)) (update t (remove_predecessor a) cut)
      (λ b. refl) n
    ∙ find_block-update_other a t (remove_predecessor a) cut (λ b. refl) n
    ∙ find_block-update a (remove_successor t) pushed (λ b. refl)
    ∙ ap (mapped (remove_successor t)) (
        find_block-update a (push_instruction i) back (λ b. refl)
        ∙ ap (mapped (push_instruction i)) (
            find_block-update_other a t (add_predecessor a) linked (λ b. refl) n
            ∙ find_block-update a (add_successor t) popped (λ b. refl)
            ∙ ap (mapped (add_successor t)) (find_block-update a pop_instruction bs (λ b. refl))))
    ∙ together (find_block a bs)
  where
    together :
        (o : Option Block)
        → mapped (remove_successor t) (
            mapped
              (push_instruction (record { id = fresh a; inst = br t }))
              (mapped (add_successor t) (mapped pop_instruction o)))
          ≡ mapped (folded (fresh a) t) o
    together none = refl
    together (some b) = refl

-- Behind the folding of the branch of a block to another block `t` the block ends in a branch to
-- `t`, but `t` is not among its successors: the edge is lost.
pub fold_branch_unlinked :
    (fresh : ℕ → ℕ) (a t : ℕ) (bs : List Block) (b : Block)
    → a ≢ t
    → find_block a bs ≡ some b
    → (c : Block) × (find_block a (fold_branch fresh a t bs) ≡ some c)
      × (last_inst c.instructions ≡ some (br t))
      × (contains t c.successors ≡ false)
fold_branch_unlinked fresh a t bs b n e =
    let differ : (a == t) ≡ false = ground arith in
    let c = folded (fresh a) t b in
    (
      c,
      find_block-fold_branch fresh a t bs differ ∙ ap (mapped (folded (fresh a) t)) e,
      last_inst-append (pop_instruction b).instructions (record { id = fresh a; inst = br t }),
      contains-remove_all t (add_successor t (pop_instruction b)).successors,
    )
