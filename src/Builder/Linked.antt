-- ===== src/Builder/Linked.antt =====
-- The edges that a builder adds before an instruction are those that the instruction adds.
use moksha.Base.{
  ℕ, ◌≡◌, ◌==◌, refl, ap, sym, ◌∙◌, true, false, ◌&&◌, ◌||◌, Option, some, List, [], ◌∷◌, arith,
  if◌then◌else◌, Bool-cases, inl, inr, ==_iff,
}
use moksha.Mir.{br, cond_br, switch, ret, invoke, throw, Instruction, Block}
use moksha.Mir.Blocks.{
  push_new, add_successor, add_predecessor, update, targets, link, link_all, push_instruction,
  add_instruction,
}
use moksha.Worklist.{contains}
use moksha.SimplifyCfg.Links.{contains-push_new}
use moksha.Builder.{
  Builder, insert, link_current, create_br, create_cond_br, create_ret, create_switch,
  create_invoke, create_throw,
}

abbrev on : ℕ → (Block → Block) → Block → Block
on a f c = if a == c.id then f c else c

abbrev each : (Block → Block) → List Block → List Block
each f [] = []
each f (c ∷ cs) = f c ∷ each f cs

update-each : (a : ℕ) (f : Block → Block) (bs : List Block) → update a f bs ≡ each (on a f) bs
unfolding update
update-each a f [] = refl
update-each a f (c ∷ bs) = elim (Bool-cases (a == c.id)) [
  | inl e ↦ rw (e, update-each a f bs) refl
  | inr e ↦ rw (e, update-each a f bs) refl
]

each-each : (f g : Block → Block) (bs : List Block) → each f (each g bs) ≡ each (λ c. f (g c)) bs
each-each f g [] = refl
each-each f g (c ∷ bs) = ap (◌∷◌ (f (g c))) (each-each f g bs)

each-same :
    (f g : Block → Block) (bs : List Block) → ((c : Block) → f c ≡ g c) → each f bs ≡ each g bs
each-same f g [] h = refl
each-same f g (c ∷ bs) h = rw (h c, each-same f g bs h) refl

abbrev linked : ℕ → ℕ → Block → Block
linked b t c = on t (add_predecessor b) (on b (add_successor t) c)

abbrev linked_all : ℕ → List ℕ → Block → Block
linked_all b [] c = c
linked_all b (t ∷ ts) c = linked_all b ts (linked b t c)

each_id : (bs : List Block) → each (λ c. c) bs ≡ bs
each_id [] = refl
each_id (c ∷ bs) = ap (◌∷◌ c) (each_id bs)

link_all-each :
    (b : ℕ) (ts : List ℕ) (bs : List Block) → link_all b ts bs ≡ each (linked_all b ts) bs
unfolding link
link_all-each b [] bs = sym (each_id bs)
link_all-each b (t ∷ ts) bs =
    link_all-each b ts (link b t bs)
    ∙ ap (each (linked_all b ts)) (
        update-each t (add_predecessor b) (update b (add_successor t) bs)
        ∙ ap (each (on t (add_predecessor b))) (update-each b (add_successor t) bs)
        ∙ each-each (on t (add_predecessor b)) (on b (add_successor t)) bs)
    ∙ each-each (linked_all b ts) (linked b t) bs

-- The block has the edges already.
record IsLinked (b : ℕ) (ts : List ℕ) (c : Block) : Type 0 where
  leads_on : (t : ℕ) → contains t ts ≡ true → (b == c.id) ≡ true → contains t c.successors ≡ true
  comes_from : contains c.id ts ≡ true → contains b c.predecessors ≡ true

push_new-there : (a : ℕ) (xs : List ℕ) → contains a xs ≡ true → push_new a xs ≡ xs
push_new-there a xs h = rw h refl

linked-IsLinked : (b t : ℕ) (ts : List ℕ) (c : Block) → IsLinked b (t ∷ ts) c → linked b t c ≡ c
linked-IsLinked b t ts c i = ap (on t (add_predecessor b)) forth ∙ back
  where
    forth : on b (add_successor t) c ≡ c
    forth = elim (Bool-cases (b == c.id)) [
      | inr e ↦ rw e refl
      | inl e ↦ rw e (
          ap (λ k. record c { successors = k })
            (push_new-there t c.successors (i.leads_on t (ground arith) e)))
    ]

    back : on t (add_predecessor b) c ≡ c
    back = elim (Bool-cases (t == c.id)) [
      | inr e ↦ rw e refl
      | inl e ↦
          let here : (c.id == t) ≡ true = (==_iff c.id t).1 (sym ((==_iff t c.id).0 e)) in
          rw e (
            ap (λ k. record c { predecessors = k })
              (push_new-there b c.predecessors (i.comes_from (ground (arith, here)))))
    ]

linked_all-IsLinked : (b : ℕ) (ts : List ℕ) (c : Block) → IsLinked b ts c → linked_all b ts c ≡ c
linked_all-IsLinked b [] c i = refl
linked_all-IsLinked b (t ∷ ts) c i =
    let same = linked-IsLinked b t ts c i in
    rw same (
      linked_all-IsLinked b ts c (record {
        leads_on = λ s h. i.leads_on s (ground (arith, h));
        comes_from = λ h. i.comes_from (ground (arith, h));
      }))

linked-edges :
    (b t : ℕ) (c : Block)
    → ((linked b t c).id ≡ c.id)
      × ((a : ℕ)
          → contains a (linked b t c).successors
            ≡ (contains a c.successors || (b == c.id && a == t)))
      × ((p : ℕ)
          → contains p (linked b t c).predecessors
            ≡ (contains p c.predecessors || (c.id == t && p == b)))
linked-edges b t c = elim (Bool-cases (b == c.id)) [
  | inl e ↦ elim (Bool-cases (t == c.id)) [
    | inl f ↦
        let here : (c.id == t) ≡ true = (==_iff c.id t).1 (sym ((==_iff t c.id).0 f)) in
        rw e (
          rw f (
            refl,
            (λ a. contains-push_new a t c.successors),
            (λ p. ground (arith, contains-push_new p b c.predecessors, here)),
          ))
    | inr f ↦
        let off : (c.id == t) ≡ false = ground arith in
        rw e (rw f (refl, (λ a. contains-push_new a t c.successors), (λ p. ground (arith, off))))
  ]
  | inr e ↦ elim (Bool-cases (t == c.id)) [
    | inl f ↦
        let here : (c.id == t) ≡ true = (==_iff c.id t).1 (sym ((==_iff t c.id).0 f)) in
        rw e (
          rw f (
            refl,
            (λ a. ground arith),
            (λ p. ground (arith, contains-push_new p b c.predecessors, here)),
          ))
    | inr f ↦
        let off : (c.id == t) ≡ false = ground arith in
        rw e (rw f (refl, (λ a. ground arith), (λ p. ground (arith, off))))
  ]
]

linked_all-edges :
    (b : ℕ) (ts : List ℕ) (c : Block)
    → ((linked_all b ts c).id ≡ c.id)
      × ((a : ℕ)
          → contains a (linked_all b ts c).successors
            ≡ (contains a c.successors || (b == c.id && contains a ts)))
      × ((p : ℕ)
          → contains p (linked_all b ts c).predecessors
            ≡ (contains p c.predecessors || (contains c.id ts && p == b)))
linked_all-edges b [] c = (refl, (λ a. ground arith), (λ p. ground arith))
linked_all-edges b (t ∷ ts) c =
    let (same, forth, back) = linked_all-edges b ts (linked b t c) in
    let (same_one, forth_one, back_one) = linked-edges b t c in
    let test : (b == (linked b t c).id) ≡ (b == c.id) = ap (λ k. b == k) same_one in
    let member : contains (linked b t c).id ts ≡ contains c.id ts =
      ap (λ k. contains k ts) same_one in
    (
      same ∙ same_one,
      (λ a. let later = forth a in let here = forth_one a in ground (arith, later, here, test)),
      (λ p. let later = back p in let here = back_one p in ground (arith, later, here, member)),
    )

-- Linking the same blocks again changes nothing.
link_all-link_all :
    (b : ℕ) (ts : List ℕ) (bs : List Block) → link_all b ts (link_all b ts bs) ≡ link_all b ts bs
link_all-link_all b ts bs =
    link_all-each b ts (link_all b ts bs)
    ∙ ap (each (linked_all b ts)) (link_all-each b ts bs)
    ∙ each-each (linked_all b ts) (linked_all b ts) bs
    ∙ each-same (λ c. linked_all b ts (linked_all b ts c)) (linked_all b ts) bs
        (λ c. linked_all-IsLinked b ts (linked_all b ts c) (linked_all-linked b ts c))
    ∙ sym (link_all-each b ts bs)
  where
    linked_all-linked : (b : ℕ) (ts : List ℕ) (c : Block) → IsLinked b ts (linked_all b ts c)
    linked_all-linked b ts c =
        let (same, forth, back) = linked_all-edges b ts c in
        record {
          leads_on = λ t h e.
              let e2 : (b == c.id) ≡ true = ap (λ k. b == k) (sym same) ∙ e in
              let known = forth t in ground (arith, known, h, e2);
          comes_from = λ h.
              let h2 : contains c.id ts ≡ true = ap (λ k. contains k ts) (sym same) ∙ h in
              let known = back b in
              let self = (==_iff b b).1 refl in ground (arith, known, h2, self);
        }

-- The builder with an instruction in the block `b`, put in by `addInstruction` alone.
pub added : ℕ → Instruction → Builder → Builder
added b i m = record m { blocks = add_instruction b i m.blocks }

insert-linked :
    (b : ℕ) (i : Instruction) (m : Builder)
    → m.current_block ≡ some b
    → insert i (link_current (targets i.inst) m) ≡ some (added b i m)
unfolding added add_instruction
insert-linked b i m e = rw e (
    ap (λ bs. some (record { current_block = some b; blocks = update b (push_instruction i) bs }))
      (link_all-link_all b (targets i.inst) m.blocks))

-- With the insert point in block `b`, the builder's terminators do what `addInstruction` alone does:
-- the edges that they add first are not added twice.
pub create-added :
    (a b : ℕ) (m : Builder)
    → m.current_block ≡ some b
    → ((d : ℕ) → create_br a d m ≡ some (added b (record { id = a; inst = br d }) m))
      × ((c t f : ℕ)
          → create_cond_br a c t f m ≡ some (added b (record { id = a; inst = cond_br c t f }) m))
      × ((v : Option ℕ) → create_ret a v m ≡ some (added b (record { id = a; inst = ret v }) m))
      × ((c d : ℕ)
          → create_switch a c d m ≡ some (added b (record { id = a; inst = switch c d [] }) m))
      × ((f : ℕ) (args : List ℕ) (n : ℕ) (u : Option ℕ)
          → create_invoke a f args n u m
            ≡ some (added b (record { id = a; inst = invoke f args n u }) m))
      × ((v : ℕ) (u : Option ℕ)
          → create_throw a v u m ≡ some (added b (record { id = a; inst = throw v u }) m))
unfolding create_br create_cond_br create_ret create_switch create_invoke create_throw targets added
create-added a b m e = (
  (λ d. insert-linked b (record { id = a; inst = br d }) m e),
  (λ c t f. insert-linked b (record { id = a; inst = cond_br c t f }) m e),
  (λ v. ret_added v),
  (λ c d. insert-linked b (record { id = a; inst = switch c d [] }) m e),
  (λ f args n u. insert-linked b (record { id = a; inst = invoke f args n u }) m e),
  (λ v u. insert-linked b (record { id = a; inst = throw v u }) m e),
)
  where
    ret_added :
        (v : Option ℕ) → create_ret a v m ≡ some (added b (record { id = a; inst = ret v }) m)
    ret_added v = rw e refl
