-- ===== src/SimplifyCfg/Links.antt =====
-- The edges behind a new one.
use moksha.Base.{
  ℕ, ◌≡◌, ◌==◌, refl, ap, ◌∙◌, true, ◌&&◌, ◌||◌, List, [], ◌∷◌, ◌++◌, arith, Bool-cases, inl, inr,
  ==_iff,
}
use moksha.Mir.{Block}
use moksha.Mir.Blocks.{
  push_new, add_successor, add_predecessor, update, link, addresses, successors_of, predecessors_of,
}
use moksha.Mir.Addresses.{addresses-update}
use moksha.Worklist.{contains}

contains-append_one :
    (a v : ℕ) (xs : List ℕ) → contains a (xs ++ (v ∷ [])) ≡ (contains a xs || a == v)
contains-append_one a v [] = ground arith
contains-append_one a v (x ∷ xs) = ground (arith, contains-append_one a v xs)

pub contains-push_new :
    (a v : ℕ) (xs : List ℕ) → contains a (push_new v xs) ≡ (contains a xs || a == v)
contains-push_new a v xs = elim (Bool-cases (contains v xs)) [
  | inr e ↦ rw e (contains-append_one a v xs)
  | inl e ↦ elim (Bool-cases (a == v)) [
    | inl i ↦
        let same : contains a xs ≡ true = ap (λ k. contains k xs) ((==_iff a v).0 i) ∙ e in
        rw e (ground (arith, same, i))
    | inr i ↦ rw e (ground (arith, i))
  ]
]

successors_of-add :
    (a t s p : ℕ) (bs : List Block)
    → contains a (successors_of (update s (add_successor t) bs) p)
      ≡ (contains a (successors_of bs p) || (p == s && a == t && contains p (addresses bs)))
unfolding update
successors_of-add a t s p [] = ground arith
successors_of-add a t s p (b ∷ bs) =
    ground (arith, contains-push_new a t b.successors, successors_of-add a t s p bs)

predecessors_of-add :
    (p b t a : ℕ) (bs : List Block)
    → contains p (predecessors_of (update t (add_predecessor b) bs) a)
      ≡ (contains p (predecessors_of bs a) || (a == t && p == b && contains a (addresses bs)))
unfolding update
predecessors_of-add p b t a [] = ground arith
predecessors_of-add p b t a (c ∷ bs) =
    ground (arith, contains-push_new p b c.predecessors, predecessors_of-add p b t a bs)

module _ (s : ℕ) (f : Block → Block) (same_id : (b : Block) → (f b).id ≡ b.id) where
  pub successors_of-kept :
      ((b : Block) → (f b).successors ≡ b.successors)
      → (bs : List Block) (p : ℕ) → successors_of (update s f bs) p ≡ successors_of bs p
  unfolding update
  successors_of-kept k [] p = refl
  successors_of-kept k (b ∷ bs) p = elim (Bool-cases (s == b.id)) [
    | inl e ↦ rw (e, same_id b, k b, successors_of-kept k bs p) refl
    | inr e ↦ rw (e, successors_of-kept k bs p) refl
  ]

  pub predecessors_of-kept :
      ((b : Block) → (f b).predecessors ≡ b.predecessors)
      → (bs : List Block) (p : ℕ) → predecessors_of (update s f bs) p ≡ predecessors_of bs p
  unfolding update
  predecessors_of-kept k [] p = refl
  predecessors_of-kept k (b ∷ bs) p = elim (Bool-cases (s == b.id)) [
    | inl e ↦ rw (e, same_id b, k b, predecessors_of-kept k bs p) refl
    | inr e ↦ rw (e, predecessors_of-kept k bs p) refl
  ]

pub addresses-link : (b t : ℕ) (bs : List Block) → addresses (link b t bs) ≡ addresses bs
unfolding link
addresses-link b t bs =
    addresses-update t (add_predecessor b) (update b (add_successor t) bs) (λ c. refl)
    ∙ addresses-update b (add_successor t) bs (λ c. refl)

pub successors_of-link :
    (b t a p : ℕ) (bs : List Block)
    → contains a (successors_of (link b t bs) p)
      ≡ (contains a (successors_of bs p) || (p == b && a == t && contains p (addresses bs)))
unfolding link
successors_of-link b t a p bs =
    ap (contains a) (
      successors_of-kept t (add_predecessor b) (λ c. refl) (λ c. refl)
        (update b (add_successor t) bs) p)
    ∙ successors_of-add a t b p bs

pub predecessors_of-link :
    (b t a p : ℕ) (bs : List Block)
    → contains p (predecessors_of (link b t bs) a)
      ≡ (contains p (predecessors_of bs a) || (a == t && p == b && contains a (addresses bs)))
unfolding link
predecessors_of-link b t a p bs =
    let linked = update b (add_successor t) bs in
    let before = predecessors_of-kept b (add_successor t) (λ c. refl) (λ c. refl) bs a in
    let same = addresses-update b (add_successor t) bs (λ c. refl) in
    predecessors_of-add p b t a linked ∙ rw (before, same) refl
