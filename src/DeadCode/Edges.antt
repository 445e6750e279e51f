-- ===== src/DeadCode/Edges.antt =====
-- The edges between the blocks that the removal of unreachable blocks leaves.
use moksha.Base.{
  ℕ, ◌≡◌, ◌==◌, refl, ap, sym, ◌∙◌, Bool, true, false, not, ◌&&◌, ◌||◌, List, [], ◌∷◌, arith,
  Bool-cases, inl, inr, ==_iff,
}
use moksha.Mir.{Block}
use moksha.Mir.Blocks.{remove_all, remove_predecessor, update, successors_of, predecessors_of}
use moksha.Worklist.{contains}
use moksha.DeadCode.Unreachable.{
  reachable, prune_phis, detach, detach_all, keep_live, remove_unreachable,
}

pub contains-remove_all :
    (p d : ℕ) (xs : List ℕ) → contains p (remove_all d xs) ≡ (contains p xs && not (p == d))
unfolding remove_all
contains-remove_all p d [] = refl
contains-remove_all p d (x ∷ xs) = ground (arith, contains-remove_all p d xs)

predecessors_of-update :
    (p a d s : ℕ) (bs : List Block)
    → contains p (predecessors_of (update s (remove_predecessor d) bs) a)
      ≡ (contains p (predecessors_of bs a) && not (a == s && p == d))
unfolding update
predecessors_of-update p a d s [] = refl
predecessors_of-update p a d s (b ∷ bs) =
    ground (arith, contains-remove_all p d b.predecessors, predecessors_of-update p a d s bs)

predecessors_of-detach :
    (live : List ℕ) (d : ℕ) (ss : List ℕ) (bs : List Block) (p a : ℕ)
    → contains p (predecessors_of (detach live d ss bs) a)
      ≡ (contains p (predecessors_of bs a) && not (p == d && contains a ss && contains a live))
predecessors_of-detach live d [] bs p a = ground arith
predecessors_of-detach live d (s ∷ ss) bs p a = elim (Bool-cases (contains s live)) [
  | inl e ↦
      let later = predecessors_of-detach live d ss (update s (remove_predecessor d) bs) p a in
      let here = predecessors_of-update p a d s bs in
      rw e (later ∙ ap (λ k. k && not (p == d && contains a ss && contains a live)) here ∙ kept e)
  | inr e ↦ rw e (predecessors_of-detach live d ss bs p a ∙ passed e)
]
  where
    kept :
        contains s live ≡ true
        → ((contains p (predecessors_of bs a) && not (a == s && p == d))
            && not (p == d && contains a ss && contains a live))
          ≡ (contains p (predecessors_of bs a)
              && not (p == d && (a == s || contains a ss) && contains a live))
    kept e = elim (Bool-cases (a == s)) [
      | inl i ↦
          let live_a : contains a live ≡ true = ap (λ x. contains x live) ((==_iff a s).0 i) ∙ e in
          ground (arith, live_a, i)
      | inr i ↦ ground (arith, i)
    ]

    passed :
        contains s live ≡ false
        → (contains p (predecessors_of bs a) && not (p == d && contains a ss && contains a live))
          ≡ (contains p (predecessors_of bs a)
              && not (p == d && (a == s || contains a ss) && contains a live))
    passed e = elim (Bool-cases (a == s)) [
      | inl i ↦
          let dead_a : contains a live ≡ false = ap (λ x. contains x live) ((==_iff a s).0 i) ∙ e in
          ground (arith, dead_a, i)
      | inr i ↦ ground (arith, i)
    ]

-- Whether the unreachable blocks of `todo` take `p` out of the predecessors of `a`.
abbrev cut_off : List ℕ → List Block → ℕ → ℕ → Bool
cut_off live [] p a = false
cut_off live (b ∷ todo) p a =
    (not (contains b.id live) && (p == b.id && contains a b.successors && contains a live))
    || cut_off live todo p a

predecessors_of-detach_all :
    (live : List ℕ) (todo bs : List Block) (p a : ℕ)
    → contains p (predecessors_of (detach_all live todo bs) a)
      ≡ (contains p (predecessors_of bs a) && not (cut_off live todo p a))
predecessors_of-detach_all live [] bs p a = ground arith
predecessors_of-detach_all live (b ∷ todo) bs p a = elim (Bool-cases (contains b.id live)) [
  | inl e ↦ rw e (predecessors_of-detach_all live todo bs p a)
  | inr e ↦
      let here = predecessors_of-detach live b.id b.successors bs p a in
      let later = predecessors_of-detach_all live todo (detach live b.id b.successors bs) p a in
      rw e (ground (arith, here, later))
]

cut_off-successors_of :
    (live : List ℕ) (bs : List Block) (p a : ℕ)
    → contains p live ≡ false
    → contains a live ≡ true
    → contains a (successors_of bs p) ≡ true
    → cut_off live bs p a ≡ true
cut_off-successors_of live [] p a h k e = cc
cut_off-successors_of live (b ∷ bs) p a h k e = elim (Bool-cases (p == b.id)) [
  | inl i ↦
      let dead : contains b.id live ≡ false =
        ap (λ x. contains x live) (sym ((==_iff p b.id).0 i)) ∙ h in
      ground arith
  | inr i ↦
      let later : contains a (successors_of bs p) ≡ true = ground arith in
      ground (arith, cut_off-successors_of live bs p a h k later)
]

predecessors_of-prune_phis :
    (live : List ℕ) (all bs : List Block) (a : ℕ)
    → predecessors_of (prune_phis live all bs) a ≡ predecessors_of bs a
predecessors_of-prune_phis live all [] a = refl
predecessors_of-prune_phis live all (b ∷ bs) a = elim (Bool-cases (contains b.id live)) [
  | inl e ↦ rw (e, predecessors_of-prune_phis live all bs a) refl
  | inr e ↦ rw (e, predecessors_of-prune_phis live all bs a) refl
]

successors_of-prune_phis :
    (live : List ℕ) (all bs : List Block) (a : ℕ)
    → successors_of (prune_phis live all bs) a ≡ successors_of bs a
successors_of-prune_phis live all [] a = refl
successors_of-prune_phis live all (b ∷ bs) a = elim (Bool-cases (contains b.id live)) [
  | inl e ↦ rw (e, successors_of-prune_phis live all bs a) refl
  | inr e ↦ rw (e, successors_of-prune_phis live all bs a) refl
]

successors_of-update :
    (s d : ℕ) (bs : List Block) (a : ℕ)
    → successors_of (update s (remove_predecessor d) bs) a ≡ successors_of bs a
unfolding update
successors_of-update s d [] a = refl
successors_of-update s d (b ∷ bs) a = elim (Bool-cases (s == b.id)) [
  | inl e ↦ rw (e, successors_of-update s d bs a) refl
  | inr e ↦ rw (e, successors_of-update s d bs a) refl
]

successors_of-detach :
    (live : List ℕ) (d : ℕ) (ss : List ℕ) (bs : List Block) (a : ℕ)
    → successors_of (detach live d ss bs) a ≡ successors_of bs a
successors_of-detach live d [] bs a = refl
successors_of-detach live d (s ∷ ss) bs a = elim (Bool-cases (contains s live)) [
  | inl e ↦ rw e (
      successors_of-detach live d ss (update s (remove_predecessor d) bs) a
      ∙ successors_of-update s d bs a)
  | inr e ↦ rw e (successors_of-detach live d ss bs a)
]

successors_of-detach_all :
    (live : List ℕ) (todo bs : List Block) (a : ℕ)
    → successors_of (detach_all live todo bs) a ≡ successors_of bs a
successors_of-detach_all live [] bs a = refl
successors_of-detach_all live (b ∷ todo) bs a = elim (Bool-cases (contains b.id live)) [
  | inl e ↦ rw e (successors_of-detach_all live todo bs a)
  | inr e ↦ rw e (
      successors_of-detach_all live todo (detach live b.id b.successors bs) a
      ∙ successors_of-detach live b.id b.successors bs a)
]

successors_of-keep_live :
    (live : List ℕ) (bs : List Block) (a : ℕ)
    → contains a live ≡ true
    → successors_of (keep_live live bs) a ≡ successors_of bs a
successors_of-keep_live live [] a h = refl
successors_of-keep_live live (b ∷ bs) a h = elim (Bool-cases (a == b.id)) [
  | inl i ↦
      let kept : contains b.id live ≡ true =
        ap (λ x. contains x live) (sym ((==_iff a b.id).0 i)) ∙ h in
      rw (kept, i) refl
  | inr i ↦ elim (Bool-cases (contains b.id live)) [
    | inl e ↦ rw e (rw i (successors_of-keep_live live bs a h))
    | inr e ↦ rw e (rw i (successors_of-keep_live live bs a h))
  ]
]

predecessors_of-keep_live :
    (live : List ℕ) (bs : List Block) (p a : ℕ)
    → contains p (predecessors_of (keep_live live bs) a)
      ≡ (contains p (predecessors_of bs a) && contains a live)
predecessors_of-keep_live live [] p a = refl
predecessors_of-keep_live live (b ∷ bs) p a = elim (Bool-cases (a == b.id)) [
  | inl i ↦
      let same : contains a live ≡ contains b.id live =
        ap (λ x. contains x live) ((==_iff a b.id).0 i) in
      ground (arith, same, i, predecessors_of-keep_live live bs p a)
  | inr i ↦ ground (arith, i, predecessors_of-keep_live live bs p a)
]

-- Every predecessor of a block has it as a successor.
unfoldable pub Mutual : List Block → Type 0
Mutual bs =
    (a p : ℕ) → contains p (predecessors_of bs a) ≡ true → contains a (successors_of bs p) ≡ true

-- If every predecessor of a block has it as a successor, this still holds of the blocks that the
-- removal of unreachable blocks leaves: no predecessor is one that was removed.
pub remove_unreachable-Mutual : (bs : List Block) → Mutual bs → Mutual (remove_unreachable bs)
unfolding Mutual remove_unreachable
remove_unreachable-Mutual bs mutual_edges a p h =
    let live = reachable bs in
    let pruned = prune_phis live bs bs in
    let detached = detach_all live bs pruned in
    let kept = predecessors_of-keep_live live detached p a in
    let cut = predecessors_of-detach_all live bs pruned p a in
    let old : contains p (predecessors_of bs a) ≡ true =
      ap (contains p) (sym (predecessors_of-prune_phis live bs bs a)) ∙ ground (arith, kept, cut) in
    let a_live : contains a live ≡ true = ground (arith, kept) in
    let edge = mutual_edges a p old in
    elim (Bool-cases (contains p live)) [
      | inl e ↦
          ap (contains a) (
            successors_of-keep_live live detached p e
            ∙ successors_of-detach_all live bs pruned p
            ∙ successors_of-prune_phis live bs bs p)
          ∙ edge
      | inr e ↦ ground (arith, kept, cut, cut_off-successors_of live bs p a e a_live edge)
    ]
