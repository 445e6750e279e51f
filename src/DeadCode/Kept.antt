-- ===== src/DeadCode/Kept.antt =====
-- The blocks that the removal of unreachable blocks leaves.
use moksha.Base.{
  ℕ, ◌≡◌, ◌==◌, ◌↔◌, refl, ap, ◌∙◌, true, ◌&&◌, List, [], ◌∷◌, ◌++◌, arith, Bool-cases, inl, inr,
  ==_iff,
}
use moksha.Mir.{Block}
use moksha.Mir.Blocks.{remove_predecessor, update, addresses, successors_of}
use moksha.Worklist.{contains, Reaches}
use moksha.Worklist.Bounds.{within, within-append-left, within-append-right, within_self}
use moksha.Worklist.Exact.{closure-IsExact}
use moksha.Mir.Addresses.{addresses-update}
use moksha.DeadCode.Unreachable.{
  entry_seeds, all_successors, reachable, prune_phis, detach, detach_all, keep_live,
  remove_unreachable,
}

pub successors_of-all :
    (bs : List Block) (a : ℕ) → within (successors_of bs a) (all_successors bs) ≡ true
successors_of-all [] a = refl
successors_of-all (b ∷ bs) a = elim (Bool-cases (a == b.id)) [
  | inl e ↦
      rw e (
        within-append-left b.successors b.successors (all_successors bs) (within_self b.successors))
  | inr e ↦ rw e (
      within-append-right (successors_of bs a) b.successors (all_successors bs)
        (successors_of-all bs a))
]

-- The set of reachable blocks is exactly what the entry leads to, over the edges to successors.
pub reachable-Reaches :
    (bs : List Block) (a : ℕ)
    → (contains a (reachable bs) ≡ true) ↔ Reaches (successors_of bs) (entry_seeds bs) a
unfolding reachable
reachable-Reaches bs a =
    closure-IsExact (successors_of bs) (entry_seeds bs ++ all_successors bs) (entry_seeds bs)
      (λ b h.
        within-append-right (successors_of bs b) (entry_seeds bs) (all_successors bs)
          (successors_of-all bs b))
      (within-append-left (entry_seeds bs) (entry_seeds bs) (all_successors bs)
        (within_self (entry_seeds bs)))
      a

contains-keep_live :
    (live : List ℕ) (bs : List Block) (a : ℕ)
    → contains a (addresses (keep_live live bs)) ≡ (contains a (addresses bs) && contains a live)
contains-keep_live live [] a = refl
contains-keep_live live (b ∷ bs) a = elim (Bool-cases (a == b.id)) [
  | inl i ↦
      let same : contains a live ≡ contains b.id live =
        ap (λ x. contains x live) ((==_iff a b.id).0 i) in
      ground (arith, same, i, contains-keep_live live bs a)
  | inr i ↦ ground (arith, i, contains-keep_live live bs a)
]

addresses-prune_phis :
    (live : List ℕ) (all bs : List Block) → addresses (prune_phis live all bs) ≡ addresses bs
addresses-prune_phis live all [] = refl
addresses-prune_phis live all (b ∷ bs) = elim (Bool-cases (contains b.id live)) [
  | inl e ↦ rw (e, addresses-prune_phis live all bs) refl
  | inr e ↦ rw (e, addresses-prune_phis live all bs) refl
]

addresses-detach :
    (live : List ℕ) (d : ℕ) (ss : List ℕ) (bs : List Block)
    → addresses (detach live d ss bs) ≡ addresses bs
addresses-detach live d [] bs = refl
addresses-detach live d (s ∷ ss) bs = elim (Bool-cases (contains s live)) [
  | inl e ↦ rw e (
      addresses-detach live d ss (update s (remove_predecessor d) bs)
      ∙ addresses-update s (remove_predecessor d) bs (λ b. refl))
  | inr e ↦ rw e (addresses-detach live d ss bs)
]

addresses-detach_all :
    (live : List ℕ) (todo bs : List Block) → addresses (detach_all live todo bs) ≡ addresses bs
addresses-detach_all live [] bs = refl
addresses-detach_all live (b ∷ todo) bs = elim (Bool-cases (contains b.id live)) [
  | inl e ↦ rw e (addresses-detach_all live todo bs)
  | inr e ↦ rw e (
      addresses-detach_all live todo (detach live b.id b.successors bs)
      ∙ addresses-detach live b.id b.successors bs)
]

-- The removal of unreachable blocks leaves a block exactly if the entry leads to it, over the edges
-- to successors.
pub remove_unreachable-Reaches :
    (bs : List Block) (a : ℕ)
    → (contains a (addresses (remove_unreachable bs)) ≡ true)
      ↔ ((contains a (addresses bs) ≡ true) × Reaches (successors_of bs) (entry_seeds bs) a)
unfolding remove_unreachable
remove_unreachable-Reaches bs a =
    let live = reachable bs in
    let pruned = prune_phis live bs bs in
    let kept = contains-keep_live live (detach_all live bs pruned) a in
    let same : contains a (addresses (detach_all live bs pruned)) ≡ contains a (addresses bs) =
      ap (contains a) (addresses-detach_all live bs pruned ∙ addresses-prune_phis live bs bs) in
    let reached = reachable-Reaches bs a in
    (
      (λ h. (ground (arith, kept, same), reached.0 (ground (arith, kept)))),
      (λ h.
          let found = reached.1 (h.1) in
          let there = h.0 in ground (arith, kept, same, found, there)),
    )
