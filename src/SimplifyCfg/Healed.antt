-- ===== src/SimplifyCfg/Healed.antt =====
-- The edges behind the healer.
use moksha.Base.{
  ℕ, ◌≡◌, ◌==◌, refl, ap, ◌∙◌, Bool, false, ◌&&◌, ◌||◌, Option, none, some, List, [], ◌∷◌, arith,
  Bool-cases, inl, inr,
}
use moksha.Mir.{Block}
use moksha.Mir.Blocks.{
  find_block, link, link_all, update_phis, addresses, successors_of, predecessors_of,
}
use moksha.Mir.Addresses.{addresses-update}
use moksha.Worklist.{contains}
use moksha.SimplifyCfg.{
  last_inst, targets_of, cleared, heal_phi, heal_phis_of, heal_block, heal_all, heal,
}
use moksha.SimplifyCfg.Links.{
  successors_of-kept, predecessors_of-kept, successors_of-link, predecessors_of-link,
  addresses-link,
}

addresses-link_all :
    (b : ℕ) (ts : List ℕ) (bs : List Block) → addresses (link_all b ts bs) ≡ addresses bs
addresses-link_all b [] bs = refl
addresses-link_all b (t ∷ ts) bs = addresses-link_all b ts (link b t bs) ∙ addresses-link b t bs

successors_of-link_all :
    (b : ℕ) (ts : List ℕ) (a p : ℕ) (bs : List Block)
    → contains a (successors_of (link_all b ts bs) p)
      ≡ (contains a (successors_of bs p) || (p == b && contains a ts && contains p (addresses bs)))
successors_of-link_all b [] a p bs = ground arith
successors_of-link_all b (t ∷ ts) a p bs =
    let later = successors_of-link_all b ts a p (link b t bs) in
    let here = successors_of-link b t a p bs in
    let same : contains p (addresses (link b t bs)) ≡ contains p (addresses bs) =
      ap (contains p) (addresses-link b t bs) in
    ground (arith, later, here, same)

predecessors_of-link_all :
    (b : ℕ) (ts : List ℕ) (a p : ℕ) (bs : List Block)
    → contains p (predecessors_of (link_all b ts bs) a) ≡ (
        contains p (predecessors_of bs a) || (contains a ts && p == b && contains a (addresses bs)))
predecessors_of-link_all b [] a p bs = ground arith
predecessors_of-link_all b (t ∷ ts) a p bs =
    let later = predecessors_of-link_all b ts a p (link b t bs) in
    let here = predecessors_of-link b t a p bs in
    let same : contains a (addresses (link b t bs)) ≡ contains a (addresses bs) =
      ap (contains a) (addresses-link b t bs) in
    ground (arith, later, here, same)

-- Some block at address `p` ends in an instruction that leads to `a`.
abbrev pub leads : List Block → ℕ → ℕ → Bool
leads [] p a = false
leads (b ∷ bs) p a =
    (p == b.id && contains a (targets_of (last_inst b.instructions))) || leads bs p a

-- The mending of phi instructions leaves the edges.
record SameEdges (bs cs : List Block) : Type 0 where
  same_successors : (p : ℕ) → successors_of cs p ≡ successors_of bs p
  same_predecessors : (p : ℕ) → predecessors_of cs p ≡ predecessors_of bs p
  same_addresses : addresses cs ≡ addresses bs

heal_phis_of-SameEdges :
    (b : ℕ) (o : Option Block) (bs : List Block) → SameEdges bs (heal_phis_of b o bs)
heal_phis_of-SameEdges b none bs = record {
  same_successors = λ p. refl;
  same_predecessors = λ p. refl;
  same_addresses = refl;
}
heal_phis_of-SameEdges b (some c) bs = record {
  same_successors =
      successors_of-kept b (update_phis (heal_phi c.predecessors)) (λ d. refl) (λ d. refl) bs;
  same_predecessors =
      predecessors_of-kept b (update_phis (heal_phi c.predecessors)) (λ d. refl) (λ d. refl) bs;
  same_addresses = addresses-update b (update_phis (heal_phi c.predecessors)) bs (λ d. refl);
}

-- What the healing of the blocks of `todo` adds to the edges.
record Healed (todo bs cs : List Block) : Type 0 where
  successors_added :
      (p a : ℕ)
      → contains a (successors_of cs p)
        ≡ (contains a (successors_of bs p) || (leads todo p a && contains p (addresses bs)))
  predecessors_added :
      (p a : ℕ)
      → contains p (predecessors_of cs a)
        ≡ (contains p (predecessors_of bs a) || (leads todo p a && contains a (addresses bs)))

heal_all-Healed : (todo bs : List Block) → Healed todo bs (heal_all todo bs)
heal_all-Healed [] bs = record {
  successors_added = λ p a. ground arith;
  predecessors_added = λ p a. ground arith;
}
heal_all-Healed (b ∷ todo) bs =
    let ts = targets_of (last_inst b.instructions) in
    let linked = link_all b.id ts bs in
    let i = heal_phis_of-SameEdges b.id (find_block b.id linked) linked in
    let h = heal_all-Healed todo (heal_block b bs) in
    let same = i.same_addresses ∙ addresses-link_all b.id ts bs in
    record {
      successors_added = λ p a.
          let later = h.successors_added p a in
          let mended = ap (contains a) (i.same_successors p) in
          let here = successors_of-link_all b.id ts a p bs in
          let known = ap (contains p) same in ground (arith, later, mended, here, known);
      predecessors_added = λ p a.
          let later = h.predecessors_added p a in
          let mended = ap (contains p) (i.same_predecessors a) in
          let here = predecessors_of-link_all b.id ts a p bs in
          let known = ap (contains a) same in ground (arith, later, mended, here, known);
    }

cleared-edges :
    (bs : List Block) (p : ℕ)
    → (successors_of (cleared bs) p ≡ [])
      × (predecessors_of (cleared bs) p ≡ [])
      × (addresses (cleared bs) ≡ addresses bs)
cleared-edges [] p = (refl, refl, refl)
cleared-edges (b ∷ bs) p =
    let (s, q, known) = cleared-edges bs p in
    elim (Bool-cases (p == b.id)) [
      | inl e ↦ rw (e, known) (refl, refl, refl)
      | inr e ↦ rw (e, known) (s, q, refl)
    ]

-- Behind the healer, block `a` is a successor of block `p` exactly if `p` is there and ends in an
-- instruction that leads to `a`, and `p` is a predecessor of `a` exactly if it leads there and `a`
-- is there.
pub heal-leads :
    (bs : List Block) (p a : ℕ)
    → (contains a (successors_of (heal bs) p) ≡ (leads bs p a && contains p (addresses bs)))
      × (contains p (predecessors_of (heal bs) a) ≡ (leads bs p a && contains a (addresses bs)))
unfolding heal
heal-leads bs p a =
    let h = heal_all-Healed bs (cleared bs) in
    let (no_successors, none_p, known_p) = cleared-edges bs p in
    let (none_a, no_predecessors, known_a) = cleared-edges bs a in
    (
      h.successors_added p a ∙ rw (no_successors, known_p) refl,
      h.predecessors_added p a ∙ rw (no_predecessors, known_a) refl,
    )
