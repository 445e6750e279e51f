-- ===== src/SimplifyCfg/Live.antt =====
-- The removal of dead blocks ends, and leaves none.
use moksha.Base.{
  ℕ, suc, ◌≤◌, ◌<◌, ◌≡◌, ◌==◌, refl, ap, ◌∙◌, true, false, not, ◌&&◌, some, List, [], ◌∷◌, length,
  arith, Bool-cases, inl, inr, loop, result_or, Fine, loop_total, ==_iff,
}
use moksha.Mir.{Block}
use moksha.Mir.Blocks.{addresses, remove_predecessor, update, remove_incoming, update_phis}
use moksha.Mir.Addresses.{addresses-update}
use moksha.SimplifyCfg.{entry_of}
use moksha.SimplifyCfg.Dead.{
  is_successor, is_dead, sever, sever_dead, erase_dead, any_dead, dead_round, remove_dead_blocks,
}

addresses-sever : (d : ℕ) (ss : List ℕ) (bs : List Block) → addresses (sever d ss bs) ≡ addresses bs
addresses-sever d [] bs = refl
addresses-sever d (s ∷ ss) bs =
    let cut = update s (remove_predecessor d) bs in
    addresses-sever d ss (update s (update_phis (remove_incoming d)) cut)
    ∙ addresses-update s (update_phis (remove_incoming d)) cut (λ b. refl)
    ∙ addresses-update s (remove_predecessor d) bs (λ b. refl)

addresses-sever_dead :
    (e : ℕ) (all todo bs : List Block) → addresses (sever_dead e all todo bs) ≡ addresses bs
addresses-sever_dead e all [] bs = refl
addresses-sever_dead e all (b ∷ todo) bs = elim (Bool-cases (is_dead e all b)) [
  | inl d ↦ rw d (
      addresses-sever_dead e all todo (sever b.id b.successors bs)
      ∙ addresses-sever b.id b.successors bs)
  | inr d ↦ rw d (addresses-sever_dead e all todo bs)
]

-- Blocks with the same addresses are dead together, and begin with the same entry.
same_addresses :
    (e : ℕ) (all bs cs : List Block)
    → addresses bs ≡ addresses cs
    → (any_dead e all bs ≡ any_dead e all cs)
      × (entry_of bs ≡ entry_of cs)
      × (length bs ≡ length cs)
same_addresses e all [] [] h = (refl, refl, refl)
same_addresses e all [] (c ∷ cs) h = cc
same_addresses e all (b ∷ bs) [] h = cc
same_addresses e all (b ∷ bs) (c ∷ cs) h =
    let first : b.id ≡ c.id = cc in
    let others : addresses bs ≡ addresses cs = cc in
    let (dead, begins, long) = same_addresses e all bs cs others in
    let test : is_dead e all b ≡ is_dead e all c =
      ap (λ a. not (a == e) && not (is_successor a all)) first in
    (rw (test, dead) refl, first, ap suc long)

erase_dead-le : (e : ℕ) (all bs : List Block) → length (erase_dead e all bs) ≤ length bs
erase_dead-le e all [] = omega arith
erase_dead-le e all (b ∷ bs) = ground (arith, erase_dead-le e all bs)

erase_dead-lt :
    (e : ℕ) (all bs : List Block)
    → any_dead e all bs ≡ true
    → length (erase_dead e all bs) < length bs
erase_dead-lt e all [] h = cc
erase_dead-lt e all (b ∷ bs) h = elim (Bool-cases (is_dead e all b)) [
  | inl d ↦ rw d (omega (arith, erase_dead-le e all bs))
  | inr d ↦
      let later : any_dead e all bs ≡ true = ground arith in
      rw d (omega (arith, erase_dead-lt e all bs later))
]

entry_of-erase_dead :
    (e : ℕ) (all bs : List Block) → entry_of bs ≡ e → entry_of (erase_dead e all bs) ≡ e
entry_of-erase_dead e all [] h = h
entry_of-erase_dead e all (b ∷ bs) h =
    let same : (b.id == e) ≡ true = (==_iff b.id e).1 h in rw same h

-- A round that goes on keeps the entry and loses a block; one that leaves has found none.
round-Fine :
    (e : ℕ) (cs : List Block)
    → entry_of cs ≡ e
    → Fine
        (λ ds. entry_of ds ≡ e)
        (λ ds. (entry_of ds ≡ e) × (any_dead e ds ds ≡ false))
        length
        cs
        (dead_round e cs)
unfolding dead_round
round-Fine e cs h =
    let cut = sever_dead e cs cs cs in
    let (dead, begins, long) = same_addresses e cs cut cs (addresses-sever_dead e cs cs cs) in
    elim (Bool-cases (any_dead e cs cs)) [
      | inl some_dead ↦ rw some_dead (
        entry_of-erase_dead e cs cut (begins ∙ h),
        omega (arith, long, erase_dead-lt e cs cut (dead ∙ some_dead)),
      )
      | inr none_dead ↦ rw none_dead (h, none_dead)
    ]

-- The loop of `removeDeadBlocks` ends within as many rounds as there are blocks, and one more. The
-- entry stays first, and every other block that is left is a successor of a block that is left.
pub remove_dead_blocks_total :
    (bs : List Block)
    → (rs : List Block) × (loop (dead_round (entry_of bs)) (suc (length bs)) bs ≡ some rs)
      × (remove_dead_blocks bs ≡ rs)
      × (entry_of rs ≡ entry_of bs)
      × (any_dead (entry_of bs) rs rs ≡ false)
unfolding remove_dead_blocks
remove_dead_blocks_total bs =
    let (rs, runs, live) =
      loop_total IsEntry IsLive length (dead_round e) round_IsFine (suc (length bs)) bs refl
        (omega arith) in
    (rs, runs, ap (result_or bs) runs, live.0, live.1)
  where
    e : ℕ
    e = entry_of bs

    IsEntry : List Block → Type 0
    IsEntry cs = entry_of cs ≡ entry_of bs

    IsLive : List Block → Type 0
    IsLive cs = (entry_of cs ≡ entry_of bs) × (any_dead (entry_of bs) cs cs ≡ false)

    round_IsFine : (cs : List Block) → IsEntry cs → Fine IsEntry IsLive length cs (dead_round e cs)
    round_IsFine cs h = round-Fine e cs h
