-- ===== src/Dominance/Order.antt =====
-- The order that the immediate dominators are computed in.
use moksha.Base.{ℕ, suc, ◌<◌, ◌≡◌, ◌↔◌, refl, true, List, [], ◌++◌, length, arith}
use moksha.Mir.{Block}
use moksha.Worklist.{contains, Reaches, seed, further}
use moksha.Worklist.Bounds.{
  within, unseen-length, contains-within, within-append-left, within-append-right, within_self,
}
use moksha.Mir.Blocks.{successors_of}
use moksha.DeadCode.Unreachable.{entry_seeds, all_successors}
use moksha.DeadCode.Kept.{successors_of-all}
use moksha.Dominance.{Visit, visit_all, compute_rpo, visit_entries, reverse_postorder}
use moksha.Dominance.Visited.{distinct, visit_all-IsVisit, compute_rpo-IsVisit}

module _ (next_of : ℕ → List ℕ) (all seeds : List ℕ)
    (closed : (v : ℕ) → contains v all ≡ true → within (next_of v) all ≡ true)
    (within_seeds : within seeds all ≡ true) where
  start : Visit
  start = record { visited = []; order = [] }

  -- With one more than the number of blocks as fuel, the order has exactly what can be reached, each
  -- block once.
  visit_entries-IsExact :
      (fuel : ℕ)
      → length all < fuel
      → ((v : ℕ)
          → (contains v (visit_entries next_of fuel seeds).order ≡ true) ↔ Reaches next_of seeds v)
        × (distinct (visit_entries next_of fuel seeds).order ≡ true)
  unfolding start
  visit_entries-IsExact fuel enough =
      let (i, begun) =
        visit_all-IsVisit next_of all seeds (compute_rpo next_of fuel) fuel
          (compute_rpo-IsVisit next_of all seeds closed fuel) seeds start
          (λ v h. (seed h, contains-within v seeds all within_seeds h))
          (omega (arith, enough, unseen-length [] all)) in
      let last = visit_all (compute_rpo next_of fuel) seeds start in
      (
        (λ v. (
          (λ h. i.reached v (ground (arith, i.ordered v)) refl),
          (λ r.
              let there = complete last begun (λ x w h n. i.followed x w h refl n) r in
              ground (arith, i.ordered v, there)),
        )),
        i.once (λ x h. h) refl,
      )
    where
      complete :
          (t : Visit)
          → ((v : ℕ) → contains v seeds ≡ true → contains v t.visited ≡ true)
          → ((x w : ℕ)
              → contains x t.visited ≡ true
              → contains w (next_of x) ≡ true
              → contains w t.visited ≡ true)
          → {v : ℕ} → Reaches next_of seeds v
          → contains v t.visited ≡ true
      complete t begun onward (seed h) = begun _ h
      complete t begun onward (further {v} {w} r h) = onward v w (complete t begun onward r) h

-- The reverse postorder of the blocks has exactly those that the entry leads to, each once.
pub reverse_postorder-Reaches :
    (bs : List Block)
    → ((a : ℕ)
        → (contains a (reverse_postorder bs) ≡ true)
          ↔ Reaches (successors_of bs) (entry_seeds bs) a)
      × (distinct (reverse_postorder bs) ≡ true)
unfolding reverse_postorder
reverse_postorder-Reaches bs =
    visit_entries-IsExact (successors_of bs) (entry_seeds bs ++ all_successors bs) (entry_seeds bs)
      (λ b h.
        within-append-right (successors_of bs b) (entry_seeds bs) (all_successors bs)
          (successors_of-all bs b))
      (within-append-left (entry_seeds bs) (entry_seeds bs) (all_successors bs)
        (within_self (entry_seeds bs)))
      (suc (length (entry_seeds bs ++ all_successors bs))) (omega arith)
