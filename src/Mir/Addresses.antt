-- ===== src/Mir/Addresses.antt =====
-- The addresses of blocks behind a change of one.
use moksha.Base.{ℕ, ◌≡◌, ◌==◌, refl, List, [], ◌∷◌, Bool-cases, inl, inr}
use moksha.Mir.{Block}
use moksha.Mir.Blocks.{update, addresses}

pub addresses-update :
    (a : ℕ) (f : Block → Block) (bs : List Block)
    → ((b : Block) → (f b).id ≡ b.id)
    → addresses (update a f bs) ≡ addresses bs
unfolding update
addresses-update a f [] k = refl
addresses-update a f (b ∷ bs) k = elim (Bool-cases (a == b.id)) [
  | inl e ↦ rw (e, k b, addresses-update a f bs k) refl
  | inr e ↦ rw (e, addresses-update a f bs k) refl
]
