-- ===== src/Worklist/Bounds.antt =====
-- The marking loop ends: what it finds stays among the known values, and each round uses something
-- up.
use moksha.Base.{
  ℕ, suc, ◌+◌, ◌*◌, ◌≤◌, ◌<◌, ◌≡◌, ◌==◌, refl, ap, sym, ◌∙◌, Bool, true, false, ◌&&◌, ◌||◌, List,
  [], ◌∷◌, ◌++◌, length, if◌then◌else◌, arith, Bool-cases, inl, inr, ==_iff,
}
use moksha.Worklist.{contains, Marking, mark, mark_all}

-- Every member of the one is a member of the other.
abbrev pub within : List ℕ → List ℕ → Bool
within [] ys = true
within (x ∷ xs) ys = contains x ys && within xs ys

-- The number of values of `all` that were not found.
unfoldable pub unseen : List ℕ → List ℕ → ℕ
unseen seen [] = 0
unseen seen (x ∷ all) = if contains x seen then unseen seen all else suc (unseen seen all)

abbrev pub measure : List ℕ → Marking → ℕ
measure all m = 2 * unseen m.seen all + length m.work

unseen-le : (v : ℕ) (seen all : List ℕ) → unseen (v ∷ seen) all ≤ unseen seen all
unfolding unseen
unseen-le v seen [] = omega arith
unseen-le v seen (x ∷ all) = ground (arith, unseen-le v seen all)

-- A value that is found for the first time is one less to find.
pub unseen-lt :
    (v : ℕ) (seen all : List ℕ)
    → contains v all ≡ true
    → contains v seen ≡ false
    → unseen (v ∷ seen) all < unseen seen all
unfolding unseen
unseen-lt v seen [] h k = cc
unseen-lt v seen (x ∷ all) h k = elim (Bool-cases (v == x)) [
  | inl e ↦
      let same : v ≡ x = (==_iff v x).0 e in
      let new : contains x seen ≡ false = ap (λ n. contains n seen) (sym same) ∙ k in
      ground (arith, new, unseen-le v seen all)
  | inr e ↦
      let later : contains v all ≡ true = ground arith in
      ground (arith, unseen-lt v seen all later k)
]

mark-measure :
    (all : List ℕ) (v : ℕ) (m : Marking)
    → contains v all ≡ true
    → measure all (mark v m) ≤ measure all m
mark-measure all v m h = elim (Bool-cases (contains v m.seen)) [
  | inl e ↦ rw e (omega arith)
  | inr e ↦ rw e (omega (arith, unseen-lt v m.seen all h e))
]

pub mark_all-measure :
    (all vs : List ℕ) (m : Marking)
    → within vs all ≡ true
    → measure all (mark_all vs m) ≤ measure all m
unfolding mark_all
mark_all-measure all [] m h = omega arith
mark_all-measure all (v ∷ vs) m h =
    let here : contains v all ≡ true = ground arith in
    let later : within vs all ≡ true = ground arith in
    omega (arith, mark-measure all v m here, mark_all-measure all vs (mark v m) later)

pub unseen-length : (seen all : List ℕ) → unseen seen all ≤ length all
unfolding unseen
unseen-length seen [] = omega arith
unseen-length seen (x ∷ all) = ground (arith, unseen-length seen all)

pub contains-append :
    (v : ℕ) (xs ys : List ℕ) → contains v (xs ++ ys) ≡ (contains v xs || contains v ys)
contains-append v [] ys = refl
contains-append v (x ∷ xs) ys = ground (arith, contains-append v xs ys)

pub within-append-right : (xs ys zs : List ℕ) → within xs zs ≡ true → within xs (ys ++ zs) ≡ true
within-append-right [] ys zs h = refl
within-append-right (x ∷ xs) ys zs h =
    let later : within xs zs ≡ true = ground arith in
    ground (arith, contains-append x ys zs, within-append-right xs ys zs later)

pub within-append-left : (xs ys zs : List ℕ) → within xs ys ≡ true → within xs (ys ++ zs) ≡ true
within-append-left [] ys zs h = refl
within-append-left (x ∷ xs) ys zs h =
    let later : within xs ys ≡ true = ground arith in
    ground (arith, contains-append x ys zs, within-append-left xs ys zs later)

within-cons : (x : ℕ) (xs ys : List ℕ) → within xs ys ≡ true → within xs (x ∷ ys) ≡ true
within-cons x xs ys h = within-append-right xs (x ∷ []) ys h

pub within_self : (xs : List ℕ) → within xs xs ≡ true
within_self [] = refl
within_self (x ∷ xs) = ground (arith, within-cons x xs xs (within_self xs))

pub contains-within :
    (v : ℕ) (xs ys : List ℕ) → within xs ys ≡ true → contains v xs ≡ true → contains v ys ≡ true
contains-within v [] ys h k = cc
contains-within v (x ∷ xs) ys h k = elim (Bool-cases (v == x)) [
  | inl e ↦
      let same : contains v ys ≡ contains x ys = ap (λ n. contains n ys) ((==_iff v x).0 e) in
      ground (arith, same)
  | inr e ↦
      let later : within xs ys ≡ true = ground arith in
      let inside : contains v xs ≡ true = ground arith in contains-within v xs ys later inside
]
