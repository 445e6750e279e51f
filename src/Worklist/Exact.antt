-- ===== src/Worklist/Exact.antt =====
-- The marking loop finds exactly what can be reached from the seeds.
use moksha.Base.{
  ℕ, suc, ◌*◌, ◌≡◌, ◌==◌, ◌↔◌, refl, ap, sym, ◌∙◌, true, false, not, ◌&&◌, ◌||◌, List, [], ◌∷◌,
  length, arith, Bool-cases, inl, inr, ==_iff, Step, Fine, loop_total,
}
use moksha.Worklist.{
  contains, Marking, mark, mark_all, round_on, round, closure, Reaches, seed, further,
}
use moksha.Worklist.Bounds.{within, measure, mark_all-measure, unseen-length, contains-within}

contains_self : (v : ℕ) (xs : List ℕ) → contains v (v ∷ xs) ≡ true
contains_self v xs = ground arith

seen-mark : (x v : ℕ) (m : Marking) → contains x (mark v m).seen ≡ (x == v || contains x m.seen)
seen-mark x v m = elim (Bool-cases (contains v m.seen)) [
  | inr e ↦ rw e refl
  | inl e ↦ rw e (elim (Bool-cases (x == v)) [
    | inr n ↦ rw n refl
    | inl n ↦
        let same : contains x m.seen ≡ true = ap (λ k. contains k m.seen) ((==_iff x v).0 n) ∙ e in
        rw (n, same) refl
  ])
]

-- What the set holds behind a marking of several values.
pub seen-mark_all :
    (x : ℕ) (vs : List ℕ) (m : Marking)
    → contains x (mark_all vs m).seen ≡ (contains x vs || contains x m.seen)
unfolding mark_all
seen-mark_all x [] m = refl
seen-mark_all x (v ∷ vs) m =
    let later = seen-mark_all x vs (mark v m) in
    let here = seen-mark x v m in ground (arith, later, here)

-- Only what was found for the first time is put on the stack.
work-mark :
    (x v : ℕ) (m : Marking)
    → contains x (mark v m).work ≡ ((x == v && not (contains v m.seen)) || contains x m.work)
work-mark x v m = ground arith

Queued : Marking → Type 0
Queued m = (x : ℕ) → contains x m.work ≡ true → contains x m.seen ≡ true

mark-Queued : (v : ℕ) (m : Marking) → Queued m → Queued (mark v m)
unfolding Queued
mark-Queued v m q x h = ground (arith, work-mark x v m, seen-mark x v m, q x)

mark_all-Queued : (vs : List ℕ) (m : Marking) → Queued m → Queued (mark_all vs m)
unfolding mark_all
mark_all-Queued [] m q = q
mark_all-Queued (v ∷ vs) m q = mark_all-Queued vs (mark v m) (mark-Queued v m q)

-- What is not on the stack behind the marking was in the set, and not on the stack, before it.
idle-mark :
    (x v : ℕ) (m : Marking)
    → contains x (mark v m).seen ≡ true
    → contains x (mark v m).work ≡ false
    → (contains x m.seen ≡ true) × (contains x m.work ≡ false)
idle-mark x v m h k = elim (Bool-cases (x == v)) [
  | inr n ↦ ground (arith, seen-mark x v m, work-mark x v m, n)
  | inl n ↦
      let same : contains x m.seen ≡ contains v m.seen =
        ap (λ k. contains k m.seen) ((==_iff x v).0 n) in
      ground (arith, seen-mark x v m, work-mark x v m, n, same)
]

idle-mark_all :
    (x : ℕ) (vs : List ℕ) (m : Marking)
    → contains x (mark_all vs m).seen ≡ true
    → contains x (mark_all vs m).work ≡ false
    → (contains x m.seen ≡ true) × (contains x m.work ≡ false)
unfolding mark_all
idle-mark_all x [] m h k = (h, k)
idle-mark_all x (v ∷ vs) m h k =
    let (a, b) = idle-mark_all x vs (mark v m) h k in idle-mark x v m a b

module _ (next_of : ℕ → List ℕ) (all seeds : List ℕ)
    (closed : (v : ℕ) → contains v all ≡ true → within (next_of v) all ≡ true)
    (within_seeds : within seeds all ≡ true) where
  -- Everything found is reached, and known; the seeds are found; and what follows a value that is
  -- not on the stack is found.
  record IsMarking (m : Marking) : Type 0 where
    found : (v : ℕ) → contains v m.seen ≡ true → Reaches next_of seeds v
    known : (v : ℕ) → contains v m.seen ≡ true → contains v all ≡ true
    queued : Queued m
    started : (v : ℕ) → contains v seeds ≡ true → contains v m.seen ≡ true
    followed :
        (v w : ℕ)
        → contains v m.seen ≡ true
        → contains v m.work ≡ false
        → contains w (next_of v) ≡ true
        → contains w m.seen ≡ true

  Reaches-known : {v : ℕ} → Reaches next_of seeds v → contains v all ≡ true
  Reaches-known (seed h) = contains-within _ seeds all within_seeds h
  Reaches-known (further {v} {w} r h) =
      contains-within w (next_of v) all (closed v (Reaches-known r)) h

  IsExact : List ℕ → Type 0
  IsExact seen = (v : ℕ) → (contains v seen ≡ true) ↔ Reaches next_of seeds v

  first : Marking
  first = record { seen = []; work = [] }

  first-IsMarking : IsMarking (mark_all seeds first)
  unfolding first
  first-IsMarking = record {
    found = λ v h. seed (ground (arith, seen-mark_all v seeds first));
    known = λ v h.
        contains-within v seeds all within_seeds (ground (arith, seen-mark_all v seeds first));
    queued = mark_all-Queued seeds first (unfold Queued in λ x h. h);
    started = λ v h. ground (arith, seen-mark_all v seeds first);
    followed = λ v w h k n. let i = idle-mark_all v seeds first h k in cc;
  }

  IsFine : Marking → Step Marking (List ℕ) → Type 0
  IsFine = Fine IsMarking IsExact (measure all)

  last-IsExact : (seen : List ℕ) → IsMarking (record { seen = seen; work = [] }) → IsExact seen
  unfolding IsExact
  last-IsExact seen i v = (i.found v, all_found)
    where
      all_found : {v : ℕ} → Reaches next_of seeds v → contains v seen ≡ true
      all_found (seed h) = i.started _ h
      all_found (further {v} {w} r h) = i.followed v w (all_found r) refl h

  module _ (seen work : List ℕ) (v : ℕ)
      (i : IsMarking (record { seen = seen; work = v ∷ work })) where
    m : Marking
    m = record { seen = seen; work = work }

    after : Marking
    after = mark_all (next_of v) (record { seen = seen; work = work })

    top : contains v seen ≡ true
    unfolding Queued
    top = i.queued v (contains_self v work)

    inside : within (next_of v) all ≡ true
    inside = closed v (i.known v top)

    new_found : (x : ℕ) → contains x after.seen ≡ true → Reaches next_of seeds x
    unfolding after
    new_found x h = elim (Bool-cases (contains x (next_of v))) [
      | inl n ↦ further (i.found v top) n
      | inr n ↦
          i.found x
            (ground (arith, seen-mark_all x (next_of v) (record { seen = seen; work = work }), n))
    ]

    new_known : (x : ℕ) → contains x after.seen ≡ true → contains x all ≡ true
    unfolding after
    new_known x h = elim (Bool-cases (contains x (next_of v))) [
      | inl n ↦ contains-within x (next_of v) all inside n
      | inr n ↦
          i.known x
            (ground (arith, seen-mark_all x (next_of v) (record { seen = seen; work = work }), n))
    ]

    new_followed :
        (x w : ℕ)
        → contains x after.seen ≡ true
        → contains x after.work ≡ false
        → contains w (next_of x) ≡ true
        → contains w after.seen ≡ true
    unfolding after
    new_followed x w h k n =
        let (old, idle) = idle-mark_all x (next_of v) (record { seen = seen; work = work }) h k in
        let holds = seen-mark_all w (next_of v) (record { seen = seen; work = work }) in
        elim (Bool-cases (x == v)) [
          | inl e ↦
              let same : contains w (next_of v) ≡ true =
                ap (λ y. contains w (next_of y)) (sym ((==_iff x v).0 e)) ∙ n in
              ground (arith, holds, same)
          | inr e ↦
              let off : contains x (v ∷ work) ≡ false = ground (arith, idle, e) in
              let there = i.followed x w old off n in ground (arith, holds, there)
        ]

    after-IsMarking : IsMarking after
    unfolding after Queued
    after-IsMarking = record {
      found = new_found;
      known = new_known;
      queued =
          mark_all-Queued (next_of v) (record { seen = seen; work = work })
            (λ x h. i.queued x (ground arith));
      started = λ x h.
          ground (
            arith,
            seen-mark_all x (next_of v) (record { seen = seen; work = work }),
            i.started x h,
          );
      followed = new_followed;
    }

  round_on-IsFine :
      (seen work : List ℕ)
      → IsMarking (record { seen = seen; work = work })
      → IsFine (record { seen = seen; work = work }) (round_on next_of seen work)
  unfolding IsFine
  round_on-IsFine seen [] i = last-IsExact seen i
  round_on-IsFine seen (v ∷ work) i =
      let m : Marking = record { seen = seen; work = work } in
      (
        unfold after in after-IsMarking seen work v i,
        omega (arith, mark_all-measure all (next_of v) m (inside seen work v i)),
      )

  -- With the known values counted twice, and one more, as fuel the marking loop ends, and it has
  -- found exactly what can be reached from the seeds.
  pub closure-IsExact :
      (v : ℕ) → (contains v (closure next_of all seeds) ≡ true) ↔ Reaches next_of seeds v
  unfolding closure IsExact
  closure-IsExact v =
      let (r, runs, q) =
        loop_total IsMarking IsExact (measure all) (round next_of)
          (λ m i. unfold IsFine in round_on-IsFine m.seen m.work i) (suc (2 * length all))
          (mark_all seeds (record { seen = []; work = [] })) (unfold first in first-IsMarking)
          (omega (
            arith,
            mark_all-measure all seeds (record { seen = []; work = [] }) within_seeds,
            unseen-length [] all,
          )) in
      rw runs (q v)
