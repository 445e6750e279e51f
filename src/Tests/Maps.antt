-- ===== src/Tests/Maps.antt =====
-- An association list as the map of a scope.
use moksha.Base.{
  ◌≡◌, ◌≢◌, refl, true, false, Option, none, some, List, [], ◌∷◌, Bytes, bytes_eq, bytes_eq_iff,
  if◌then◌else◌, Bool-cases, Option-cases, inl, inr,
}
use moksha.SymbolTable.Entries.{Symbol, StringMap}

abbrev Pairs : Type 0
Pairs = List (Bytes × Symbol)

abbrev find_pair : Pairs → Bytes → Option Symbol
find_pair [] k = none
find_pair ((j, v) ∷ m) k = if bytes_eq j k then some v else find_pair m k

abbrev assign_pair : Pairs → Bytes → Symbol → Pairs
assign_pair m k v = (k, v) ∷ m

abbrev insert_pair : Pairs → Bytes → Symbol → Pairs
insert_pair m k v = elim (find_pair m k) [ none ↦ assign_pair m k v | some w ↦ m ]

eq_self : (k : Bytes) → bytes_eq k k ≡ true
eq_self k = (bytes_eq_iff k k).1 refl

ne_other : (k j : Bytes) → k ≢ j → bytes_eq k j ≡ false
ne_other k j n = elim (Bool-cases (bytes_eq k j)) [
  | inl e ↦ absurd (n ((bytes_eq_iff k j).0 e))
  | inr e ↦ e
]

pub assigned : (m : Pairs) (k : Bytes) (v : Symbol) → find_pair (assign_pair m k v) k ≡ some v
assigned m k v = rw (eq_self k) refl

pub assigned_other :
    (m : Pairs) (k j : Bytes) (v : Symbol) → k ≢ j → find_pair (assign_pair m k v) j ≡ find_pair m j
assigned_other m k j v n = rw (ne_other k j n) refl

pub inserted :
    (m : Pairs) (k : Bytes) (v : Symbol)
    → find_pair m k ≡ none
    → find_pair (insert_pair m k v) k ≡ some v
inserted m k v e = rw (e, insert_pair) (assigned m k v)

pub inserted_taken :
    (m : Pairs) (k : Bytes) (v w : Symbol) → find_pair m k ≡ some w → insert_pair m k v ≡ m
inserted_taken m k v w e = rw (e, insert_pair)

pub inserted_other :
    (m : Pairs) (k j : Bytes) (v : Symbol) → k ≢ j → find_pair (insert_pair m k v) j ≡ find_pair m j
inserted_other m k j v n = elim (Option-cases (find_pair m k)) [
  | inl e ↦ rw (e, insert_pair) (assigned_other m k j v n)
  | inr (w, e) ↦ rw (e, insert_pair) refl
]

abbrev pub pairs : StringMap
pairs = record {
  Map = Pairs;
  empty = [];
  find = find_pair;
  insert = insert_pair;
  assign = assign_pair;
  find-empty = λ k. refl;
  insert-fresh = inserted;
  insert-taken = inserted_taken;
  insert-other = inserted_other;
  assign-same = λ m k v w e. assigned m k v;
  assign-other = assigned_other;
}
