-- ===== src/SymbolTable/Scoping.antt =====
-- Scopes that are entered and left again.
use moksha.Base.{
  ℕ, suc, ◌≡◌, refl, ap, sym, Bool, Option, none, some, List, [], ◌∷◌, ◌++◌, Bytes, length,
  Option-cases, Bool-cases, inl, inr,
}
use mathlib.Core.Path.{subst}
use moksha.Diagnostics.{DiagnosticEngine}
use moksha.SymbolTable.{
  Scope, SymbolTable, find_symbol, enter_scope, exit_scope, add_existing, add_symbol, add_overload,
  push_overload, keeps_first, both_functions, close_scopes, close_table,
}
use moksha.SymbolTable.Entries.{Symbol, ScopeKind, StringMap}
use moksha.SymbolTable.Lookup.{add_in-new, add_in-taken, with_new}

-- One call that changes the table.
pub data Call : Type 0 where
  enter : ScopeKind → Call
  exit : Call
  add : Bytes → Symbol → ℕ → Call
  overload : Bytes → Symbol → Call

-- Calls that leave every scope that they enter, and no other.
pub data Balanced : List Call → Type 0 where
  done : Balanced []
  adds :
      {cs : List Call} (name : Bytes) (s : Symbol) (loc : ℕ)
      → Balanced cs
      → Balanced (add name s loc ∷ cs)
  overloads :
      {cs : List Call} (name : Bytes) (s : Symbol) → Balanced cs → Balanced (overload name s ∷ cs)
  inner :
      {cs ds : List Call} (kind : ScopeKind)
      → Balanced cs
      → Balanced ds
      → Balanced (enter kind ∷ (cs ++ (exit ∷ ds)))

module _ (maps : StringMap) where
  abbrev first_of : Option (SymbolTable maps × Bool) → Option (SymbolTable maps)
  first_of none = none
  first_of (some (t, b)) = some t

  -- The result of `addSymbol` is dropped.
  abbrev pub call : Call → SymbolTable maps → Option (SymbolTable maps)
  call (enter kind) t = some (enter_scope maps t kind)
  call exit t = exit_scope maps t
  call (add name s loc) t = first_of (add_symbol maps t name s loc)
  call (overload name s) t = some (add_overload maps t name s)

  abbrev then_run :
      (SymbolTable maps → Option (SymbolTable maps))
      → Option (SymbolTable maps)
      → Option (SymbolTable maps)
  then_run f none = none
  then_run f (some t) = f t

  unfoldable pub run_calls : List Call → SymbolTable maps → Option (SymbolTable maps)
  run_calls [] t = some t
  run_calls (c ∷ cs) t = then_run (run_calls cs) (call c t)

  -- The calls have a result with the scopes `outer` under a current scope.
  Keeps : List (Scope maps) → Option (SymbolTable maps) → Type 0
  Keeps outer r =
      (top : Scope maps) × (u : SymbolTable maps) × (r ≡ some u) × (u.scope_stack ≡ top ∷ outer)

  run_calls-append :
      (cs ds : List Call) (t : SymbolTable maps)
      → run_calls (cs ++ ds) t ≡ then_run (run_calls ds) (run_calls cs t)
  unfolding run_calls
  run_calls-append [] ds t = refl
  run_calls-append (c ∷ cs) ds t = elim (Option-cases (call c t)) [
    | inl e ↦ rw e refl
    | inr (u, e) ↦ rw e (run_calls-append cs ds u)
  ]

  abbrev table : Scope maps → List (Scope maps) → DiagnosticEngine → SymbolTable maps
  table top outer e = record { scope_stack = top ∷ outer; diags = e }

  existing-Keeps :
      (top : Scope maps) (outer : List (Scope maps)) (e : DiagnosticEngine) (name : Bytes)
      (s existing : Symbol) (loc : ℕ)
      → (new : Scope maps) × ((add_existing maps
            (table top outer e)
            top
            outer
            name
            s
            loc
            existing).0.scope_stack
          ≡ new ∷ outer)
  existing-Keeps top outer e name s existing loc = elim (Bool-cases (keeps_first existing s)) [
    | inl k ↦ (top, rw k refl)
    | inr k ↦ elim (Bool-cases (both_functions existing s)) [
      | inl f ↦ (push_overload maps top name existing s, rw (k, f) refl)
      | inr f ↦ (top, rw (k, f) refl)
    ]
  ]

  add-Keeps :
      (top : Scope maps) (outer : List (Scope maps)) (e : DiagnosticEngine) (name : Bytes)
      (s : Symbol) (loc : ℕ)
      → Keeps outer (call (add name s loc) (table top outer e))
  unfolding Keeps add_symbol
  add-Keeps top outer e name s loc = elim (Option-cases (find_symbol maps top name)) [
    | inl f ↦ (
      with_new maps top name s,
      _,
      ap first_of (add_in-new maps (table top outer e) top outer name s loc f),
      refl,
    )
    | inr (existing, f) ↦
        let (new, kept) = existing-Keeps top outer e name s existing loc in
        (
          new,
          _,
          ap first_of (add_in-taken maps (table top outer e) top outer name s existing loc f),
          kept,
        )
  ]

  -- A run whose first calls give `r` goes on from there.
  on :
      (P : Option (SymbolTable maps) → Type 0) (outer : List (Scope maps))
      (f : SymbolTable maps → Option (SymbolTable maps)) (r : Option (SymbolTable maps))
      → Keeps outer r
      → ((top : Scope maps) (e : DiagnosticEngine) → P (f (table top outer e)))
      → P (then_run f r)
  unfolding Keeps
  on P outer f r (top, u, e, k) h =
      let same : u ≡ table top outer u.diags =
        ap (λ s. record { scope_stack = s; diags = u.diags }) k in
      rw (e, same) (h top u.diags)

  overload-Keeps :
      (top : Scope maps) (outer : List (Scope maps)) (e : DiagnosticEngine) (name : Bytes)
      (s : Symbol)
      → Keeps outer (call (overload name s) (table top outer e))
  unfolding Keeps add_overload
  overload-Keeps top outer e name s = (_, _, refl, refl)

  run_calls-Keeps :
      {cs : List Call} (top : Scope maps) (outer : List (Scope maps)) (e : DiagnosticEngine)
      → Balanced cs
      → Keeps outer (run_calls cs (table top outer e))
  unfolding run_calls Keeps
  run_calls-Keeps top outer e done = (top, table top outer e, refl, refl)
  run_calls-Keeps top outer e (adds {cs} name s loc b) =
      on (Keeps outer) outer (run_calls cs) _ (add-Keeps top outer e name s loc)
        (λ top e. run_calls-Keeps top outer e b)
  run_calls-Keeps top outer e (overloads {cs} name s b) =
      on (Keeps outer) outer (run_calls cs) _ (overload-Keeps top outer e name s)
        (λ top e. run_calls-Keeps top outer e b)
  run_calls-Keeps top outer e (inner {cs} {ds} kind b c) =
      let new : Scope maps = record { kind = kind; symbols = maps.empty } in
      subst (Keeps outer) (sym (run_calls-append cs (exit ∷ ds) (table new (top ∷ outer) e))) (
        on (Keeps outer) (top ∷ outer) (run_calls (exit ∷ ds)) _
          (run_calls-Keeps new (top ∷ outer) e b) (λ inside e. run_calls-Keeps top outer e c))

  -- Calls of `addSymbol` and `addOverload`, and whole nested scopes, between `enterScope` and
  -- `exitScope` have a result, so no assertion fails among them, and leave every scope that was
  -- there before as it was.
  pub scoped_calls :
      {cs : List Call} (t : SymbolTable maps) (kind : ScopeKind)
      → Balanced cs
      → (u : SymbolTable maps) × (run_calls (enter kind ∷ (cs ++ (exit ∷ []))) t ≡ some u)
        × (u.scope_stack ≡ t.scope_stack)
  unfolding run_calls
  scoped_calls {cs} t kind b =
      let new : Scope maps = record { kind = kind; symbols = maps.empty } in
      subst (λ r. (u : SymbolTable maps) × (r ≡ some u) × (u.scope_stack ≡ t.scope_stack))
        (sym (run_calls-append cs (exit ∷ []) (table new t.scope_stack t.diags)))
        (on (λ r. (u : SymbolTable maps) × (r ≡ some u) × (u.scope_stack ≡ t.scope_stack))
          t.scope_stack (run_calls (exit ∷ [])) _ (run_calls-Keeps new t.scope_stack t.diags b)
          (λ inside e. (_, refl, refl)))

  close_scopes-all :
      (stack : List (Scope maps)) (e : DiagnosticEngine)
      → close_scopes maps (suc (length stack)) (record { scope_stack = stack; diags = e })
        ≡ some (record { scope_stack = []; diags = e })
  close_scopes-all [] e = refl
  close_scopes-all (top ∷ outer) e = close_scopes-all outer e

  -- The loop of the destructor ends for every table, with no scope left and without a failed
  -- assertion.
  pub close_table_total :
      (t : SymbolTable maps) → close_table maps t ≡ some (record t { scope_stack = [] })
  unfolding close_table
  close_table_total t = close_scopes-all t.scope_stack t.diags
