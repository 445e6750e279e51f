-- ===== src/SymbolTable/Lookup.antt =====
-- What `addSymbol` does to the names that `lookup` finds.
use moksha.Base.{
  ℕ, ◌≡◌, ◌≢◌, refl, ap, Bool, true, false, ◌||◌, none, some, List, [], ◌∷◌, Bytes, Option-cases,
  inl, inr, arith, if◌then◌else◌,
}
use moksha.Diagnostics.{DiagnosticEngine, report}
use moksha.Diagnostics.Ids.{err_symbol_redefinition}
use moksha.SymbolTable.{
  Scope, SymbolTable, find_symbol, add_to_scope, is_some, add_existing, add_in, add_symbol, lookup,
  lookup_in, is_defined_in_current_scope,
}
use moksha.SymbolTable.Entries.{Symbol, StringMap}

module _ (maps : StringMap) where
  -- The state has no scope.
  abbrev pub no_scope : List (Scope maps) → Bool
  no_scope [] = true
  no_scope (s ∷ ss) = false

  abbrev pub with_new : Scope maps → Bytes → Symbol → Scope maps
  with_new top name s = record top { symbols = maps.insert top.symbols name s }

  pub add_to_scope-fresh :
      (top : Scope maps) (name : Bytes) (s : Symbol)
      → find_symbol maps top name ≡ none
      → add_to_scope maps top name s ≡ some (with_new top name s)
  unfolding add_to_scope
  add_to_scope-fresh top name s e = rw (e, add_to_scope)

  pub add_in-new :
      (t : SymbolTable maps) (top : Scope maps) (outer : List (Scope maps)) (name : Bytes)
      (s : Symbol) (loc : ℕ)
      → find_symbol maps top name ≡ none
      → add_in maps t (top ∷ outer) name s loc
        ≡ some (record t { scope_stack = with_new top name s ∷ outer }, true)
  add_in-new t top outer name s loc e =
      let added = add_to_scope-fresh top name s e in rw (e, added, add_in)

  pub add_in-taken :
      (t : SymbolTable maps) (top : Scope maps) (outer : List (Scope maps)) (name : Bytes)
      (s existing : Symbol) (loc : ℕ)
      → find_symbol maps top name ≡ some existing
      → add_in maps t (top ∷ outer) name s loc
        ≡ some (add_existing maps t top outer name s loc existing)
  add_in-taken t top outer name s existing loc e = rw (e, add_in)

  pub lookup_in-here :
      (scope : Scope maps) (outer : List (Scope maps)) (name : Bytes) (s : Symbol)
      → find_symbol maps scope name ≡ some s
      → lookup_in maps (scope ∷ outer) name ≡ some s
  lookup_in-here scope outer name s e = rw (e, lookup_in)

  pub lookup_in-cong :
      (a b : Scope maps) (outer : List (Scope maps)) (name : Bytes)
      → find_symbol maps a name ≡ find_symbol maps b name
      → lookup_in maps (a ∷ outer) name ≡ lookup_in maps (b ∷ outer) name
  lookup_in-cong a b outer name e = rw (e, lookup_in)

  -- The assertion of `Scope::addSymbol` never fails: `addSymbol` has a result in every state. It
  -- reports the redefinition exactly where there is a scope and the result is `false`, and reports
  -- nothing else.
  pub add_symbol_verdict :
      (t : SymbolTable maps) (name : Bytes) (s : Symbol) (loc : ℕ)
      → (u : SymbolTable maps) × (added : Bool) × (add_symbol maps t name s loc ≡ some (u, added))
        × (u.diags ≡ (
            if added || no_scope t.scope_stack
            then t.diags
            else report t.diags loc err_symbol_redefinition name))
  unfolding add_symbol
  add_symbol_verdict t name s loc = verdict t.scope_stack
    where
      taken :
          (top : Scope maps) (outer : List (Scope maps)) (existing : Symbol)
          → (add_existing maps t top outer name s loc existing).0.diags ≡ (
              if (add_existing maps t top outer name s loc existing).1 || false
              then t.diags
              else report t.diags loc err_symbol_redefinition name)
      taken top outer existing = ground arith

      verdict :
          (stack : List (Scope maps))
          → (u : SymbolTable maps) × (added : Bool) × (add_in maps t stack name s loc
              ≡ some (u, added))
            × (u.diags ≡ (
                if added || no_scope stack
                then t.diags
                else report t.diags loc err_symbol_redefinition name))
      verdict [] = (t, false, refl, refl)
      verdict (top ∷ outer) = elim (Option-cases (find_symbol maps top name)) [
        | inl e ↦ (_, true, add_in-new t top outer name s loc e, refl)
        | inr (existing, e) ↦
            let (u, b) = add_existing maps t top outer name s loc existing in
            (_, _, add_in-taken t top outer name s existing loc e, taken top outer existing)
      ]

  -- A name that the current scope does not hold is added in silence, becomes the one that `lookup`
  -- finds, and no other name is found differently.
  pub add_symbol_fresh :
      (t : SymbolTable maps) (name : Bytes) (s : Symbol) (loc : ℕ)
      → no_scope t.scope_stack ≡ false
      → is_defined_in_current_scope maps t name ≡ false
      → (u : SymbolTable maps) × (add_symbol maps t name s loc ≡ some (u, true))
        × (u.diags ≡ t.diags)
        × (lookup maps u name ≡ some s)
        × (is_defined_in_current_scope maps u name ≡ true)
        × ((other : Bytes) → name ≢ other → lookup maps u other ≡ lookup maps t other)
  unfolding add_symbol lookup is_defined_in_current_scope
  add_symbol_fresh t name s loc h d = fresh_in t.scope_stack t.diags h d
    where
      fresh_in :
          (stack : List (Scope maps)) (e : DiagnosticEngine)
          → no_scope stack ≡ false
          → is_defined_in_current_scope maps (record { scope_stack = stack; diags = e }) name
            ≡ false
          → (u : SymbolTable maps) × (add_symbol maps
                (record { scope_stack = stack; diags = e })
                name
                s
                loc
              ≡ some (u, true))
            × (u.diags ≡ e)
            × (lookup maps u name ≡ some s)
            × (is_defined_in_current_scope maps u name ≡ true)
            × ((other : Bytes)
                → name ≢ other
                → lookup maps u other
                  ≡ lookup maps (record { scope_stack = stack; diags = e }) other)
      fresh_in [] e h d = cc
      fresh_in (top ∷ outer) e h d = elim (Option-cases (find_symbol maps top name)) [
        | inr (x, f) ↦ let yes : is_some (find_symbol maps top name) ≡ true = ap is_some f in cc
        | inl f ↦
            let got = maps.insert-fresh top.symbols name s f in
            (
              record { scope_stack = with_new top name s ∷ outer; diags = e },
              add_in-new (record { scope_stack = top ∷ outer; diags = e }) top outer name s loc f,
              refl,
              lookup_in-here (with_new top name s) outer name s got,
              ap is_some got,
              λ other n.
                  lookup_in-cong (with_new top name s) top outer other
                    (maps.insert-other top.symbols name other s n),
            )
      ]
