-- ===== src/SymbolTable/Overloads.antt =====
-- Functions of one name in one scope.
use moksha.Base.{
  ℕ, ◌≡◌, refl, ap, sym, ◌∙◌, Bool, true, false, Option, none, some, List, [], ◌∷◌, Bytes,
  Option-cases, inl, inr,
}
use moksha.Diagnostics.{DiagnosticEngine}
use moksha.SymbolTable.{
  Scope, SymbolTable, is_some, find_symbol, push_overload, add_symbol, lookup,
  is_defined_in_current_scope,
}
use moksha.SymbolTable.Entries.{
  Symbol, Symbols, no_symbols, and_symbol, symbol, function, push_back, StringMap,
}
use moksha.SymbolTable.Lookup.{no_scope, add_in-taken, add_in-new, with_new, lookup_in-here}

-- A function: its type, its declaration and its width; no overloads yet.
pub record Function : Type 0 where
  pub type_of : Option ℕ
  pub decl : Option ℕ

module _ (maps : StringMap) (name : Bytes) where
  abbrev pub function_symbol : Function → Symbols → Symbol
  function_symbol f overloads = symbol function name f.type_of f.decl overloads none

  abbrev pub alone : Function → Symbol
  alone f = function_symbol f no_symbols

  abbrev pub all_pushed : Symbols → List Function → Symbols
  all_pushed o [] = o
  all_pushed o (f ∷ fs) = all_pushed (push_back o (alone f)) fs

  -- `addSymbol` of each function, `none` where a call does not return `true`.
  abbrev accepted : Option (SymbolTable maps × Bool) → Option (SymbolTable maps)
  accepted none = none
  accepted (some (t, false)) = none
  accepted (some (t, true)) = some t

  abbrev then_all :
      (SymbolTable maps → Option (SymbolTable maps))
      → Option (SymbolTable maps)
      → Option (SymbolTable maps)
  then_all f none = none
  then_all f (some t) = f t

  unfoldable pub add_functions : List Function → SymbolTable maps → Option (SymbolTable maps)
  add_functions [] t = some t
  add_functions (f ∷ fs) t =
      then_all (add_functions fs) (accepted (add_symbol maps t name (alone f) 0))

  abbrev table : Scope maps → List (Scope maps) → DiagnosticEngine → SymbolTable maps
  table top outer e = record { scope_stack = top ∷ outer; diags = e }

  add_functions-pushed :
      (f : Function) (fs : List Function) (o : Symbols) (top : Scope maps)
      (outer : List (Scope maps)) (e : DiagnosticEngine)
      → find_symbol maps top name ≡ some (function_symbol f o)
      → (u : SymbolTable maps) × (add_functions fs (table top outer e) ≡ some u)
        × (u.diags ≡ e)
        × (lookup maps u name ≡ some (function_symbol f (all_pushed o fs)))
  unfolding add_functions add_symbol lookup
  add_functions-pushed f [] o top outer e k =
      (table top outer e, refl, refl, lookup_in-here maps top outer name _ k)
  add_functions-pushed f (g ∷ gs) o top outer e k =
      let next = push_overload maps top name (function_symbol f o) (alone g) in
      let taken = add_in-taken maps (table top outer e) top outer name (alone g) _ 0 k in
      rw taken (
        add_functions-pushed f gs (push_back o (alone g)) next outer e
          (maps.assign-same top.symbols name (function_symbol f (push_back o (alone g))) _ k))

  -- The overloads in the order in which they came.
  abbrev pub in_order : List Function → Symbols
  in_order [] = no_symbols
  in_order (f ∷ fs) = and_symbol (alone f) (in_order fs)

  abbrev append_symbols : Symbols → Symbols → Symbols
  append_symbols no_symbols ts = ts
  append_symbols (and_symbol s ss) ts = and_symbol s (append_symbols ss ts)

  append_symbols-push_back :
      (o ts : Symbols) (s : Symbol)
      → append_symbols (push_back o s) ts ≡ append_symbols o (and_symbol s ts)
  append_symbols-push_back no_symbols ts s = refl
  append_symbols-push_back (and_symbol t o) ts s =
      ap (and_symbol t) (append_symbols-push_back o ts s)

  append_symbols-nil : (o : Symbols) → append_symbols o no_symbols ≡ o
  append_symbols-nil no_symbols = refl
  append_symbols-nil (and_symbol s o) = ap (and_symbol s) (append_symbols-nil o)

  all_pushed-in_order :
      (o : Symbols) (fs : List Function) → all_pushed o fs ≡ append_symbols o (in_order fs)
  all_pushed-in_order o [] = sym (append_symbols-nil o)
  all_pushed-in_order o (f ∷ fs) =
      all_pushed-in_order (push_back o (alone f)) fs
      ∙ append_symbols-push_back o (in_order fs) (alone f)

  -- Functions of a name that the current scope does not hold are all accepted without a report;
  -- `lookup` then finds the first, with the others as its overloads, in the order in which they came.
  pub functions_collected :
      (t : SymbolTable maps) (f : Function) (fs : List Function)
      → no_scope maps t.scope_stack ≡ false
      → is_defined_in_current_scope maps t name ≡ false
      → (u : SymbolTable maps) × (add_functions (f ∷ fs) t ≡ some u)
        × (u.diags ≡ t.diags)
        × (lookup maps u name ≡ some (function_symbol f (in_order fs)))
  unfolding add_functions add_symbol is_defined_in_current_scope
  functions_collected t f fs h d = collected t.scope_stack t.diags h d
    where
      collected :
          (stack : List (Scope maps)) (e : DiagnosticEngine)
          → no_scope maps stack ≡ false
          → is_defined_in_current_scope maps (record { scope_stack = stack; diags = e }) name
            ≡ false
          → (u : SymbolTable maps) × (add_functions
                (f ∷ fs)
                (record { scope_stack = stack; diags = e })
              ≡ some u)
            × (u.diags ≡ e)
            × (lookup maps u name ≡ some (function_symbol f (in_order fs)))
      collected [] e h d = cc
      collected (top ∷ outer) e h d = elim (Option-cases (find_symbol maps top name)) [
        | inr (x, k) ↦ let yes : is_some (find_symbol maps top name) ≡ true = ap is_some k in cc
        | inl k ↦
            let added = add_in-new maps (table top outer e) top outer name (alone f) 0 k in
            let in_order_too = sym (all_pushed-in_order no_symbols fs) in
            rw (added, in_order_too)
              (add_functions-pushed f fs no_symbols (with_new maps top name (alone f)) outer e
                (maps.insert-fresh top.symbols name (alone f) k))
      ]
