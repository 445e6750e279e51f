-- ===== src/SymbolTable.antt =====
-- `Scope` and `SymbolTable`: include/moksha/Sema/SymbolTable.h and
-- lib/frontend/sema/SymbolTable.cpp. An operation that runs into a failed assertion returns `none`.
pub mod Entries
pub mod Primitive
pub mod Lookup
pub mod Scoping
pub mod Overloads
use moksha.Base.{
  ℕ, zero, suc, length, Bool, true, false, ◌&&◌, ◌||◌, Option, none, some, List, [], ◌∷◌, ◌++◌,
  Bytes, codes, if◌then◌else◌,
}
use mathlib.Core.Option.{map}
use moksha.Diagnostics.{DiagnosticEngine, report}
use moksha.Diagnostics.Ids.{err_symbol_redefinition}
use Entries.{
  SymbolKind, variable, function, type, module_kind, Node, Symbol, kind_of, of_type, overload_with,
  ◌==ₖ◌, ScopeKind, global_scope, StringMap,
}

-- A second symbol of these kinds is dropped in silence, and the first one stays.
abbrev pub keeps_first : Symbol → Symbol → Bool
keeps_first existing s =
    (kind_of existing ==ₖ kind_of s) && (kind_of s ==ₖ module_kind || kind_of s ==ₖ variable)

abbrev pub both_functions : Symbol → Symbol → Bool
both_functions existing s = (kind_of existing ==ₖ function) && (kind_of s ==ₖ function)

abbrev pub is_some {ℓ} : {A : Type ℓ} → Option A → Bool
is_some none = false
is_some (some a) = true

module _ (maps : StringMap) where
  pub record Scope : Type 0 where
    pub kind : ScopeKind
    pub symbols : maps.Map

  -- `Scope::findSymbol`
  abbrev pub find_symbol : Scope → Bytes → Option Symbol
  find_symbol s name = maps.find s.symbols name

  -- `Scope::addSymbol`: the name must be new.
  pub add_to_scope : Scope → Bytes → Symbol → Option Scope
  add_to_scope s name sym = elim (find_symbol s name) [
    | none ↦ some (record s { symbols = maps.insert s.symbols name sym })
    | some existing ↦ none
  ]

  -- `existing->overloads.push_back(symbol)`
  abbrev pub push_overload : Scope → Bytes → Symbol → Symbol → Scope
  push_overload s name existing sym = record s {
    symbols = maps.assign s.symbols name (overload_with existing sym);
  }

  -- `Scope::addOverload`
  abbrev pub add_overload_to_scope : Scope → Bytes → Symbol → Scope
  add_overload_to_scope s name sym = elim (find_symbol s name) [
    | some existing ↦ push_overload s name existing sym
    | none ↦ record s { symbols = maps.insert s.symbols name sym }
  ]

  -- `scope_stack` has the back of the vector first.
  pub record SymbolTable : Type 0 where
    pub scope_stack : List Scope
    pub diags : DiagnosticEngine

  abbrev pub enter_scope : SymbolTable → ScopeKind → SymbolTable
  enter_scope t kind = record t {
    scope_stack = record { kind = kind; symbols = maps.empty } ∷ t.scope_stack;
  }

  abbrev pub exit_scope : SymbolTable → Option SymbolTable
  exit_scope t = elim t.scope_stack [
    | [] ↦ none
    | top ∷ outer ↦ some (record t { scope_stack = outer })
  ]

  -- `SymbolTable::SymbolTable`
  abbrev pub symbol_table : DiagnosticEngine → SymbolTable
  symbol_table e = enter_scope (record { scope_stack = []; diags = e }) global_scope

  -- The loop of the destructor, `n` times at most.
  abbrev pub close_scopes : ℕ → SymbolTable → Option SymbolTable
  close_scopes zero t = some t
  close_scopes (suc n) t = elim t.scope_stack [
    | [] ↦ some t
    | top ∷ outer ↦ elim (exit_scope t) [ none ↦ none | some u ↦ close_scopes n u ]
  ]

  -- `SymbolTable::~SymbolTable`
  unfoldable pub close_table : SymbolTable → Option SymbolTable
  close_table t = close_scopes (suc (length t.scope_stack)) t

  -- `addSymbol` where the name is taken in the current scope.
  abbrev pub add_existing :
      SymbolTable → Scope → List Scope → Bytes → Symbol → ℕ → Symbol → SymbolTable × Bool
  add_existing t top outer name sym loc existing =
      if keeps_first existing sym
      then (t, true)
      else if both_functions existing sym
      then (record t { scope_stack = push_overload top name existing sym ∷ outer }, true)
      else (record t { diags = report t.diags loc err_symbol_redefinition name }, false)

  abbrev pub add_in : SymbolTable → List Scope → Bytes → Symbol → ℕ → Option (SymbolTable × Bool)
  add_in t [] name sym loc = some (t, false)
  add_in t (top ∷ outer) name sym loc = elim (find_symbol top name) [
    | some existing ↦ some (add_existing t top outer name sym loc existing)
    | none ↦
        map (λ scope. (record t { scope_stack = scope ∷ outer }, true)) (add_to_scope top name sym)
  ]

  unfoldable pub add_symbol : SymbolTable → Bytes → Symbol → ℕ → Option (SymbolTable × Bool)
  add_symbol t name sym loc = add_in t t.scope_stack name sym loc

  unfoldable pub add_overload : SymbolTable → Bytes → Symbol → SymbolTable
  add_overload t name sym = elim t.scope_stack [
    | [] ↦ t
    | top ∷ outer ↦ record t { scope_stack = add_overload_to_scope top name sym ∷ outer }
  ]

  abbrev pub lookup_in : List Scope → Bytes → Option Symbol
  lookup_in [] name = none
  lookup_in (scope ∷ outer) name = elim (find_symbol scope name) [
    | some sym ↦ some sym
    | none ↦ lookup_in outer name
  ]

  unfoldable pub lookup : SymbolTable → Bytes → Option Symbol
  lookup t name = lookup_in t.scope_stack name

  abbrev last_scope : Scope → List Scope → Scope
  last_scope s [] = s
  last_scope s (t ∷ ts) = last_scope t ts

  unfoldable pub lookup_global : SymbolTable → Bytes → Option Symbol
  lookup_global t name = elim t.scope_stack [
    | [] ↦ none
    | top ∷ outer ↦ find_symbol (last_scope top outer) name
  ]

  unfoldable pub is_defined_in_current_scope : SymbolTable → Bytes → Bool
  is_defined_in_current_scope t name = elim t.scope_stack [
    | [] ↦ false
    | top ∷ outer ↦ is_some (find_symbol top name)
  ]

  unfoldable pub get_current_scope_kind : SymbolTable → ScopeKind
  get_current_scope_kind t = elim t.scope_stack [ [] ↦ global_scope | top ∷ outer ↦ top.kind ]
