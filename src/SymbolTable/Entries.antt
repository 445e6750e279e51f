-- ===== src/SymbolTable/Entries.antt =====
-- Symbols and the map of a scope: include/moksha/Sema/SymbolTable.h (`SymbolKind`, `Symbol`,
-- `ScopeKind`) and what lib/frontend/sema/SymbolTable.cpp uses of llvm/ADT/StringMap.h.
use moksha.Base.{ℕ, ◌≡◌, ◌≢◌, ◌==◌, Bool, Option, none, some, Bytes}

pub data SymbolKind : Type 0 where
  variable function type class_kind module_kind macro : SymbolKind

-- A pointer to a node of the AST is its address.
abbrev pub Node : Type 0
Node = ℕ

-- `symbol kind name type decl overloads bitWidth`; a null pointer and a width of -1 are `none`.
mutual
  pub data Symbol : Type 0 where
    symbol : SymbolKind → Bytes → Option Node → Option Node → Symbols → Option ℕ → Symbol

  pub data Symbols : Type 0 where
    no_symbols : Symbols
    and_symbol : Symbol → Symbols → Symbols

abbrev pub kind_of : Symbol → SymbolKind
kind_of (symbol k n t d o w) = k

abbrev pub overloads : Symbol → Symbols
overloads (symbol k n t d o w) = o

-- The constructor of a kind, a name and a type: no declaration, no overloads, no width.
abbrev pub of_type : SymbolKind → Bytes → Node → Symbol
of_type k n t = symbol k n (some t) none no_symbols none

-- `overloads.push_back` of a vector.
abbrev pub push_back : Symbols → Symbol → Symbols
push_back no_symbols s = and_symbol s no_symbols
push_back (and_symbol t ts) s = and_symbol t (push_back ts s)

abbrev pub overload_with : Symbol → Symbol → Symbol
overload_with (symbol k n t d o w) s = symbol k n t d (push_back o s) w

-- The value of the enumerator.
abbrev pub kind_value : SymbolKind → ℕ
kind_value variable = 0
kind_value function = 1
kind_value type = 2
kind_value class_kind = 3
kind_value module_kind = 4
kind_value macro = 5

infix 50 ◌==ₖ◌
abbrev pub ◌==ₖ◌ : SymbolKind → SymbolKind → Bool
a ==ₖ b = kind_value a == kind_value b

pub data ScopeKind : Type 0 where
  global_scope function_scope block_scope class_scope : ScopeKind

-- What the scopes use of `llvm::StringMap<Symbol>`, and what its documentation says of it: `find`
-- gives the value at a key, `insert` does nothing where the key is taken, and a value can be
-- written in place through an iterator.
pub record StringMap : Type 1 where
  pub Map : Type 0
  pub empty : Map
  pub find : Map → Bytes → Option Symbol
  pub insert : Map → Bytes → Symbol → Map
  pub assign : Map → Bytes → Symbol → Map
  pub find-empty : (k : Bytes) → find empty k ≡ none
  pub insert-fresh :
      (m : Map) (k : Bytes) (v : Symbol) → find m k ≡ none → find (insert m k v) k ≡ some v
  pub insert-taken : (m : Map) (k : Bytes) (v w : Symbol) → find m k ≡ some w → insert m k v ≡ m
  pub insert-other : (m : Map) (k j : Bytes) (v : Symbol) → k ≢ j → find (insert m k v) j ≡ find m j
  pub assign-same :
      (m : Map) (k : Bytes) (v w : Symbol) → find m k ≡ some w → find (assign m k v) k ≡ some v
  pub assign-other : (m : Map) (k j : Bytes) (v : Symbol) → k ≢ j → find (assign m k v) j ≡ find m j
