-- ===== src/SymbolTable/Primitive.antt =====
-- `SymbolTable::addPrimitiveTypes` in lib/frontend/sema/SymbolTable.cpp.
use moksha.Base.{
  ◌≡◌, ◌≢◌, refl, sym, ◌∙◌, Bool, true, false, not, ◌&&◌, Option, none, some, List, [], ◌∷◌, Bytes,
  codes, bytes_eq, bytes_eq_iff, arith,
}
use moksha.Diagnostics.{DiagnosticEngine}
use moksha.SymbolTable.{
  Scope, SymbolTable, find_symbol, symbol_table, add_symbol, lookup, lookup_in,
}
use moksha.SymbolTable.Entries.{Symbol, type, Node, of_type, ScopeKind, global_scope, StringMap}
use moksha.SymbolTable.Lookup.{add_in-new, with_new, lookup_in-here, lookup_in-cong}

-- The types that `ASTContext` keeps.
pub record AstContext : Type 0 where
  pub i8 : Node
  pub i16 : Node
  pub i32 : Node
  pub i64 : Node
  pub u8 : Node
  pub u16 : Node
  pub u32 : Node
  pub u64 : Node
  pub f8 : Node
  pub f16 : Node
  pub f32 : Node
  pub f64 : Node
  pub bool : Node
  pub void : Node
  pub any : Node
  pub isize : Node
  pub usize : Node

-- The names in the order in which they are added, each with its type.
abbrev pub primitive_types : AstContext → List (Bytes × Node)
primitive_types ctx =
    (codes "i8", ctx.i8)
    ∷ (codes "i16", ctx.i16)
    ∷ (codes "i32", ctx.i32)
    ∷ (codes "i64", ctx.i64)
    ∷ (codes "u8", ctx.u8)
    ∷ (codes "u16", ctx.u16)
    ∷ (codes "u32", ctx.u32)
    ∷ (codes "u64", ctx.u64)
    ∷ (codes "f8", ctx.f8)
    ∷ (codes "f16", ctx.f16)
    ∷ (codes "f32", ctx.f32)
    ∷ (codes "f64", ctx.f64)
    ∷ (codes "boolean", ctx.bool)
    ∷ (codes "void", ctx.void)
    ∷ (codes "any", ctx.any)
    ∷ (codes "char", ctx.i8)
    ∷ (codes "short", ctx.i16)
    ∷ (codes "int", ctx.i32)
    ∷ (codes "long", ctx.i64)
    ∷ (codes "isize", ctx.isize)
    ∷ (codes "usize", ctx.usize)
    ∷ (codes "quarter", ctx.f8)
    ∷ (codes "half", ctx.f16)
    ∷ (codes "float", ctx.f32)
    ∷ (codes "double", ctx.f64)
    ∷ []

module _ (maps : StringMap) where
  -- One call of `addSymbol` for each name; the results are dropped. No location is 0.
  abbrev pub add_types : List (Bytes × Node) → SymbolTable maps → Option (SymbolTable maps)
  add_types [] t = some t
  add_types ((name, node) ∷ more) t = elim (add_symbol maps t name (of_type type name node) 0) [
    | none ↦ none
    | some (u, added) ↦ add_types more u
  ]

  unfoldable pub add_primitive_types : SymbolTable maps → AstContext → Option (SymbolTable maps)
  add_primitive_types t ctx = add_types (primitive_types ctx) t

  -- `name` is none of the names.
  abbrev pub absent : Bytes → List (Bytes × Node) → Bool
  absent name [] = true
  absent name ((other, node) ∷ more) = not (bytes_eq name other) && absent name more

  abbrev pub distinct : List (Bytes × Node) → Bool
  distinct [] = true
  distinct ((name, node) ∷ more) = absent name more && distinct more

  -- The scope holds none of the names.
  abbrev None : Scope maps → List (Bytes × Node) → Type 0
  None s [] = Unit
  None s ((name, node) ∷ more) = (find_symbol maps s name ≡ none) × None s more

  -- Every name is found with its type.
  abbrev pub Found : SymbolTable maps → List (Bytes × Node) → Type 0
  Found t [] = Unit
  Found t ((name, node) ∷ more) =
      (lookup maps t name ≡ some (of_type type name node)) × Found t more

  other_name : (a b : Bytes) → bytes_eq a b ≡ false → a ≢ b
  other_name a b h e = let yes = (bytes_eq_iff a b).1 e in cc

  None-with_new :
      (s : Scope maps) (name : Bytes) (v : Symbol) (more : List (Bytes × Node))
      → absent name more ≡ true
      → None s more
      → None (with_new maps s name v) more
  None-with_new s name v [] a n = tt
  None-with_new s name v ((other, node) ∷ more) a n =
      let differ : bytes_eq name other ≡ false = ground arith in
      let rest : absent name more ≡ true = ground arith in
      (
        maps.insert-other s.symbols name other v (other_name name other differ) ∙ n.0,
        None-with_new s name v more rest n.1,
      )

  abbrev table : Scope maps → List (Scope maps) → DiagnosticEngine → SymbolTable maps
  table top outer e = record { scope_stack = top ∷ outer; diags = e }

  add_types-Found :
      (more : List (Bytes × Node)) (top : Scope maps) (outer : List (Scope maps))
      (e : DiagnosticEngine)
      → distinct more ≡ true
      → None top more
      → (u : SymbolTable maps) × (add_types more (table top outer e) ≡ some u)
        × (u.diags ≡ e)
        × Found u more
        × ((other : Bytes)
            → absent other more ≡ true
            → lookup maps u other ≡ lookup maps (table top outer e) other)
  unfolding add_symbol lookup
  add_types-Found [] top outer e d n = (table top outer e, refl, refl, tt, λ other a. refl)
  add_types-Found ((name, node) ∷ more) top outer e d n =
      let v = of_type type name node in
      let new = with_new maps top name v in
      let fresh : absent name more ≡ true = ground arith in
      let rest : distinct more ≡ true = ground arith in
      let added = add_in-new maps (table top outer e) top outer name v 0 n.0 in
      let (u, r, q, f, o) =
        add_types-Found more new outer e rest (None-with_new top name v more fresh n.1) in
      let here : lookup maps (table new outer e) name ≡ some v =
        lookup_in-here maps new outer name v (maps.insert-fresh top.symbols name v n.0) in
      (
        u,
        rw (added, add_types) r,
        q,
        (o name fresh ∙ here, f),
        λ other a.
            let later : absent other more ≡ true = ground arith in
            let differ : bytes_eq other name ≡ false = ground arith in
            let distinct_names : name ≢ other = λ p. other_name other name differ (sym p) in
            o other later
            ∙ lookup_in-cong maps new top outer other
                (maps.insert-other top.symbols name other v distinct_names),
      )

  None-empty :
      (kind : ScopeKind) (more : List (Bytes × Node))
      → None (record { kind = kind; symbols = maps.empty }) more
  None-empty kind [] = tt
  None-empty kind ((name, node) ∷ more) = (maps.find-empty name, None-empty kind more)

  -- In a new table `addPrimitiveTypes` accepts all 25 names without a report, and `lookup` then
  -- finds each with its type: no name of the list hides another. No other name is found.
  pub primitive_types-Found :
      (e : DiagnosticEngine) (ctx : AstContext)
      → (u : SymbolTable maps) × (add_primitive_types (symbol_table maps e) ctx ≡ some u)
        × (u.diags ≡ e)
        × Found u (primitive_types ctx)
        × ((other : Bytes) → absent other (primitive_types ctx) ≡ true → lookup maps u other ≡ none)
  unfolding add_primitive_types lookup bytes_eq
  primitive_types-Found e ctx =
      let empty_scope : Scope maps = record { kind = global_scope; symbols = maps.empty } in
      let (u, r, q, f, o) =
        add_types-Found (primitive_types ctx) empty_scope [] e refl
          (None-empty global_scope (primitive_types ctx)) in
      (u, r, q, f, λ other a. o other a ∙ nothing other)
    where
      nothing : (name : Bytes) → lookup maps (symbol_table maps e) name ≡ none
      nothing name = let no = maps.find-empty name in rw (no, lookup_in)
