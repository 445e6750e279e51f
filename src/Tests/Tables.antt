-- ===== src/Tests/Tables.antt =====
-- The theorems on the diagnostics and on the symbol table at concrete inputs.
use moksha.Base.{
  ◌<◌, ◌≡◌, ◌++◌, ◌||◌, refl, Bool, true, false, none, some, List, [], ◌∷◌, Bytes, codes, arith,
  if◌then◌else◌,
}
use moksha.Diagnostics.{fresh, report, emit}
use moksha.Diagnostics.Ids.{err_unexpected_char, err_symbol_redefinition, get_diagnostic_kind}
use moksha.Diagnostics.Count.{Report, Counts, errors_in, report_all, report_all-Counts}
use moksha.SymbolTable.{SymbolTable, symbol_table, add_symbol, lookup, is_defined_in_current_scope}
use moksha.SymbolTable.Entries.{Symbol, variable, of_type, block_scope}
use moksha.SymbolTable.Lookup.{add_symbol_verdict}
use moksha.SymbolTable.Scoping.{
  Call, enter, exit, add, overload, Balanced, done, adds, overloads, inner, run_calls, scoped_calls,
}
use moksha.SymbolTable.Overloads.{
  Function, function_symbol, in_order, add_functions, functions_collected,
}
use moksha.SymbolTable.Primitive.{
  AstContext, primitive_types, add_primitive_types, absent, Found, primitive_types-Found,
}
use moksha.Tests.Maps.{pairs}

abbrev two_reports : List Report
two_reports =
    record { loc = 4; id = err_unexpected_char; extra = codes "x" }
    ∷ record { loc = 9; id = err_symbol_redefinition; extra = codes "f" }
    ∷ []

report_all-Counts_example : Counts (report_all fresh two_reports)
report_all-Counts_example = report_all-Counts two_reports

two_errors : errors_in (report_all fresh two_reports).printed < 4294967296
unfolding report_all report emit get_diagnostic_kind
two_errors = omega arith

abbrev table : SymbolTable pairs
table = symbol_table pairs fresh

abbrev x_symbol : Symbol
x_symbol = of_type variable (codes "x") 7

add_symbol_verdict_example :
    (u : SymbolTable pairs) × (added : Bool) × (add_symbol pairs table (codes "x") x_symbol 3
      ≡ some (u, added))
    × (u.diags
        ≡ (if added || false then fresh else report fresh 3 err_symbol_redefinition (codes "x")))
add_symbol_verdict_example = add_symbol_verdict pairs table (codes "x") x_symbol 3

not_defined : is_defined_in_current_scope pairs table (codes "x") ≡ false
unfolding is_defined_in_current_scope
not_defined = refl

abbrev body : List Call
body =
    add (codes "x") x_symbol 3
    ∷ enter block_scope
    ∷ add (codes "x") x_symbol 5
    ∷ exit
    ∷ overload (codes "x") x_symbol
    ∷ []

body-Balanced : Balanced body
body-Balanced =
    adds (codes "x") x_symbol 3
      (inner block_scope (adds (codes "x") x_symbol 5 done) (overloads (codes "x") x_symbol done))

scoped_calls_example :
    (u : SymbolTable pairs) × (run_calls pairs (enter block_scope ∷ (body ++ (exit ∷ []))) table
      ≡ some u)
    × (u.scope_stack ≡ table.scope_stack)
scoped_calls_example = scoped_calls pairs table block_scope body-Balanced

abbrev f : Function
f = record { type_of = some 1; decl = some 2 }

abbrev g : Function
g = record { type_of = some 3; decl = some 4 }

functions_collected_example :
    (u : SymbolTable pairs) × (add_functions pairs (codes "x") (f ∷ g ∷ []) table ≡ some u)
    × (u.diags ≡ fresh)
    × (lookup pairs u (codes "x")
        ≡ some (function_symbol pairs (codes "x") f (in_order pairs (codes "x") (g ∷ []))))
functions_collected_example =
    functions_collected pairs (codes "x") table f (g ∷ []) refl not_defined

abbrev context : AstContext
context = record {
  i8 = 1;
  i16 = 2;
  i32 = 3;
  i64 = 4;
  u8 = 5;
  u16 = 6;
  u32 = 7;
  u64 = 8;
  f8 = 9;
  f16 = 10;
  f32 = 11;
  f64 = 12;
  bool = 13;
  void = 14;
  any = 15;
  isize = 16;
  usize = 17;
}

primitive_types-Found_example :
    (u : SymbolTable pairs) × (add_primitive_types pairs table context ≡ some u)
    × (u.diags ≡ fresh)
    × Found pairs u (primitive_types context)
    × ((other : Bytes)
        → absent pairs other (primitive_types context) ≡ true
        → lookup pairs u other ≡ none)
primitive_types-Found_example = primitive_types-Found pairs fresh context
