-- ===== src/Lexer/Keywords/RoundTrip.antt =====
-- Each keyword has one spelling, and each spelling one keyword.
use moksha.Base.{
  ◌≡◌, ◌⊎◌, inl, inr, refl, sym, ◌∙◌, List, [], ◌∷◌, Bytes, codes, bytes_eq, bytes_eq_iff, Bool,
  true, Bool-cases, ◌&&◌, arith,
}
use moksha.Lexer.Kinds.{TokenKind}
use moksha.Lexer.Keywords.{string_switch, keywords, keyword_kind}

-- The spelling that the comments of `TokenKind` give for a keyword; empty for the other kinds.
unfoldable pub keyword_spelling : TokenKind → Bytes
keyword_spelling TokenKind.kw_class = codes "class"
keyword_spelling TokenKind.kw_operator = codes "operator"
keyword_spelling TokenKind.kw_thread = codes "thread"
keyword_spelling TokenKind.kw_ref = codes "ref"
keyword_spelling TokenKind.kw_weak = codes "weak"
keyword_spelling TokenKind.kw_shared = codes "shared"
keyword_spelling TokenKind.kw_new = codes "new"
keyword_spelling TokenKind.kw_delete = codes "delete"
keyword_spelling TokenKind.kw_unsafe = codes "unsafe"
keyword_spelling TokenKind.kw_unsigned = codes "unsigned"
keyword_spelling TokenKind.kw_constructor = codes "constructor"
keyword_spelling TokenKind.kw_destructor = codes "destructor"
keyword_spelling TokenKind.kw_this = codes "this"
keyword_spelling TokenKind.kw_super = codes "super"
keyword_spelling TokenKind.kw_null = codes "null"
keyword_spelling TokenKind.kw_if = codes "if"
keyword_spelling TokenKind.kw_else = codes "else"
keyword_spelling TokenKind.kw_while = codes "while"
keyword_spelling TokenKind.kw_do = codes "do"
keyword_spelling TokenKind.kw_for = codes "for"
keyword_spelling TokenKind.kw_in = codes "in"
keyword_spelling TokenKind.kw_switch = codes "switch"
keyword_spelling TokenKind.kw_case = codes "case"
keyword_spelling TokenKind.kw_default = codes "default"
keyword_spelling TokenKind.kw_return = codes "return"
keyword_spelling TokenKind.kw_break = codes "break"
keyword_spelling TokenKind.kw_continue = codes "continue"
keyword_spelling TokenKind.kw_defer = codes "defer"
keyword_spelling TokenKind.kw_with = codes "with"
keyword_spelling TokenKind.kw_try = codes "try"
keyword_spelling TokenKind.kw_catch = codes "catch"
keyword_spelling TokenKind.kw_throw = codes "throw"
keyword_spelling TokenKind.kw_finally = codes "finally"
keyword_spelling TokenKind.kw_void = codes "void"
keyword_spelling TokenKind.kw_int = codes "int"
keyword_spelling TokenKind.kw_short = codes "short"
keyword_spelling TokenKind.kw_long = codes "long"
keyword_spelling TokenKind.kw_isize = codes "isize"
keyword_spelling TokenKind.kw_usize = codes "usize"
keyword_spelling TokenKind.kw_float = codes "float"
keyword_spelling TokenKind.kw_double = codes "double"
keyword_spelling TokenKind.kw_bool = codes "bool"
keyword_spelling TokenKind.kw_string = codes "string"
keyword_spelling TokenKind.kw_char = codes "char"
keyword_spelling TokenKind.kw_half = codes "half"
keyword_spelling TokenKind.kw_quarter = codes "quarter"
keyword_spelling TokenKind.kw_decimal = codes "decimal"
keyword_spelling TokenKind.kw_any = codes "any"
keyword_spelling TokenKind.kw_as = codes "as"
keyword_spelling TokenKind.kw_true = codes "true"
keyword_spelling TokenKind.kw_false = codes "false"
keyword_spelling TokenKind.kw_public = codes "public"
keyword_spelling TokenKind.kw_private = codes "private"
keyword_spelling TokenKind.kw_protected = codes "protected"
keyword_spelling TokenKind.kw_promise = codes "promise"
keyword_spelling TokenKind.kw_const = codes "const"
keyword_spelling TokenKind.kw_cast = codes "cast"
keyword_spelling TokenKind.kw_bitcast = codes "bitcast"
keyword_spelling TokenKind.kw_static = codes "static"
keyword_spelling TokenKind.kw_async = codes "async"
keyword_spelling TokenKind.kw_await = codes "await"
keyword_spelling TokenKind.kw_import = codes "import"
keyword_spelling TokenKind.kw_from = codes "from"
keyword_spelling TokenKind.kw_macro = codes "macro"
keyword_spelling TokenKind.kw_enum = codes "enum"
keyword_spelling TokenKind.kw_table = codes "table"
keyword_spelling TokenKind.kw_generic = codes "generic"
keyword_spelling TokenKind.kw_struct = codes "struct"
keyword_spelling TokenKind.kw_union = codes "union"
keyword_spelling TokenKind.kw_packed = codes "packed"
keyword_spelling TokenKind.kw_volatile = codes "volatile"
keyword_spelling TokenKind.kw_align = codes "align"
keyword_spelling TokenKind.kw_sizeof = codes "sizeof"
keyword_spelling TokenKind.kw_interrupt = codes "interrupt"
keyword_spelling TokenKind.kw_naked = codes "naked"
keyword_spelling TokenKind.kw_noreturn = codes "noreturn"
keyword_spelling TokenKind.kw_noinline = codes "noinline"
keyword_spelling TokenKind.kw_inline = codes "inline"
keyword_spelling TokenKind.kw_pure = codes "pure"
keyword_spelling TokenKind.kw_cold = codes "cold"
keyword_spelling TokenKind.kw_lock = codes "lock"
keyword_spelling TokenKind.kw_view = codes "view"
keyword_spelling TokenKind.kw_mut = codes "mut"
keyword_spelling TokenKind.kw_virtual = codes "virtual"
keyword_spelling TokenKind.kw_override = codes "override"
keyword_spelling TokenKind.kw_input = codes "input"
keyword_spelling TokenKind.kw_closure = codes "closure"
keyword_spelling TokenKind.kw_move = codes "move"
keyword_spelling TokenKind.kw_out = codes "out"
keyword_spelling TokenKind.kw_inout = codes "inout"
keyword_spelling TokenKind.kw_clobber = codes "clobber"
keyword_spelling TokenKind.kw_extern = codes "extern"
keyword_spelling TokenKind.kw_using = codes "using"
keyword_spelling TokenKind.kw_asm = codes "asm"
keyword_spelling TokenKind.kw_section = codes "section"
keyword_spelling TokenKind.kw_used = codes "used"
keyword_spelling TokenKind.kw_thread_local = codes "thread_local"
keyword_spelling _ = []

-- Each row of a switch is spelled as its value says.
abbrev rows_match {ℓ} : {A : Type ℓ} → (A → Bytes) → List (Bytes × A) → Bool
rows_match spelled [] = true
rows_match spelled ((v, a) ∷ cases) = bytes_eq v (spelled a) && rows_match spelled cases

-- In such a switch each text that a row takes is spelled as the result says.
string_switch-rows_match :
    {A : Type 0} (spelled : A → Bytes) (cases : List (Bytes × A)) (d : A) (w : Bytes)
    → rows_match spelled cases ≡ true
    → (string_switch cases d w ≡ d) ⊎ (w ≡ spelled (string_switch cases d w))
unfolding string_switch
string_switch-rows_match spelled [] d w h = inl refl
string_switch-rows_match spelled ((v, a) ∷ cases) d w h =
    let here : bytes_eq v (spelled a) ≡ true = ground arith in
    let rest : rows_match spelled cases ≡ true = ground arith in
    elim (Bool-cases (bytes_eq v w)) [
      | inl t ↦ rw t (inr (sym ((bytes_eq_iff v w).0 t) ∙ (bytes_eq_iff v (spelled a)).0 here))
      | inr f ↦ rw f (string_switch-rows_match spelled cases d w rest)
    ]

keywords_match : rows_match keyword_spelling keywords ≡ true
unfolding keyword_spelling bytes_eq
keywords_match = refl

-- A text is taken for an identifier, or it is the spelling of the keyword that it is taken for.
pub keyword_kind_spelling :
    (w : Bytes) → (keyword_kind w ≡ TokenKind.identifier) ⊎ (w ≡ keyword_spelling (keyword_kind w))
unfolding keyword_kind
keyword_kind_spelling w =
    string_switch-rows_match keyword_spelling keywords TokenKind.identifier w keywords_match

-- The spelling of a keyword is taken for that keyword; the other kinds have none, and the empty text
-- is taken for an identifier.
pub keyword_kind-keyword_spelling :
    (k : TokenKind) → (keyword_kind (keyword_spelling k) ≡ k) ⊎ (keyword_spelling k ≡ [])
unfolding keyword_kind keyword_spelling
keyword_kind-keyword_spelling TokenKind.kw_class = inl refl
keyword_kind-keyword_spelling TokenKind.kw_operator = inl refl
keyword_kind-keyword_spelling TokenKind.kw_thread = inl refl
keyword_kind-keyword_spelling TokenKind.kw_ref = inl refl
keyword_kind-keyword_spelling TokenKind.kw_weak = inl refl
keyword_kind-keyword_spelling TokenKind.kw_shared = inl refl
keyword_kind-keyword_spelling TokenKind.kw_new = inl refl
keyword_kind-keyword_spelling TokenKind.kw_delete = inl refl
keyword_kind-keyword_spelling TokenKind.kw_unsafe = inl refl
keyword_kind-keyword_spelling TokenKind.kw_unsigned = inl refl
keyword_kind-keyword_spelling TokenKind.kw_constructor = inl refl
keyword_kind-keyword_spelling TokenKind.kw_destructor = inl refl
keyword_kind-keyword_spelling TokenKind.kw_this = inl refl
keyword_kind-keyword_spelling TokenKind.kw_super = inl refl
keyword_kind-keyword_spelling TokenKind.kw_null = inl refl
keyword_kind-keyword_spelling TokenKind.kw_if = inl refl
keyword_kind-keyword_spelling TokenKind.kw_else = inl refl
keyword_kind-keyword_spelling TokenKind.kw_while = inl refl
keyword_kind-keyword_spelling TokenKind.kw_do = inl refl
keyword_kind-keyword_spelling TokenKind.kw_for = inl refl
keyword_kind-keyword_spelling TokenKind.kw_in = inl refl
keyword_kind-keyword_spelling TokenKind.kw_switch = inl refl
keyword_kind-keyword_spelling TokenKind.kw_case = inl refl
keyword_kind-keyword_spelling TokenKind.kw_default = inl refl
keyword_kind-keyword_spelling TokenKind.kw_return = inl refl
keyword_kind-keyword_spelling TokenKind.kw_break = inl refl
keyword_kind-keyword_spelling TokenKind.kw_continue = inl refl
keyword_kind-keyword_spelling TokenKind.kw_defer = inl refl
keyword_kind-keyword_spelling TokenKind.kw_with = inl refl
keyword_kind-keyword_spelling TokenKind.kw_try = inl refl
keyword_kind-keyword_spelling TokenKind.kw_catch = inl refl
keyword_kind-keyword_spelling TokenKind.kw_throw = inl refl
keyword_kind-keyword_spelling TokenKind.kw_finally = inl refl
keyword_kind-keyword_spelling TokenKind.kw_void = inl refl
keyword_kind-keyword_spelling TokenKind.kw_int = inl refl
keyword_kind-keyword_spelling TokenKind.kw_short = inl refl
keyword_kind-keyword_spelling TokenKind.kw_long = inl refl
keyword_kind-keyword_spelling TokenKind.kw_isize = inl refl
keyword_kind-keyword_spelling TokenKind.kw_usize = inl refl
keyword_kind-keyword_spelling TokenKind.kw_float = inl refl
keyword_kind-keyword_spelling TokenKind.kw_double = inl refl
keyword_kind-keyword_spelling TokenKind.kw_bool = inl refl
keyword_kind-keyword_spelling TokenKind.kw_string = inl refl
keyword_kind-keyword_spelling TokenKind.kw_char = inl refl
keyword_kind-keyword_spelling TokenKind.kw_half = inl refl
keyword_kind-keyword_spelling TokenKind.kw_quarter = inl refl
keyword_kind-keyword_spelling TokenKind.kw_decimal = inl refl
keyword_kind-keyword_spelling TokenKind.kw_any = inl refl
keyword_kind-keyword_spelling TokenKind.kw_as = inl refl
keyword_kind-keyword_spelling TokenKind.kw_true = inl refl
keyword_kind-keyword_spelling TokenKind.kw_false = inl refl
keyword_kind-keyword_spelling TokenKind.kw_public = inl refl
keyword_kind-keyword_spelling TokenKind.kw_private = inl refl
keyword_kind-keyword_spelling TokenKind.kw_protected = inl refl
keyword_kind-keyword_spelling TokenKind.kw_promise = inl refl
keyword_kind-keyword_spelling TokenKind.kw_const = inl refl
keyword_kind-keyword_spelling TokenKind.kw_cast = inl refl
keyword_kind-keyword_spelling TokenKind.kw_bitcast = inl refl
keyword_kind-keyword_spelling TokenKind.kw_static = inl refl
keyword_kind-keyword_spelling TokenKind.kw_async = inl refl
keyword_kind-keyword_spelling TokenKind.kw_await = inl refl
keyword_kind-keyword_spelling TokenKind.kw_import = inl refl
keyword_kind-keyword_spelling TokenKind.kw_from = inl refl
keyword_kind-keyword_spelling TokenKind.kw_macro = inl refl
keyword_kind-keyword_spelling TokenKind.kw_enum = inl refl
keyword_kind-keyword_spelling TokenKind.kw_table = inl refl
keyword_kind-keyword_spelling TokenKind.kw_generic = inl refl
keyword_kind-keyword_spelling TokenKind.kw_struct = inl refl
keyword_kind-keyword_spelling TokenKind.kw_union = inl refl
keyword_kind-keyword_spelling TokenKind.kw_packed = inl refl
keyword_kind-keyword_spelling TokenKind.kw_volatile = inl refl
keyword_kind-keyword_spelling TokenKind.kw_align = inl refl
keyword_kind-keyword_spelling TokenKind.kw_sizeof = inl refl
keyword_kind-keyword_spelling TokenKind.kw_interrupt = inl refl
keyword_kind-keyword_spelling TokenKind.kw_naked = inl refl
keyword_kind-keyword_spelling TokenKind.kw_noreturn = inl refl
keyword_kind-keyword_spelling TokenKind.kw_noinline = inl refl
keyword_kind-keyword_spelling TokenKind.kw_inline = inl refl
keyword_kind-keyword_spelling TokenKind.kw_pure = inl refl
keyword_kind-keyword_spelling TokenKind.kw_cold = inl refl
keyword_kind-keyword_spelling TokenKind.kw_lock = inl refl
keyword_kind-keyword_spelling TokenKind.kw_view = inl refl
keyword_kind-keyword_spelling TokenKind.kw_mut = inl refl
keyword_kind-keyword_spelling TokenKind.kw_virtual = inl refl
keyword_kind-keyword_spelling TokenKind.kw_override = inl refl
keyword_kind-keyword_spelling TokenKind.kw_input = inl refl
keyword_kind-keyword_spelling TokenKind.kw_closure = inl refl
keyword_kind-keyword_spelling TokenKind.kw_move = inl refl
keyword_kind-keyword_spelling TokenKind.kw_out = inl refl
keyword_kind-keyword_spelling TokenKind.kw_inout = inl refl
keyword_kind-keyword_spelling TokenKind.kw_clobber = inl refl
keyword_kind-keyword_spelling TokenKind.kw_extern = inl refl
keyword_kind-keyword_spelling TokenKind.kw_using = inl refl
keyword_kind-keyword_spelling TokenKind.kw_asm = inl refl
keyword_kind-keyword_spelling TokenKind.kw_section = inl refl
keyword_kind-keyword_spelling TokenKind.kw_used = inl refl
keyword_kind-keyword_spelling TokenKind.kw_thread_local = inl refl
keyword_kind-keyword_spelling _ = inr refl
