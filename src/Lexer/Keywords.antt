-- ===== src/Lexer/Keywords.antt =====
-- The keywords: the `StringSwitch` of `scanIdentifier` in lib/frontend/lexer/Lexer.cpp.
pub mod RoundTrip
use moksha.Base.{List, [], ◌∷◌, Bytes, codes, bytes_eq, if◌then◌else◌}
use moksha.Lexer.Kinds.{TokenKind}

-- `StringSwitch`: the texts are compared in order, and the first that is equal gives the value.
unfoldable pub string_switch {ℓ} : {A : Type ℓ} → List (Bytes × A) → A → Bytes → A
string_switch [] default w = default
string_switch ((v, a) ∷ cases) default w = if bytes_eq v w then a else string_switch cases default w

abbrev pub keywords : List (Bytes × TokenKind)
keywords =
    (codes "class", TokenKind.kw_class)
    ∷ (codes "operator", TokenKind.kw_operator)
    ∷ (codes "thread", TokenKind.kw_thread)
    ∷ (codes "ref", TokenKind.kw_ref)
    ∷ (codes "weak", TokenKind.kw_weak)
    ∷ (codes "shared", TokenKind.kw_shared)
    ∷ (codes "new", TokenKind.kw_new)
    ∷ (codes "delete", TokenKind.kw_delete)
    ∷ (codes "unsafe", TokenKind.kw_unsafe)
    ∷ (codes "unsigned", TokenKind.kw_unsigned)
    ∷ (codes "constructor", TokenKind.kw_constructor)
    ∷ (codes "destructor", TokenKind.kw_destructor)
    ∷ (codes "this", TokenKind.kw_this)
    ∷ (codes "super", TokenKind.kw_super)
    ∷ (codes "null", TokenKind.kw_null)
    ∷ (codes "if", TokenKind.kw_if)
    ∷ (codes "else", TokenKind.kw_else)
    ∷ (codes "while", TokenKind.kw_while)
    ∷ (codes "do", TokenKind.kw_do)
    ∷ (codes "for", TokenKind.kw_for)
    ∷ (codes "in", TokenKind.kw_in)
    ∷ (codes "switch", TokenKind.kw_switch)
    ∷ (codes "case", TokenKind.kw_case)
    ∷ (codes "default", TokenKind.kw_default)
    ∷ (codes "return", TokenKind.kw_return)
    ∷ (codes "break", TokenKind.kw_break)
    ∷ (codes "continue", TokenKind.kw_continue)
    ∷ (codes "defer", TokenKind.kw_defer)
    ∷ (codes "with", TokenKind.kw_with)
    ∷ (codes "try", TokenKind.kw_try)
    ∷ (codes "catch", TokenKind.kw_catch)
    ∷ (codes "throw", TokenKind.kw_throw)
    ∷ (codes "finally", TokenKind.kw_finally)
    ∷ (codes "void", TokenKind.kw_void)
    ∷ (codes "int", TokenKind.kw_int)
    ∷ (codes "short", TokenKind.kw_short)
    ∷ (codes "long", TokenKind.kw_long)
    ∷ (codes "isize", TokenKind.kw_isize)
    ∷ (codes "usize", TokenKind.kw_usize)
    ∷ (codes "float", TokenKind.kw_float)
    ∷ (codes "double", TokenKind.kw_double)
    ∷ (codes "bool", TokenKind.kw_bool)
    ∷ (codes "string", TokenKind.kw_string)
    ∷ (codes "char", TokenKind.kw_char)
    ∷ (codes "half", TokenKind.kw_half)
    ∷ (codes "quarter", TokenKind.kw_quarter)
    ∷ (codes "decimal", TokenKind.kw_decimal)
    ∷ (codes "any", TokenKind.kw_any)
    ∷ (codes "as", TokenKind.kw_as)
    ∷ (codes "true", TokenKind.kw_true)
    ∷ (codes "false", TokenKind.kw_false)
    ∷ (codes "public", TokenKind.kw_public)
    ∷ (codes "private", TokenKind.kw_private)
    ∷ (codes "protected", TokenKind.kw_protected)
    ∷ (codes "promise", TokenKind.kw_promise)
    ∷ (codes "const", TokenKind.kw_const)
    ∷ (codes "cast", TokenKind.kw_cast)
    ∷ (codes "bitcast", TokenKind.kw_bitcast)
    ∷ (codes "static", TokenKind.kw_static)
    ∷ (codes "async", TokenKind.kw_async)
    ∷ (codes "await", TokenKind.kw_await)
    ∷ (codes "import", TokenKind.kw_import)
    ∷ (codes "from", TokenKind.kw_from)
    ∷ (codes "macro", TokenKind.kw_macro)
    ∷ (codes "enum", TokenKind.kw_enum)
    ∷ (codes "table", TokenKind.kw_table)
    ∷ (codes "generic", TokenKind.kw_generic)
    ∷ (codes "struct", TokenKind.kw_struct)
    ∷ (codes "union", TokenKind.kw_union)
    ∷ (codes "packed", TokenKind.kw_packed)
    ∷ (codes "volatile", TokenKind.kw_volatile)
    ∷ (codes "align", TokenKind.kw_align)
    ∷ (codes "sizeof", TokenKind.kw_sizeof)
    ∷ (codes "interrupt", TokenKind.kw_interrupt)
    ∷ (codes "naked", TokenKind.kw_naked)
    ∷ (codes "noreturn", TokenKind.kw_noreturn)
    ∷ (codes "noinline", TokenKind.kw_noinline)
    ∷ (codes "inline", TokenKind.kw_inline)
    ∷ (codes "pure", TokenKind.kw_pure)
    ∷ (codes "cold", TokenKind.kw_cold)
    ∷ (codes "lock", TokenKind.kw_lock)
    ∷ (codes "view", TokenKind.kw_view)
    ∷ (codes "mut", TokenKind.kw_mut)
    ∷ (codes "virtual", TokenKind.kw_virtual)
    ∷ (codes "override", TokenKind.kw_override)
    ∷ (codes "input", TokenKind.kw_input)
    ∷ (codes "closure", TokenKind.kw_closure)
    ∷ (codes "move", TokenKind.kw_move)
    ∷ (codes "out", TokenKind.kw_out)
    ∷ (codes "inout", TokenKind.kw_inout)
    ∷ (codes "clobber", TokenKind.kw_clobber)
    ∷ (codes "extern", TokenKind.kw_extern)
    ∷ (codes "using", TokenKind.kw_using)
    ∷ (codes "asm", TokenKind.kw_asm)
    ∷ (codes "section", TokenKind.kw_section)
    ∷ (codes "used", TokenKind.kw_used)
    ∷ (codes "thread_local", TokenKind.kw_thread_local)
    ∷ []

unfoldable pub keyword_kind : Bytes → TokenKind
unfolding string_switch bytes_eq
keyword_kind = string_switch keywords TokenKind.identifier
