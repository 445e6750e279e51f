-- ===== src/Parser/Lookahead.antt =====
-- Looking ahead in the source text: `hasNewlineBeforeToken`, `isStartOfDeclaration` and the test for
-- a typed lambda of `parsePrimary` in lib/frontend/parser/Parser.cpp.
use moksha.Base.{
  ℕ, zero, suc, ◌==◌, Bool, true, false, not, ◌&&◌, ◌||◌, List, [], ◌∷◌, Bytes, codes, bytes_eq,
  if◌then◌else◌, get_or, drop, length,
}
use moksha.Lexer.Kinds.{TokenKind}
use moksha.Lexer.Chars.{is_ascii_ident_start, is_ascii_ident_body}
use moksha.Parser.Kinds.{kind_is}
use moksha.Parser.State.{Seen, State, cur, following, at, at_any}

abbrev pub is_space : ℕ → Bool
is_space c = c == b' ' || c == b'\t' || c == b'\r' || c == b'\n'

abbrev is_line_end : ℕ → Bool
is_line_end c = c == b'\n' || c == b'\r'

-- `*ptr`: a zero byte stands behind the text.
abbrev pub byte : Bytes → ℕ
byte cs = get_or cs 0 0

-- The scan of white space backwards, from the byte in front of the token; it ends at the start of
-- the text, before which the program reads a byte that is no part of it.
unfoldable pub newline_behind : Bytes → Bool
newline_behind [] = false
newline_behind (c ∷ cs) =
    let later = newline_behind cs in
    if is_space c then (if is_line_end c then true else later) else false

abbrev is_empty : Bytes → Bool
is_empty [] = true
is_empty _ = false

-- `hasNewlineBeforeToken(tok)`
unfoldable pub has_newline_before : Seen → Bool
unfolding newline_behind
has_newline_before t = if is_empty t.spelling then false else newline_behind t.before

-- `while (p(*ptr)) ptr++`, for a test that fails on the zero byte.
unfoldable pub skip_bytes : (ℕ → Bool) → Bytes → Bytes
skip_bytes p [] = []
skip_bytes p (c ∷ cs) = let later = skip_bytes p cs in if p c then later else c ∷ cs

-- The bytes that such a loop passes.
unfoldable pub taken_bytes : (ℕ → Bool) → Bytes → Bytes
taken_bytes p [] = []
taken_bytes p (c ∷ cs) = let later = taken_bytes p cs in if p c then c ∷ later else []

abbrev pub skip_space : Bytes → Bytes
skip_space = skip_bytes is_space

abbrev pub starts_name : Bytes → Bool
starts_name cs = is_ascii_ident_start (byte cs)

-- The scan for the bracket that matches the first one: the text behind it, or else the text at the
-- byte at which the scan stopped, and whether it was found. In the program the depth is an `int`,
-- which a closing bracket in front of every opening one takes below 0: here it is `depth - debt`.
unfoldable pub behind_bracket : ℕ → ℕ → (ℕ → Bool) → ℕ → ℕ → Bytes → Bytes × Bool
behind_bracket opening closing stop depth debt [] = ([], false)
behind_bracket opening closing stop depth debt (c ∷ cs) =
    let later =
      behind_bracket opening closing stop (if c == opening then suc depth else depth)
        (if c == closing then suc debt else debt) cs in
    if stop c
    then (c ∷ cs, false)
    else if c == closing && depth == suc debt
    then (cs, true)
    else later

abbrev at_statement_end : ℕ → Bool
at_statement_end c = c == 0 || c == b';' || c == b'\n'

abbrev at_group_end : ℕ → Bool
at_group_end c = c == 0 || c == b')' || c == b'\n'

abbrev name_behind : Bytes × Bool → Bool
name_behind (cs, found) = found && starts_name (skip_space cs)

-- `Box<T> b` of `parsePrimary`: whether a name stands behind the bracket that matches the `<`.
unfoldable pub names_parameter : Bytes → Bool
unfolding behind_bracket skip_bytes
names_parameter text = name_behind (behind_bracket b'<' b'>' at_group_end 0 0 text)

-- `(Type) => Result`
abbrev arrow_behind : Bytes × Bool → Bool
arrow_behind (cs, found) = let t = skip_space cs in found && byte t == b'=' && get_or t 1 0 == b'>'

unfoldable pub is_function_type : Bytes → Bool
unfolding behind_bracket skip_bytes
is_function_type text = arrow_behind (behind_bracket b'(' b')' at_statement_end 0 0 text)

-- Chains of `.name` behind a name; the fuel is the number of the bytes.
unfoldable pub skip_chain : ℕ → Bytes → Bytes
unfolding skip_bytes
skip_chain zero cs = cs
skip_chain (suc fuel) cs =
    let t = skip_space cs in
    let name = skip_space (drop 1 t) in
    if byte t == b'.' && starts_name name
    then skip_chain fuel (skip_bytes is_ascii_ident_body name)
    else cs

-- The text behind a `[...]`, and that behind any other byte.
abbrev behind_element : ℕ → Bytes → Bytes
behind_element c cs = if c == b'[' then (behind_bracket b'[' b']' (λ e. e == 0) 1 0 cs).0 else cs

-- "Type[] Name", "Type? Name", "Type* Name"; the fuel is more than the number of the bytes.
unfoldable pub names_variable : ℕ → Bytes → Bool
unfolding behind_bracket
names_variable zero cs = false
names_variable (suc fuel) [] = false
names_variable (suc fuel) (c ∷ cs) =
    let later = names_variable fuel (behind_element c cs) in
    if c == b'[' || is_space c || c == b'?' || c == b'*' then later else is_ascii_ident_start c

-- 3. An identifier: "MyType x" against "myVar = 5".
unfoldable pub is_typed_name : Bytes → Bool
unfolding skip_bytes skip_chain behind_bracket names_variable
is_typed_name text =
    let name = skip_bytes is_ascii_ident_body text in
    let t = skip_space (skip_chain (length name) name) in
    if starts_name t
    then true
    else if byte t == b'<'
    then name_behind (behind_bracket b'<' b'>' at_statement_end 0 0 t)
    else names_variable (suc (length t)) t

abbrev pub is_prefix_operator : ℕ → Bool
is_prefix_operator c = c == b'*' || c == b'&' || is_space c

unfoldable pub is_one_of : List Bytes → Bytes → Bool
unfolding bytes_eq
is_one_of [] w = false
is_one_of (t ∷ ts) w = bytes_eq w t || is_one_of ts w

abbrev pub type_words : List Bytes
type_words =
    codes "mut"
    ∷ codes "const"
    ∷ codes "lock"
    ∷ codes "view"
    ∷ codes "int"
    ∷ codes "float"
    ∷ codes "double"
    ∷ codes "bool"
    ∷ codes "string"
    ∷ codes "char"
    ∷ codes "short"
    ∷ codes "long"
    ∷ codes "isize"
    ∷ codes "usize"
    ∷ codes "half"
    ∷ codes "quarter"
    ∷ codes "void"
    ∷ codes "any"
    ∷ codes "unsigned"
    ∷ codes "volatile"
    ∷ codes "decimal"
    ∷ []

abbrev pub behind_arguments : Bytes → Bytes
behind_arguments t =
    if byte t == b'<' then (behind_bracket b'<' b'>' at_statement_end 0 0 t).0 else t

-- 4. Prefix pointers and references.
unfoldable pub is_pointer_declaration : Bytes → Bool
unfolding skip_bytes taken_bytes behind_bracket is_one_of
is_pointer_declaration text =
    let t = skip_bytes is_prefix_operator text in
    let behind = skip_bytes is_ascii_ident_body t in
    if is_one_of type_words (taken_bytes is_ascii_ident_body t)
    then true
    else starts_name (skip_space (behind_arguments behind))

abbrev declaration_keywords : List TokenKind
declaration_keywords =
    TokenKind.kw_import ∷ TokenKind.kw_from ∷ TokenKind.kw_generic ∷ TokenKind.kw_enum
    ∷ TokenKind.kw_class ∷ TokenKind.kw_struct ∷ TokenKind.kw_union ∷ TokenKind.kw_ref
    ∷ TokenKind.kw_thread ∷ TokenKind.kw_table ∷ TokenKind.kw_unsigned ∷ TokenKind.kw_weak
    ∷ TokenKind.kw_async ∷ TokenKind.kw_shared ∷ TokenKind.kw_macro ∷ TokenKind.kw_const
    ∷ TokenKind.kw_static ∷ TokenKind.kw_public ∷ TokenKind.kw_private ∷ TokenKind.kw_protected
    ∷ TokenKind.kw_extern ∷ TokenKind.kw_using ∷ TokenKind.kw_packed ∷ TokenKind.kw_align
    ∷ TokenKind.kw_section ∷ TokenKind.kw_interrupt ∷ TokenKind.kw_naked ∷ TokenKind.kw_noreturn
    ∷ TokenKind.kw_noinline ∷ TokenKind.kw_volatile ∷ TokenKind.kw_inline ∷ TokenKind.kw_pure
    ∷ TokenKind.kw_cold ∷ TokenKind.kw_lock ∷ TokenKind.kw_view ∷ TokenKind.kw_mut
    ∷ TokenKind.kw_used ∷ TokenKind.kw_thread_local ∷ []

abbrev primitive_keywords : List TokenKind
primitive_keywords =
    TokenKind.kw_int ∷ TokenKind.kw_float ∷ TokenKind.kw_bool ∷ TokenKind.kw_string
    ∷ TokenKind.kw_void ∷ TokenKind.kw_any ∷ TokenKind.kw_char ∷ TokenKind.kw_isize
    ∷ TokenKind.kw_usize ∷ TokenKind.kw_short ∷ TokenKind.kw_long ∷ TokenKind.kw_double
    ∷ TokenKind.kw_half ∷ TokenKind.kw_quarter ∷ TokenKind.kw_unsigned ∷ TokenKind.kw_decimal
    ∷ TokenKind.kw_promise ∷ []

-- A block of `lock`, `view` or `mut`, or `async lock`.
abbrev starts_block : State → Bool
starts_block s =
    let next_is : TokenKind → Bool = λ k. kind_is k (following s).kind in
    (at TokenKind.kw_lock s && (next_is TokenKind.lbrace || next_is TokenKind.lparen))
    || (at_any (TokenKind.kw_view ∷ TokenKind.kw_mut ∷ []) s && next_is TokenKind.lbrace)
    || (at TokenKind.kw_async s && next_is TokenKind.kw_lock)

-- `isStartOfDeclaration()`
unfoldable pub is_start_of_declaration : State → Bool
unfolding at at_any kind_is is_function_type is_typed_name is_pointer_declaration
is_start_of_declaration s =
    if at_any declaration_keywords s
    then not (starts_block s)
    else if at TokenKind.kw_closure s
    then true
    else if at TokenKind.lparen s
    then is_function_type (cur s).onward
    else if at_any primitive_keywords s
    then not (kind_is TokenKind.lparen (following s).kind)
    else if at TokenKind.identifier s
    then is_typed_name (cur s).onward
    else if at_any (TokenKind.star ∷ TokenKind.power ∷ TokenKind.amp ∷ []) s
    then is_pointer_declaration (cur s).onward
    else false
