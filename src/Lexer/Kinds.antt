-- ===== src/Lexer/Kinds.antt =====
-- The kinds of tokens: include/moksha/Lexer/Lexer.h (`TokenKind`, `NumericSuffix`, `TokenFlag`,
-- `Token`).
use moksha.Base.{ℕ, ◌%◌, ◌^◌}

pub data TokenKind : Type 0 where
  -- Control & Diagnostics
  eof error comment : TokenKind
  -- Identifiers
  identifier : TokenKind
  -- Literals
  integer_literal float_literal decimal_literal string_literal template_string : TokenKind
  char_literal : TokenKind
  -- String Interpolation Components
  string_fragment interpolation_start interpolation_end : TokenKind
  -- Core Keywords
  kw_class kw_operator kw_thread kw_ref kw_weak kw_shared kw_new kw_delete : TokenKind
  kw_unsafe kw_unsigned kw_constructor kw_destructor kw_this kw_super kw_null : TokenKind
  -- Control Flow
  kw_if kw_else kw_while kw_do kw_for kw_in kw_switch kw_case kw_default kw_return : TokenKind
  kw_break kw_continue kw_defer kw_with : TokenKind
  -- Exceptions
  kw_try kw_catch kw_throw kw_finally : TokenKind
  -- Primitive Types
  kw_void kw_int kw_float kw_double kw_bool kw_string kw_char kw_short kw_long : TokenKind
  kw_isize kw_usize kw_half kw_quarter kw_decimal kw_any : TokenKind
  -- Type Operations
  kw_as kw_true kw_false : TokenKind
  -- Modifiers & Visibility
  kw_public kw_private kw_protected kw_promise kw_const kw_cast kw_bitcast : TokenKind
  kw_static : TokenKind
  -- Concurrency & Modules
  kw_async kw_await kw_import kw_from kw_macro : TokenKind
  -- Advanced Data Structures
  kw_table kw_enum kw_generic kw_struct kw_union : TokenKind
  -- Low-Level / Systems / Memory
  kw_packed kw_volatile kw_align kw_sizeof kw_interrupt kw_naked kw_noreturn : TokenKind
  kw_noinline kw_inline kw_pure kw_cold : TokenKind
  -- Borrow Checker & Qualifiers
  kw_lock kw_view kw_mut : TokenKind
  -- OOP & Closures
  kw_virtual kw_override kw_input kw_closure kw_move : TokenKind
  -- Assembly / Hardware
  kw_out kw_inout kw_clobber kw_extern kw_using kw_asm kw_section kw_used : TokenKind
  kw_thread_local : TokenKind
  -- Mathematical & Logical Operators
  plus minus star slash percent power plus_plus minus_minus : TokenKind
  -- Assignment Operators
  equal plus_equal minus_equal star_equal slash_equal percent_equal : TokenKind
  -- Bitwise & Pointers
  amp pipe caret tilde amp_equal pipe_equal caret_equal less_less greater_greater : TokenKind
  less_less_equal greater_greater_equal : TokenKind
  -- Logical Operators
  amp_amp pipe_pipe pipe_greater bang : TokenKind
  -- Relational Operators
  equal_equal not_equal less less_equal greater greater_equal : TokenKind
  -- Structural / Syntax Operators
  fat_arrow arrow dot dot_dot_dot question_dot question_question question colon : TokenKind
  comma semicolon : TokenKind
  -- Brackets & Grouping
  lparen rparen lbrace rbrace lbracket rbracket : TokenKind

-- The type suffix of a numeric literal.
pub data NumericSuffix : Type 0 where
  no_suffix : NumericSuffix
  i8 i16 i32 i64 isize : NumericSuffix
  u8 u16 u32 u64 usize : NumericSuffix
  f8 f16 f32 f64 : NumericSuffix
  d : NumericSuffix

-- The bits of `TokenFlag` that the lexer sets.
abbrev pub tf_none : ℕ
tf_none = 0

abbrev pub tf_is_hex : ℕ
tf_is_hex = 2 ^ 0

abbrev pub tf_is_bin : ℕ
tf_is_bin = 2 ^ 1

abbrev pub tf_is_octal : ℕ
tf_is_octal = 2 ^ 2

abbrev pub tf_is_escaped : ℕ
tf_is_escaped = 2 ^ 3

-- A location is an offset into the buffer. The length is a `uint32_t`.
pub record Token : Type 0 where
  pub kind : TokenKind
  pub location : ℕ
  pub length : ℕ
  pub suffix : NumericSuffix
  pub flags : ℕ

-- The conversion of a pointer difference to `uint32_t`.
abbrev pub uint32 : ℕ → ℕ
uint32 n = n % 2 ^ 32

-- `Token(kind, loc, len)`: no suffix and no flag.
abbrev pub token : TokenKind → ℕ → ℕ → Token
token k loc len = record {
  kind = k;
  location = loc;
  length = uint32 len;
  suffix = NumericSuffix.no_suffix;
  flags = tf_none;
}
