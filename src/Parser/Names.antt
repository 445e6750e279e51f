-- ===== src/Parser/Names.antt =====
-- The names of token kinds in messages: `tokenKindToString` in lib/frontend/parser/Parser.cpp.
use moksha.Base.{Bytes, codes}
use moksha.Lexer.Kinds.{TokenKind}

-- The kinds that the function does not name are `token`.
unfoldable pub token_kind_to_string : TokenKind → Bytes
token_kind_to_string TokenKind.eof = codes "end of file"
token_kind_to_string TokenKind.error = codes "error"
token_kind_to_string TokenKind.identifier = codes "identifier"
token_kind_to_string TokenKind.integer_literal = codes "integer literal"
token_kind_to_string TokenKind.float_literal = codes "float literal"
token_kind_to_string TokenKind.decimal_literal = codes "decimal literal"
token_kind_to_string TokenKind.string_literal = codes "string literal"
token_kind_to_string TokenKind.template_string = codes "template string"
token_kind_to_string TokenKind.char_literal = codes "char literal"
token_kind_to_string TokenKind.string_fragment = codes "string fragment"
token_kind_to_string TokenKind.interpolation_start = codes "${"
token_kind_to_string TokenKind.interpolation_end = codes "}"
token_kind_to_string TokenKind.kw_class = codes "'class'"
token_kind_to_string TokenKind.kw_ref = codes "'ref'"
token_kind_to_string TokenKind.kw_weak = codes "'weak'"
token_kind_to_string TokenKind.kw_shared = codes "'shared'"
token_kind_to_string TokenKind.kw_new = codes "'new'"
token_kind_to_string TokenKind.kw_delete = codes "'delete'"
token_kind_to_string TokenKind.kw_unsafe = codes "'unsafe'"
token_kind_to_string TokenKind.kw_unsigned = codes "'unsigned'"
token_kind_to_string TokenKind.kw_constructor = codes "'constructor'"
token_kind_to_string TokenKind.kw_destructor = codes "'destructor'"
token_kind_to_string TokenKind.kw_this = codes "'this'"
token_kind_to_string TokenKind.kw_super = codes "'super'"
token_kind_to_string TokenKind.kw_null = codes "'null'"
token_kind_to_string TokenKind.kw_if = codes "'if'"
token_kind_to_string TokenKind.kw_else = codes "'else'"
token_kind_to_string TokenKind.kw_while = codes "'while'"
token_kind_to_string TokenKind.kw_do = codes "'do'"
token_kind_to_string TokenKind.kw_for = codes "'for'"
token_kind_to_string TokenKind.kw_in = codes "'in'"
token_kind_to_string TokenKind.kw_switch = codes "'switch'"
token_kind_to_string TokenKind.kw_case = codes "'case'"
token_kind_to_string TokenKind.kw_default = codes "'default'"
token_kind_to_string TokenKind.kw_return = codes "'return'"
token_kind_to_string TokenKind.kw_break = codes "'break'"
token_kind_to_string TokenKind.kw_continue = codes "'continue'"
token_kind_to_string TokenKind.kw_defer = codes "'defer'"
token_kind_to_string TokenKind.kw_with = codes "'with'"
token_kind_to_string TokenKind.kw_try = codes "'try'"
token_kind_to_string TokenKind.kw_catch = codes "'catch'"
token_kind_to_string TokenKind.kw_throw = codes "'throw'"
token_kind_to_string TokenKind.kw_finally = codes "'finally'"
token_kind_to_string TokenKind.kw_void = codes "'void'"
token_kind_to_string TokenKind.kw_int = codes "'int'"
token_kind_to_string TokenKind.kw_float = codes "'float'"
token_kind_to_string TokenKind.kw_bool = codes "'bool'"
token_kind_to_string TokenKind.kw_string = codes "'string'"
token_kind_to_string TokenKind.kw_char = codes "'char'"
token_kind_to_string TokenKind.kw_decimal = codes "'decimal'"
token_kind_to_string TokenKind.kw_any = codes "'any'"
token_kind_to_string TokenKind.kw_promise = codes "'promise'"
token_kind_to_string TokenKind.kw_as = codes "'as'"
token_kind_to_string TokenKind.kw_true = codes "'true'"
token_kind_to_string TokenKind.kw_false = codes "'false'"
token_kind_to_string TokenKind.kw_public = codes "'public'"
token_kind_to_string TokenKind.kw_private = codes "'private'"
token_kind_to_string TokenKind.kw_protected = codes "'protected'"
token_kind_to_string TokenKind.kw_const = codes "'const'"
token_kind_to_string TokenKind.kw_static = codes "'static'"
token_kind_to_string TokenKind.kw_async = codes "'async'"
token_kind_to_string TokenKind.kw_await = codes "'await'"
token_kind_to_string TokenKind.kw_thread = codes "'thread'"
token_kind_to_string TokenKind.kw_import = codes "'import'"
token_kind_to_string TokenKind.kw_from = codes "'from'"
token_kind_to_string TokenKind.kw_macro = codes "'macro'"
token_kind_to_string TokenKind.kw_table = codes "'table'"
token_kind_to_string TokenKind.kw_generic = codes "'generic'"
token_kind_to_string TokenKind.kw_struct = codes "'struct'"
token_kind_to_string TokenKind.kw_union = codes "'union'"
token_kind_to_string TokenKind.kw_packed = codes "'packed'"
token_kind_to_string TokenKind.kw_volatile = codes "'volatile'"
token_kind_to_string TokenKind.kw_align = codes "'align'"
token_kind_to_string TokenKind.kw_sizeof = codes "'sizeof'"
token_kind_to_string TokenKind.kw_interrupt = codes "'interrupt'"
token_kind_to_string TokenKind.kw_naked = codes "'naked'"
token_kind_to_string TokenKind.kw_noreturn = codes "'noreturn'"
token_kind_to_string TokenKind.kw_noinline = codes "'noinline'"
token_kind_to_string TokenKind.kw_inline = codes "'inline'"
token_kind_to_string TokenKind.kw_pure = codes "'pure'"
token_kind_to_string TokenKind.kw_cold = codes "'cold'"
token_kind_to_string TokenKind.kw_lock = codes "'lock'"
token_kind_to_string TokenKind.kw_view = codes "'view'"
token_kind_to_string TokenKind.kw_mut = codes "'mut'"
token_kind_to_string TokenKind.kw_extern = codes "'extern'"
token_kind_to_string TokenKind.kw_using = codes "'using'"
token_kind_to_string TokenKind.kw_asm = codes "'asm'"
token_kind_to_string TokenKind.kw_section = codes "'section'"
token_kind_to_string TokenKind.kw_used = codes "'used'"
token_kind_to_string TokenKind.kw_thread_local = codes "'thread_local'"
token_kind_to_string TokenKind.kw_closure = codes "'closure'"
token_kind_to_string TokenKind.kw_out = codes "'out'"
token_kind_to_string TokenKind.kw_inout = codes "'inout'"
token_kind_to_string TokenKind.kw_clobber = codes "'clobber'"
token_kind_to_string TokenKind.kw_bitcast = codes "'bitcast'"
token_kind_to_string TokenKind.plus = codes "'+'"
token_kind_to_string TokenKind.minus = codes "'-'"
token_kind_to_string TokenKind.star = codes "'*'"
token_kind_to_string TokenKind.slash = codes "'/'"
token_kind_to_string TokenKind.percent = codes "'%'"
token_kind_to_string TokenKind.power = codes "'**'"
token_kind_to_string TokenKind.plus_plus = codes "'++'"
token_kind_to_string TokenKind.minus_minus = codes "'--'"
token_kind_to_string TokenKind.equal = codes "'='"
token_kind_to_string TokenKind.plus_equal = codes "'+='"
token_kind_to_string TokenKind.minus_equal = codes "'-='"
token_kind_to_string TokenKind.star_equal = codes "'*='"
token_kind_to_string TokenKind.slash_equal = codes "'/='"
token_kind_to_string TokenKind.percent_equal = codes "'%='"
token_kind_to_string TokenKind.amp = codes "'&'"
token_kind_to_string TokenKind.pipe = codes "'|'"
token_kind_to_string TokenKind.caret = codes "'^'"
token_kind_to_string TokenKind.tilde = codes "'~'"
token_kind_to_string TokenKind.amp_equal = codes "'&='"
token_kind_to_string TokenKind.pipe_equal = codes "'|='"
token_kind_to_string TokenKind.caret_equal = codes "'^='"
token_kind_to_string TokenKind.less_less = codes "'<<'"
token_kind_to_string TokenKind.greater_greater = codes "'>>'"
token_kind_to_string TokenKind.less_less_equal = codes "'<<='"
token_kind_to_string TokenKind.greater_greater_equal = codes "'>>='"
token_kind_to_string TokenKind.amp_amp = codes "'&&'"
token_kind_to_string TokenKind.pipe_pipe = codes "'||'"
token_kind_to_string TokenKind.pipe_greater = codes "'|>'"
token_kind_to_string TokenKind.bang = codes "'!'"
token_kind_to_string TokenKind.equal_equal = codes "'=='"
token_kind_to_string TokenKind.not_equal = codes "'!='"
token_kind_to_string TokenKind.less = codes "'<'"
token_kind_to_string TokenKind.less_equal = codes "'<='"
token_kind_to_string TokenKind.greater = codes "'>'"
token_kind_to_string TokenKind.greater_equal = codes "'>='"
token_kind_to_string TokenKind.fat_arrow = codes "'=>'"
token_kind_to_string TokenKind.dot = codes "'.'"
token_kind_to_string TokenKind.dot_dot_dot = codes "'...'"
token_kind_to_string TokenKind.question_dot = codes "'?.'"
token_kind_to_string TokenKind.question_question = codes "'??'"
token_kind_to_string TokenKind.question = codes "'?'"
token_kind_to_string TokenKind.colon = codes "':'"
token_kind_to_string TokenKind.comma = codes "','"
token_kind_to_string TokenKind.semicolon = codes "';'"
token_kind_to_string TokenKind.lparen = codes "'('"
token_kind_to_string TokenKind.rparen = codes "')'"
token_kind_to_string TokenKind.lbrace = codes "'{'"
token_kind_to_string TokenKind.rbrace = codes "'}'"
token_kind_to_string TokenKind.lbracket = codes "'['"
token_kind_to_string TokenKind.rbracket = codes "']'"
token_kind_to_string _ = codes "token"
