-- ===== src/Parser/Kinds.antt =====
-- The values of the enumeration `TokenKind` in include/moksha/Lexer/Lexer.h, and the tests `is` and
-- `isAny` of a token.
use moksha.Base.{ℕ, Bool, false, ◌||◌, ◌==◌, List, [], ◌∷◌}
use moksha.Lexer.Kinds.{TokenKind}

unfoldable pub kind_value : TokenKind → ℕ
kind_value TokenKind.eof = 0
kind_value TokenKind.error = 1
kind_value TokenKind.comment = 2
kind_value TokenKind.identifier = 3
kind_value TokenKind.integer_literal = 4
kind_value TokenKind.float_literal = 5
kind_value TokenKind.decimal_literal = 6
kind_value TokenKind.string_literal = 7
kind_value TokenKind.template_string = 8
kind_value TokenKind.char_literal = 9
kind_value TokenKind.string_fragment = 10
kind_value TokenKind.interpolation_start = 11
kind_value TokenKind.interpolation_end = 12
kind_value TokenKind.kw_class = 13
kind_value TokenKind.kw_operator = 14
kind_value TokenKind.kw_thread = 15
kind_value TokenKind.kw_ref = 16
kind_value TokenKind.kw_weak = 17
kind_value TokenKind.kw_shared = 18
kind_value TokenKind.kw_new = 19
kind_value TokenKind.kw_delete = 20
kind_value TokenKind.kw_unsafe = 21
kind_value TokenKind.kw_unsigned = 22
kind_value TokenKind.kw_constructor = 23
kind_value TokenKind.kw_destructor = 24
kind_value TokenKind.kw_this = 25
kind_value TokenKind.kw_super = 26
kind_value TokenKind.kw_null = 27
kind_value TokenKind.kw_if = 28
kind_value TokenKind.kw_else = 29
kind_value TokenKind.kw_while = 30
kind_value TokenKind.kw_do = 31
kind_value TokenKind.kw_for = 32
kind_value TokenKind.kw_in = 33
kind_value TokenKind.kw_switch = 34
kind_value TokenKind.kw_case = 35
kind_value TokenKind.kw_default = 36
kind_value TokenKind.kw_return = 37
kind_value TokenKind.kw_break = 38
kind_value TokenKind.kw_continue = 39
kind_value TokenKind.kw_defer = 40
kind_value TokenKind.kw_with = 41
kind_value TokenKind.kw_try = 42
kind_value TokenKind.kw_catch = 43
kind_value TokenKind.kw_throw = 44
kind_value TokenKind.kw_finally = 45
kind_value TokenKind.kw_void = 46
kind_value TokenKind.kw_int = 47
kind_value TokenKind.kw_float = 48
kind_value TokenKind.kw_double = 49
kind_value TokenKind.kw_bool = 50
kind_value TokenKind.kw_string = 51
kind_value TokenKind.kw_char = 52
kind_value TokenKind.kw_short = 53
kind_value TokenKind.kw_long = 54
kind_value TokenKind.kw_isize = 55
kind_value TokenKind.kw_usize = 56
kind_value TokenKind.kw_half = 57
kind_value TokenKind.kw_quarter = 58
kind_value TokenKind.kw_decimal = 59
kind_value TokenKind.kw_any = 60
kind_value TokenKind.kw_as = 61
kind_value TokenKind.kw_true = 62
kind_value TokenKind.kw_false = 63
kind_value TokenKind.kw_public = 64
kind_value TokenKind.kw_private = 65
kind_value TokenKind.kw_protected = 66
kind_value TokenKind.kw_promise = 67
kind_value TokenKind.kw_const = 68
kind_value TokenKind.kw_cast = 69
kind_value TokenKind.kw_bitcast = 70
kind_value TokenKind.kw_static = 71
kind_value TokenKind.kw_async = 72
kind_value TokenKind.kw_await = 73
kind_value TokenKind.kw_import = 74
kind_value TokenKind.kw_from = 75
kind_value TokenKind.kw_macro = 76
kind_value TokenKind.kw_table = 77
kind_value TokenKind.kw_enum = 78
kind_value TokenKind.kw_generic = 79
kind_value TokenKind.kw_struct = 80
kind_value TokenKind.kw_union = 81
kind_value TokenKind.kw_packed = 82
kind_value TokenKind.kw_volatile = 83
kind_value TokenKind.kw_align = 84
kind_value TokenKind.kw_sizeof = 85
kind_value TokenKind.kw_interrupt = 86
kind_value TokenKind.kw_naked = 87
kind_value TokenKind.kw_noreturn = 88
kind_value TokenKind.kw_noinline = 89
kind_value TokenKind.kw_inline = 90
kind_value TokenKind.kw_pure = 91
kind_value TokenKind.kw_cold = 92
kind_value TokenKind.kw_lock = 93
kind_value TokenKind.kw_view = 94
kind_value TokenKind.kw_mut = 95
kind_value TokenKind.kw_virtual = 96
kind_value TokenKind.kw_override = 97
kind_value TokenKind.kw_input = 98
kind_value TokenKind.kw_closure = 99
kind_value TokenKind.kw_move = 100
kind_value TokenKind.kw_out = 101
kind_value TokenKind.kw_inout = 102
kind_value TokenKind.kw_clobber = 103
kind_value TokenKind.kw_extern = 104
kind_value TokenKind.kw_using = 105
kind_value TokenKind.kw_asm = 106
kind_value TokenKind.kw_section = 107
kind_value TokenKind.kw_used = 108
kind_value TokenKind.kw_thread_local = 109
kind_value TokenKind.plus = 110
kind_value TokenKind.minus = 111
kind_value TokenKind.star = 112
kind_value TokenKind.slash = 113
kind_value TokenKind.percent = 114
kind_value TokenKind.power = 115
kind_value TokenKind.plus_plus = 116
kind_value TokenKind.minus_minus = 117
kind_value TokenKind.equal = 118
kind_value TokenKind.plus_equal = 119
kind_value TokenKind.minus_equal = 120
kind_value TokenKind.star_equal = 121
kind_value TokenKind.slash_equal = 122
kind_value TokenKind.percent_equal = 123
kind_value TokenKind.amp = 124
kind_value TokenKind.pipe = 125
kind_value TokenKind.caret = 126
kind_value TokenKind.tilde = 127
kind_value TokenKind.amp_equal = 128
kind_value TokenKind.pipe_equal = 129
kind_value TokenKind.caret_equal = 130
kind_value TokenKind.less_less = 131
kind_value TokenKind.greater_greater = 132
kind_value TokenKind.less_less_equal = 133
kind_value TokenKind.greater_greater_equal = 134
kind_value TokenKind.amp_amp = 135
kind_value TokenKind.pipe_pipe = 136
kind_value TokenKind.pipe_greater = 137
kind_value TokenKind.bang = 138
kind_value TokenKind.equal_equal = 139
kind_value TokenKind.not_equal = 140
kind_value TokenKind.less = 141
kind_value TokenKind.less_equal = 142
kind_value TokenKind.greater = 143
kind_value TokenKind.greater_equal = 144
kind_value TokenKind.fat_arrow = 145
kind_value TokenKind.arrow = 146
kind_value TokenKind.dot = 147
kind_value TokenKind.dot_dot_dot = 148
kind_value TokenKind.question_dot = 149
kind_value TokenKind.question_question = 150
kind_value TokenKind.question = 151
kind_value TokenKind.colon = 152
kind_value TokenKind.comma = 153
kind_value TokenKind.semicolon = 154
kind_value TokenKind.lparen = 155
kind_value TokenKind.rparen = 156
kind_value TokenKind.lbrace = 157
kind_value TokenKind.rbrace = 158
kind_value TokenKind.lbracket = 159
kind_value TokenKind.rbracket = 160

-- `tok.is(k)`
unfoldable pub kind_is : TokenKind → TokenKind → Bool
unfolding kind_value
kind_is k e = kind_value k == kind_value e

-- `tok.isAny(k, …)`
unfoldable pub is_any : List TokenKind → TokenKind → Bool
unfolding kind_is
is_any [] e = false
is_any (k ∷ ks) e = kind_is k e || is_any ks e
