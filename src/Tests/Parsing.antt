-- ===== src/Tests/Parsing.antt =====
-- The theorems on the parser of expressions at concrete tokens.
use moksha.Base.{
  Option, ◌<◌, ◌≡◌, ◌⊎◌, refl, true, false, some, none, List, [], ◌∷◌, ◌++◌, Bytes, codes, arith,
  bytes_eq,
}
use moksha.Diagnostics.{fresh}
use moksha.Lexer.Kinds.{TokenKind, no_suffix}
use moksha.Lexer.Chars.{is_ascii_ident_start, is_ascii_ident_body}
use moksha.Parser.Ast.{Opaque, Expr, integer_literal}
use moksha.Parser.Factors.{star-declares, every}
use moksha.Parser.Infix.{parse_expression}
use moksha.Parser.Operators.{at_factor}
use moksha.Parser.Kinds.{is_any, kind_is}
use moksha.Parser.Literals.{parse_integer, without_underscores}
use moksha.Parser.Literals.Numerals.{parse_integer-numeral, all_digits, numeral}
use moksha.Parser.Lookahead.{
  has_newline_before, newline_behind, is_pointer_declaration, skip_bytes, taken_bytes, is_one_of,
  names_parameter, behind_bracket,
}
use moksha.Parser.Recovery.{synchronize_moves}
use moksha.Parser.RoundTrip.Whole.{parse-print}
use moksha.Parser.State.{Seen, State, finished, expect, at, size, synchronize, advance}
use moksha.Parser.Steps.{Result, Callees, when, chain}
use moksha.Parser.Trees.{
  Tree, leaf, node, rank, left_rank, right_rank, tagged, print, expression_of, IsPlain,
  written_leaf, written_node, IsWritten, push,
}
use moksha.Parser.Unescape.{unescape_string}
use moksha.Parser.Unescape.Escaped.{escaped, unescape_string-escaped}

-- A type is a name, with an expression in brackets behind it or none; a block is an expression in
-- braces.
abbrev type_of : (State → Result Expr) → State → Result (Option Opaque)
type_of expression s =
    when (at TokenKind.identifier s) s
      (λ t.
        when (at TokenKind.lbracket (advance t)) (advance t)
          (λ u.
            chain (expression (advance u)) (λ e v. some (some 2, (expect TokenKind.rbracket v).0)))
          (λ u. some (some 1, u)))
      (λ t. some (none, t))

abbrev block_of : (State → Result Expr) → State → Result Opaque
block_of expression s =
    chain (expression (expect TokenKind.lbrace s).0)
      (λ e t. some (3, (expect TokenKind.rbrace t).0))

abbrev callees : Callees
callees = record {
  accepts_float = λ t. true;
  utf8 = λ p. none;
  parse_type = type_of;
  parse_block = block_of;
}

abbrev seen : TokenKind → Bytes → Seen
seen k text = record {
  kind = k;
  spelling = text;
  suffix = no_suffix;
  location = 0;
  before = [];
  onward = text ++ codes " 1;";
}

abbrev state : List Seen → State
state ts = record { left = ts; ending = finished; end_at = 9; diags = fresh }

-- `f((T a) => { a }, new T(b))[0]`, with a bracket missing.
abbrev call_tokens : List Seen
call_tokens =
    seen TokenKind.identifier (codes "f")
    ∷ seen TokenKind.lparen (codes "(")
    ∷ seen TokenKind.lparen (codes "(")
    ∷ seen TokenKind.identifier (codes "T")
    ∷ seen TokenKind.identifier (codes "a")
    ∷ seen TokenKind.rparen (codes ")")
    ∷ seen TokenKind.fat_arrow (codes "=>")
    ∷ seen TokenKind.lbrace (codes "{")
    ∷ seen TokenKind.identifier (codes "a")
    ∷ seen TokenKind.rbrace (codes "}")
    ∷ seen TokenKind.comma (codes ",")
    ∷ seen TokenKind.kw_new (codes "new")
    ∷ seen TokenKind.identifier (codes "T")
    ∷ seen TokenKind.lparen (codes "(")
    ∷ seen TokenKind.identifier (codes "b")
    ∷ seen TokenKind.rparen (codes ")")
    ∷ seen TokenKind.rparen (codes ")")
    ∷ seen TokenKind.lbracket (codes "[")
    ∷ seen TokenKind.integer_literal (codes "0")
    ∷ seen TokenKind.semicolon (codes ";")
    ∷ []

-- `(a + b) * c ** d ** e ;`
abbrev name : Bytes → Tree
name text = leaf (seen TokenKind.identifier text)

abbrev tree : Tree
tree =
    node TokenKind.star (seen TokenKind.star (codes "*"))
      (node TokenKind.plus (seen TokenKind.plus (codes "+")) (name (codes "a")) (name (codes "b")))
      (node TokenKind.power (seen TokenKind.power (codes "**")) (name (codes "c")) (
        node TokenKind.power (seen TokenKind.power (codes "**")) (name (codes "d"))
          (name (codes "e"))))

abbrev behind : State
behind = state (seen TokenKind.semicolon (codes ";") ∷ [])

abbrev opening : Seen
opening = seen TokenKind.lparen (codes "(")

abbrev closing : Seen
closing = seen TokenKind.rparen (codes ")")

power-IsPlain : IsPlain TokenKind.power (seen TokenKind.power (codes "**"))
unfolding rank is_any kind_is has_newline_before newline_behind is_pointer_declaration skip_bytes
    taken_bytes is_one_of names_parameter behind_bracket bytes_eq is_ascii_ident_body
    is_ascii_ident_start
power-IsPlain = record {
  operator = omega arith;
  binds = omega arith;
  on_line = refl;
  no_pointer = refl;
  no_arguments = refl;
}

plus-IsPlain : IsPlain TokenKind.plus (seen TokenKind.plus (codes "+"))
unfolding rank is_any kind_is has_newline_before newline_behind is_pointer_declaration skip_bytes
    taken_bytes is_one_of names_parameter behind_bracket bytes_eq is_ascii_ident_body
    is_ascii_ident_start
plus-IsPlain = record {
  operator = omega arith;
  binds = omega arith;
  on_line = refl;
  no_pointer = refl;
  no_arguments = refl;
}

star-IsPlain : IsPlain TokenKind.star (seen TokenKind.star (codes "*"))
unfolding rank is_any kind_is has_newline_before newline_behind is_pointer_declaration skip_bytes
    taken_bytes is_one_of names_parameter behind_bracket bytes_eq is_ascii_ident_body
    is_ascii_ident_start
star-IsPlain = record {
  operator = omega arith;
  binds = omega arith;
  on_line = refl;
  no_pointer = refl;
  no_arguments = refl;
}

tree-IsWritten : IsWritten tree
unfolding bytes_eq
tree-IsWritten =
    written_node _ _ _ _ star-IsPlain
      (written_node _ _ _ _ plus-IsPlain (written_leaf _ refl) (written_leaf _ refl))
      (written_node _ _ _ _ power-IsPlain (written_leaf _ refl)
        (written_node _ _ _ _ power-IsPlain (written_leaf _ refl) (written_leaf _ refl)))

tree_tokens :
    print opening closing 0 tree
    ≡ opening
      ∷ seen TokenKind.identifier (codes "a")
      ∷ seen TokenKind.plus (codes "+")
      ∷ seen TokenKind.identifier (codes "b")
      ∷ closing
      ∷ seen TokenKind.star (codes "*")
      ∷ seen TokenKind.identifier (codes "c")
      ∷ seen TokenKind.power (codes "**")
      ∷ seen TokenKind.identifier (codes "d")
      ∷ seen TokenKind.power (codes "**")
      ∷ seen TokenKind.identifier (codes "e")
      ∷ []
unfolding print rank is_any kind_is left_rank right_rank
tree_tokens = refl

parse-print_example :
    parse_expression callees 12 (push (print opening closing 0 tree) behind)
    ≡ some (expression_of tree, behind)
unfolding rank is_any kind_is print left_rank right_rank
parse-print_example =
    parse-print callees opening closing 12 tree behind tree-IsWritten refl (omega arith)

synchronize_moves_example :
    (t : State) × (synchronize 21 (state call_tokens) ≡ some t)
    × (((at TokenKind.eof (state call_tokens) ≡ true) × (t ≡ state call_tokens))
        ⊎ (size t < size (state call_tokens)))
synchronize_moves_example = synchronize_moves 21 (state call_tokens) refl (omega arith)

unescape_string-escaped_example :
    unescape_string (λ p. none) (escaped (codes "say \"\\\n$")) ≡ codes "say \"\\\n$"
unescape_string-escaped_example = unescape_string-escaped (λ p. none) (codes "say \"\\\n$")

abbrev literal : State
literal = state (seen TokenKind.integer_literal (codes "01_7") ∷ [])

-- A zero in front makes the literal octal.
parse_integer-numeral_example :
    parse_integer literal ≡ (integer_literal (numeral 8 0 (codes "017")) no_suffix, advance literal)
unfolding without_underscores all_digits numeral
parse_integer-numeral_example =
    parse_integer-numeral literal b'0' (codes "17") refl refl (omega arith)

octal_value : numeral 8 0 (codes "017") ≡ 15
unfolding numeral
octal_value = refl

-- `x = a * b`, a new line, `y = 3`, at the star.
abbrev star : Seen
star = record (seen TokenKind.star (codes "*")) { onward = codes "* b\ny = 3" }

star-declares_example : at_factor (push (tagged TokenKind.star star ∷ []) (state [])) ≡ false
unfolding every is_ascii_ident_body is_ascii_ident_start
star-declares_example =
    star-declares (codes " ") [] [] (codes " = 3") b'b' b'\n' b'y' refl refl refl refl star
      (state []) refl
