-- ===== src/Parser/Unescape.antt =====
-- `unescapeString` in lib/frontend/parser/Parser.cpp.
pub mod Escaped
use moksha.Base.{
  ℕ, zero, suc, ◌%◌, ◌^◌, ◌==◌, Option, none, some, [], ◌∷◌, ◌++◌, Bytes, leb, if◌then◌else◌, take,
  drop, length, get_or,
}
use moksha.Parser.Strto.{stoull, stoi_char}

-- `llvm::ConvertCodePointToUTF8`: the bytes of a code point, where it has a form.
abbrev pub ToUtf8 : Type 0
ToUtf8 = ℕ → Option Bytes

-- The byte of a simple escape. Every byte that has no case of its own stands for itself, as do the
-- quotes, the backslash and the dollar sign.
unfoldable pub simple_escape : ℕ → ℕ
simple_escape e =
    if e == b'n'
    then 10
    else if e == b'r'
    then 13
    else if e == b't'
    then 9
    else if e == b'b'
    then 8
    else if e == b'0'
    then 0
    else e

-- `raw.find('}', …)`: the number of the bytes in front of the first right brace.
unfoldable pub find_brace : Bytes → Option ℕ
find_brace [] = none
find_brace (c ∷ cs) =
    let later = find_brace cs in
    if c == b'}' then some 0 else elim later [ none ↦ none | some n ↦ some (suc n) ]

abbrev or_nothing : Option Bytes → Bytes
or_nothing none = []
or_nothing (some t) = t

abbrev one_byte : Option ℕ → Bytes
one_byte none = []
one_byte (some c) = c ∷ []

-- The `uint32_t` that the digits give, 0 where they give none.
abbrev code_point : Option ℕ → ℕ
code_point none = 0
code_point (some v) = v % 2 ^ 32

-- What one round of the loop appends to the result, and the text that it leaves.
abbrev Round : Type 0
Round = Bytes × Bytes

abbrev as_code_point : ToUtf8 → Bytes → Bytes → Round
as_code_point utf8 hex rest = (or_nothing (utf8 (code_point (stoull 16 hex))), rest)

-- \u{1F600}, behind the left brace; `kept` is what a malformed escape leaves.
unfoldable pub braced_round : ToUtf8 → Round → Bytes → Round
unfolding stoull find_brace
braced_round utf8 kept cs = elim (find_brace cs) [
  | none ↦ kept
  | some n ↦ as_code_point utf8 (take n cs) (drop (suc n) cs)
]

-- A backslash, the byte `e` and the text behind.
unfoldable pub escape_round : ToUtf8 → ℕ → Bytes → Round
unfolding stoull stoi_char braced_round simple_escape
escape_round utf8 e cs =
    let kept : Round = (b'\\' ∷ [], e ∷ cs) in
    let fixed : ℕ → Round =
      λ n. if leb n (length cs) then as_code_point utf8 (take n cs) (drop n cs) else kept in
    if e == b'x'
    then (if leb 2 (length cs) then (one_byte (stoi_char (take 2 cs)), drop 2 cs) else kept)
    else if e == b'u'
    then (if get_or cs 0 0 == b'{' then braced_round utf8 kept (drop 1 cs) else fixed 4)
    else if e == b'U'
    then fixed 8
    else (simple_escape e ∷ [], cs)

abbrev unescape_round : ToUtf8 → ℕ → Bytes → Round
unescape_round utf8 c [] = (c ∷ [], [])
unescape_round utf8 c (e ∷ cs) = if c == b'\\' then escape_round utf8 e cs else (c ∷ [], e ∷ cs)

-- The loop, on fuel: at most one round for each byte.
unfoldable pub unescape_loop : ToUtf8 → ℕ → Bytes → Bytes
unfolding escape_round
unescape_loop utf8 zero cs = []
unescape_loop utf8 (suc fuel) [] = []
unescape_loop utf8 (suc fuel) (c ∷ cs) =
    let (out, rest) = unescape_round utf8 c cs in out ++ unescape_loop utf8 fuel rest

-- `unescapeString(raw)`
unfoldable pub unescape_string : ToUtf8 → Bytes → Bytes
unfolding unescape_loop
unescape_string utf8 raw = unescape_loop utf8 (length raw) raw
