-- ===== src/Parser/State.antt =====
-- The state of the parser and its moves: `advance`, `consumeIf`, `expect`, `expectGreater`, `error`
-- and `synchronize` in lib/frontend/parser/Parser.cpp.
use moksha.Base.{
  Option, none, some, ℕ, zero, suc, Bool, true, false, List, [], ◌∷◌, ◌++◌, ◌+◌, Bytes, codes,
  length, if◌then◌else◌, ◌||◌,
}
use moksha.Diagnostics.{DiagnosticEngine, report}
use moksha.Diagnostics.Ids.{DiagId, err_expected_token}
use moksha.Lexer.Kinds.{TokenKind, NumericSuffix, no_suffix}
use moksha.Parser.Names.{token_kind_to_string}
use moksha.Parser.Kinds.{kind_is, is_any}

-- A token as the parser sees it: its spelling points into the source text, of which `before` is
-- what stands in front of the token, the nearest byte first, and `onward` what begins with it.
pub record Seen : Type 0 where
  pub kind : TokenKind
  pub spelling : Bytes
  pub suffix : NumericSuffix
  pub location : ℕ
  pub before : Bytes
  pub onward : Bytes

-- What the lexer returns for ever behind its last other token: the end of the file, or an error token,
-- as `Lexer::next` does at bytes that are no UTF-8 (lib/frontend/lexer/Lexer.cpp, `scanIdentifier`)
-- and in a template string that is not finished. Of the error token `t` the kind is not read.
pub data Ending : Type 0 where
  finished : Ending
  stuck : (t : Seen) → Ending

-- The tokens from `curTok` on, as the lexer returns them; behind them stands the end of the file, at
-- the place `end_at`, or the error that does not end.
pub record State : Type 0 where
  pub left : List Seen
  pub ending : Ending
  pub end_at : ℕ
  pub diags : DiagnosticEngine

abbrev pub eof_at : ℕ → Seen
eof_at loc = record {
  kind = TokenKind.eof;
  spelling = [];
  suffix = no_suffix;
  location = loc;
  before = [];
  onward = [];
}

abbrev last_of : ℕ → Ending → Seen
last_of loc finished = eof_at loc
last_of loc (stuck t) = record t { kind = TokenKind.error }

abbrev first_of : ℕ → Ending → List Seen → Seen
first_of loc e [] = last_of loc e
first_of loc e (t ∷ ts) = t

abbrev rest_of : List Seen → List Seen
rest_of [] = []
rest_of (t ∷ ts) = ts

-- `curTok` and `nextTok`
abbrev pub cur : State → Seen
cur s = first_of s.end_at s.ending s.left

abbrev pub following : State → Seen
following s = first_of s.end_at s.ending (rest_of s.left)

abbrev pub size : State → ℕ
size s = length s.left

-- The number of the tokens that are left, and more than `bound` where an error follows for ever.
abbrev pub debt : ℕ → Ending → ℕ
debt bound finished = 0
debt bound (stuck t) = suc bound

abbrev pub weight : ℕ → State → ℕ
weight bound s = debt bound s.ending + length s.left

-- `while (curTok.is(TokenKind::Comment))`
unfoldable pub skip_comments : List Seen → List Seen
unfolding kind_is
skip_comments [] = []
skip_comments (t ∷ ts) =
    let later = skip_comments ts in if kind_is TokenKind.comment t.kind then later else t ∷ ts

unfoldable pub advance : State → State
unfolding skip_comments
advance s = record s { left = skip_comments (rest_of s.left) }

-- `error(message)`, and `Diags.report(curTok.location, id) << message`.
unfoldable pub report_here : DiagId → Bytes → State → State
report_here id message s = record s { diags = report s.diags (cur s).location id message }

unfoldable pub error : Bytes → State → State
unfolding report_here
error = report_here err_expected_token

-- `curTok.is(k)` and `curTok.isAny(k, …)`
unfoldable pub at : TokenKind → State → Bool
unfolding kind_is
at k s = kind_is k (cur s).kind

unfoldable pub at_any : List TokenKind → State → Bool
unfolding is_any
at_any ks s = is_any ks (cur s).kind

-- `consumeIf(kind)`
unfoldable pub consume_if : TokenKind → State → State × Bool
unfolding advance at
consume_if k s = if at k s then (advance s, true) else (s, false)

expected : TokenKind → State → Bytes
expected k s =
    codes "Expected " ++ (token_kind_to_string k ++ (codes ", but found " ++ (cur s).spelling))

-- `expect(kind)`
unfoldable pub expect : TokenKind → State → State × Bool
unfolding advance at error expected
expect k s = if at k s then (advance s, true) else (error (expected k s) s, false)

-- `curTok.kind = kind`
abbrev pub retag : TokenKind → List Seen → List Seen
retag k [] = []
retag k (t ∷ ts) = record t { kind = k } ∷ ts

-- `expectGreater()`: of `>>` and `>>=` one `>` is taken by changing the kind of the token.
unfoldable pub expect_greater : State → State × Bool
unfolding expect at
expect_greater s =
    if at TokenKind.greater s
    then (advance s, true)
    else if at TokenKind.greater_greater s
    then (record s { left = retag TokenKind.greater s.left }, true)
    else if at TokenKind.greater_greater_equal s
    then (record s { left = retag TokenKind.greater_equal s.left }, true)
    else expect TokenKind.greater s

-- The kinds at which `synchronize` stops.
abbrev pub stops : List TokenKind
stops =
    TokenKind.kw_class ∷ TokenKind.kw_if ∷ TokenKind.kw_while ∷ TokenKind.kw_for
    ∷ TokenKind.kw_return ∷ TokenKind.kw_import ∷ TokenKind.rbrace ∷ []

-- The loop of `synchronize`, on fuel.
unfoldable pub synchronize_loop : ℕ → State → Option State
unfolding at at_any advance
synchronize_loop zero s = none
synchronize_loop (suc fuel) s =
    if at TokenKind.eof s || at_any stops s then some s else elim (at TokenKind.semicolon s) [
      | true ↦ some (advance s)
      | false ↦ synchronize_loop fuel (advance s)
    ]

unfoldable pub synchronize : ℕ → State → Option State
unfolding synchronize_loop
synchronize fuel s =
    if at TokenKind.eof s
    then some s
    else if at TokenKind.semicolon s
    then some (advance s)
    else synchronize_loop fuel (advance s)
