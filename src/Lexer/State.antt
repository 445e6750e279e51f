-- ===== src/Lexer/State.antt =====
-- The lexer's state and its helpers: include/moksha/Lexer/Lexer.h (`Lexer`, `errorAt`) and
-- lib/frontend/lexer/Lexer.cpp (the constructor, `peek`, `skipWhitespace`, `advanceUTF8`).
-- A pointer into the buffer is its offset. The state keeps the bytes from `curPtr` to `bufferEnd`,
-- so `curPtr < bufferEnd` is that some are left; a read at the end of the buffer gives the NUL that
-- llvm's buffers end with.
pub mod Moves
pub mod Reads
pub mod Scanned
pub mod Well
use moksha.Base.{
  ℕ, suc, ◌+◌, ◌-◌, ◌≡◌, Bool, true, false, ◌&&◌, ◌||◌, Option, none, some, List, [], ◌∷◌, Bytes,
  length, get_or, take, drop, ltb, leb, ◌==◌, if◌then◌else◌, max, codes,
}
use moksha.Diagnostics.{DiagnosticEngine, report}
use moksha.Diagnostics.Ids.{err_unexpected_char}
use moksha.Lexer.Kinds.{TokenKind, Token, token}

-- What the lexer uses of llvm/Support/ConvertUTF.h.
pub record Utf8 : Type 0 where
  -- `getNumBytesForUTF8`, of the first byte of a sequence
  pub num_bytes : ℕ → ℕ
  -- `isLegalUTF8Sequence`, of the bytes between its two arguments
  pub is_legal : Bytes → Bool

pub data LexerState : Type 0 where
  normal template_string : LexerState

-- `interpolation_stack` has the back of the vector first, and keeps each `braceBalance`.
pub record Lexer : Type 0 where
  pub cur : ℕ
  pub rest : Bytes
  pub fragment_start : Option ℕ
  pub state : LexerState
  pub interpolation_stack : List ℕ
  pub diags : DiagnosticEngine

-- `Lexer::Lexer`
abbrev pub lexer : Bytes → DiagnosticEngine → Lexer
lexer buffer e = record {
  cur = 0;
  rest = buffer;
  fragment_start = none;
  state = normal;
  interpolation_stack = [];
  diags = e;
}

abbrev pub at_end : Lexer → Bool
at_end s = elim s.rest [ [] ↦ true | _ ↦ false ]

abbrev pub in_template_string : Lexer → Bool
in_template_string s = elim s.state [ normal ↦ false | template_string ↦ true ]

abbrev pub no_interpolation : Lexer → Bool
no_interpolation s = elim s.interpolation_stack [ [] ↦ true | _ ↦ false ]

-- `curPtr[n]`, or 0 from the end of the buffer on.
abbrev pub peek : Lexer → ℕ → ℕ
peek s n = get_or s.rest n 0

-- `curPtr += n`
abbrev pub advance : Lexer → ℕ → Lexer
advance s n = record s { cur = s.cur + n; rest = drop n s.rest }

-- The number of bytes that `while (curPtr < bufferEnd && p(*curPtr)) curPtr++` passes.
unfoldable pub span : (ℕ → Bool) → Bytes → ℕ
span p [] = 0
span p (c ∷ cs) = if p c then suc (span p cs) else 0

abbrev pub skip_while : (ℕ → Bool) → Lexer → Lexer
skip_while p s = advance s (span p s.rest)

-- `errorAt`
abbrev pub error_at : Lexer → ℕ → Token
error_at s start = token TokenKind.error start (max 1 (s.cur - start))

-- A pointer that may be null, read as the start of the buffer where it is.
abbrev pub pointer : Option ℕ → ℕ
pointer none = 0
pointer (some p) = p

-- `Diags.report(loc, err_unexpected_char) << extra`
abbrev pub unexpected : Lexer → ℕ → Bytes → Lexer
unexpected s loc extra = record s { diags = report s.diags loc err_unexpected_char extra }

abbrev pub is_space : ℕ → Bool
is_space c = c == b' ' || c == b'\t' || c == 11 || c == 12 || c == b'\r' || c == b'\n'

unfoldable pub skip_whitespace : Lexer → Lexer
skip_whitespace s = skip_while is_space s

-- Whether the cursor stands before a whole and legal UTF-8 sequence.
abbrev pub utf8_fits : Utf8 → Lexer → Bool
utf8_fits u s =
    let len = u.num_bytes (peek s 0) in
    ltb 0 len && leb len (length s.rest) && u.is_legal (take len s.rest)

unfoldable pub advance_utf8 : Utf8 → Lexer → Lexer × Bool
advance_utf8 u s = if utf8_fits u s then (advance s (u.num_bytes (peek s 0)), true) else (s, false)
