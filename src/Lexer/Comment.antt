-- ===== src/Lexer/Comment.antt =====
-- `skipComment` in lib/frontend/lexer/Lexer.cpp.
pub mod Moves
pub mod Nested
use moksha.Base.{
  ℕ, zero, suc, ◌+◌, ◌-◌, ◌%◌, ◌^◌, ◌==◌, Bool, true, false, not, ◌&&◌, ◌||◌, List, [], ◌∷◌, Bytes,
  codes, if◌then◌else◌,
}
use moksha.Lexer.State.{Lexer, peek, advance, span, skip_while, unexpected}

abbrev pub not_line_end : ℕ → Bool
not_line_end c = not (c == b'\n') && not (c == b'\r')

-- The loop over a block comment: the bytes that it passes, and whether the comment ends. The depth
-- is an `int`; its overflow, undefined in C++, wraps around here.
unfoldable pub block_loop : ℕ → Bytes → ℕ × Bool
block_loop depth [] = (0, false)
block_loop depth (c ∷ []) = (1, false)
block_loop depth (c ∷ e ∷ cs) = elim (c == b'/' && e == b'*') [
  | true ↦ let (n, closed) = block_loop ((depth + 1) % 2 ^ 32) cs in (n + 2, closed)
  | false ↦ elim (c == b'*' && e == b'/') [
    | true ↦
        let lower = (depth + (2 ^ 32 - 1)) % 2 ^ 32 in
        elim (lower == 0) [
          | true ↦ (2, true)
          | false ↦ let (n, closed) = block_loop lower cs in (n + 2, closed)
        ]
    | false ↦ let (n, closed) = block_loop depth (e ∷ cs) in (n + 1, closed)
  ]
]

-- Behind the loop of the block comment that began at offset `start`.
abbrev block_end : ℕ → Lexer → ℕ × Bool → Lexer × Bool
block_end start s (n, true) = (advance s n, true)
block_end start s (n, false) =
    (unexpected (advance s n) start (codes "unterminated block comment"), false)

unfoldable pub skip_comment : Lexer → Lexer × Bool
skip_comment s =
    if peek s 1 == b'/'
    then (skip_while not_line_end (advance s 2), true)
    else if peek s 1 == b'*'
    then block_end s.cur (advance s 2) (block_loop 1 (advance s 2).rest)
    else (s, false)
