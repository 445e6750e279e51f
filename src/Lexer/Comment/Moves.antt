-- ===== src/Lexer/Comment/Moves.antt =====
-- The cursor across a comment.
use moksha.Base.{
  ℕ, ◌+◌, ◌-◌, ◌%◌, ◌^◌, ◌≤◌, ◌<◌, ◌≡◌, ◌==◌, Bool, true, false, [], ◌∷◌, Bytes, length, arith,
}
use moksha.Lexer.State.{Lexer, peek, advance}
use moksha.Lexer.State.Moves.{
  Moves, Moves-trans, Moves-advance, Moves-peek, Moves-skip_while, Frame,
}
use moksha.Lexer.State.Reads.{Reads, Reads-if, Reads-pair, Reads-here, Moves-unexpected}
use moksha.Lexer.Comment.{not_line_end, block_loop, block_end, skip_comment}

block_loop-le : (depth : ℕ) (cs : Bytes) → (block_loop depth cs).0 ≤ length cs
unfolding block_loop
block_loop-le depth [] = omega arith
block_loop-le depth (c ∷ []) = omega arith
block_loop-le depth (c ∷ e ∷ cs) = ground (
  arith,
  block_loop-le ((depth + 1) % 2 ^ 32) cs,
  block_loop-le ((depth + (2 ^ 32 - 1)) % 2 ^ 32) cs,
  block_loop-le depth (e ∷ cs),
)

Reads-block_end :
    {s : Lexer} (start : ℕ) (t : Lexer) (r : ℕ × Bool)
    → Moves s (advance t r.0)
    → Reads s (block_end start t r)
Reads-block_end start t (n, true) m = Reads-pair _ _ m
Reads-block_end start t (n, false) m = Reads-pair _ _ (Moves-unexpected _ start _ m)

-- The bytes of the two marks, and those that the loops pass.
pub Reads-skip_comment : (s : Lexer) → Reads s (skip_comment s)
unfolding skip_comment
Reads-skip_comment s =
    Reads-if (peek s 1 == b'/') _ _
      (λ line.
        Reads-pair _ _ (
          Moves-trans (Moves-peek s 1 (ground arith))
            (Moves-skip_while not_line_end (advance s 2))))
      (λ _.
        Reads-if (peek s 1 == b'*') _ _
          (λ block. Reads-block_end s.cur (advance s 2) _ (
            Moves-trans (Moves-peek s 1 (ground arith))
              (Moves-advance (advance s 2) _ (block_loop-le 1 (advance s 2).rest))))
          (λ _. Reads-here false))

-- A comment that is skipped has at least its two marks.
pub skip_comment_ahead : (s : Lexer) → (skip_comment s).1 ≡ true → s.cur < (skip_comment s).0.cur
unfolding skip_comment
skip_comment_ahead s h = ground arith

block_end-Frame :
    (start : ℕ) (s t : Lexer) (r : ℕ × Bool) → Frame s t → Frame s (block_end start t r).0
block_end-Frame start s t (n, true) f = f
block_end-Frame start s t (n, false) f = f

pub skip_comment-Frame : (s : Lexer) → Frame s (skip_comment s).0
unfolding skip_comment
skip_comment-Frame s =
    ground (arith, block_end-Frame s.cur s (advance s 2) (block_loop 1 (advance s 2).rest))

-- Where no comment is left open, nothing is reported.
pub skip_comment_silent :
    (s : Lexer) → (skip_comment s).1 ≡ true → (skip_comment s).0.diags ≡ s.diags
unfolding skip_comment
skip_comment_silent s h = ground arith
