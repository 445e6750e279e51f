-- ===== src/Lexer/Next/Loop.antt =====
-- The loop of `next`: its invariant, and its end.
use moksha.Base.{
  ℕ, suc, ◌≤◌, ◌<◌, ◌≡◌, ◌==◌, inl, inr, refl, ap, sym, ◌∙◌, Bool, true, false, ◌&&◌, ◌||◌, some,
  length, if◌then◌else◌, arith, Bool-cases, loop, Fine, loop_total, loop_result,
}
use moksha.Lexer.Kinds.{TokenKind, Token, token, uint32}
use moksha.Lexer.State.{Utf8, Lexer, at_end, peek, pointer, skip_whitespace}
use moksha.Lexer.State.Moves.{
  Moves, Moves-refl, Moves-trans, Moves-le, Moves-length, Moves-skip_whitespace, Frame, Same-refl,
  Frame-trans,
}
use moksha.Lexer.State.Well.{IsWell, IsWell-Frame, resumes}
use moksha.Lexer.Comment.{skip_comment}
use moksha.Lexer.Comment.Moves.{
  Reads-skip_comment, skip_comment_ahead, skip_comment-Frame, skip_comment_silent,
}
use moksha.Lexer.Text.Scanned.{string_low, scan_string-IsString}
use moksha.Lexer.Next.Result.{IsNext, IsNext-IsScanned, IsNext-low, IsNext-error, scan_token-IsNext}
use moksha.Lexer.Next.{NextStep, after_comment, next_step, next_body, next}

module _ (u : Utf8) (o : Lexer) (w : IsWell o) (code : resumes o ≡ false) where
  -- White space and comments were passed.
  record Skips (s : Lexer) : Type 0 where
    moves : Moves o s
    same : Frame o s
    silent : o.diags ≡ s.diags

  Skips-IsWell : (s : Lexer) → Skips s → IsWell s
  Skips-IsWell s k = IsWell-Frame s code w k.same (Moves-le k.moves)

  Skips-code : (s : Lexer) → Skips s → resumes s ≡ false
  Skips-code s k = ground (arith, k.same.state_eq, k.same.stack_eq)

  Skips-low : (s : Lexer) → Skips s → string_low o ≤ string_low s
  Skips-low s k = ground (arith, k.same.state_eq, k.same.fragment_eq, Moves-le k.moves)

  low-le : string_low o ≤ o.cur
  low-le = ground (arith, w.behind)

  Skips-whitespace : (s : Lexer) → Skips s → Skips (skip_whitespace s)
  unfolding skip_whitespace
  Skips-whitespace s k = record {
    moves = Moves-trans k.moves (Moves-skip_whitespace s);
    same = k.same;
    silent = k.silent;
  }

  left : Lexer → ℕ
  left s = length s.rest

  abbrev IsFine : Lexer → NextStep → Type 0
  IsFine = Fine Skips (IsNext (string_low o) o) left

  IsFine-if :
      (s : Lexer) (b : Bool) (y z : NextStep)
      → (b ≡ true → IsFine s y)
      → (b ≡ false → IsFine s z)
      → IsFine s (if b then y else z)
  IsFine-if s true y z p q = p refl
  IsFine-if s false y z p q = q refl

  after_comment-IsFine :
      (s t : Lexer) (r : Lexer × Bool)
      → length t.rest ≤ length s.rest
      → Skips t
      → Moves t r.0
      → Frame t r.0
      → (r.1 ≡ true → t.cur < r.0.cur)
      → (r.1 ≡ true → r.0.diags ≡ t.diags)
      → IsFine s (after_comment r)
  unfolding left
  after_comment-IsFine s t (c, true) h k m f a d = (
    record {
      moves = Moves-trans k.moves m;
      same = Frame-trans k.same f;
      silent = k.silent ∙ sym (d refl);
    },
    omega (arith, Moves-length m, a refl),
  )
  after_comment-IsFine s t (c, false) h k m f a d =
      IsNext-error c.cur (Moves-trans k.moves m)
        (omega (arith, low-le, Moves-le k.moves, Moves-le m)) (omega arith)
        (IsWell-Frame c code w (Frame-trans k.same f) (Moves-le (Moves-trans k.moves m)))

  eof-IsNext :
      (t : Lexer)
      → Skips t
      → at_end t ≡ true
      → IsNext (string_low o) o (t, token TokenKind.eof t.cur 0)
  eof-IsNext t k e = record {
    moves = k.moves;
    from = omega (arith, low-le, Moves-le k.moves);
    to = omega arith;
    ends = λ _. ap uint32 {x = 0} (omega arith);
    ahead = λ _. inr (refl, ground arith);
    quiet = λ _ _. sym k.silent;
    well = Skips-IsWell t k;
  }

  next_step-IsFine : (s : Lexer) → Skips s → IsFine s (next_step u s)
  unfolding next_step
  next_step-IsFine s k =
      let t = skip_whitespace s in
      let j = Skips-whitespace s k in
      IsFine-if s (at_end t) _ _ (eof-IsNext t j) (λ h.
        IsFine-if s (peek t 0 == b'/' && (peek t 1 == b'/' || peek t 1 == b'*')) _ _
          (λ _.
            after_comment-IsFine s t (skip_comment t)
              (omega
                (arith, Moves-length (Moves-skip_whitespace s), Moves-le (Moves-skip_whitespace s)))
              j (Reads-skip_comment t).moves (skip_comment-Frame t) (skip_comment_ahead t)
              (skip_comment_silent t))
          (λ _.
            IsNext-low (Skips-low t j)
              (scan_token-IsNext u t j.moves j.silent h (Skips-IsWell t j) (Skips-code t j))))

  Skips-here : Skips o
  Skips-here = record { moves = Moves-refl o; same = Same-refl; silent = refl }

  next_body-IsNext : IsNext (string_low o) o (next_body u o)
  unfolding left
  next_body-IsNext =
      loop_result Skips (IsNext (string_low o) o) left (next_step u) next_step-IsFine
        (suc (length o.rest)) o _ Skips-here (omega arith)

  -- Outside of template strings: with more rounds than bytes left, the loop over white space and
  -- comments ends with a token.
  pub IsNext-loop_total :
      (fuel : ℕ)
      → length o.rest < fuel
      → (r : Lexer × Token) × (loop (next_step u) fuel o ≡ some r) × IsNext (string_low o) o r
  unfolding left
  IsNext-loop_total fuel h =
      loop_total Skips (IsNext (string_low o) o) left (next_step u) next_step-IsFine fuel o
        Skips-here h

-- A call of `next` keeps the lexer in order, and its token stands in the text that it passes: it
-- begins at the cursor (or the fragment, in a template string) or behind it, and it ends at the new
-- cursor unless it is an error. But for errors, the cursor goes on by a byte at least, or the token
-- is `Eof` and nothing is left; and but for errors and string fragments, nothing is reported.
pub next-IsNext : (u : Utf8) (s : Lexer) → IsWell s → IsNext (string_low s) s (next u s)
unfolding next
next-IsNext u s w = elim (Bool-cases (resumes s)) [
  | inl r ↦ rw r (elim (Bool-cases (at_end s)) [
    | inl e ↦ rw e (
        IsNext-error (pointer s.fragment_start) (Moves-refl s) (ground (arith, w.behind)) w.behind
          w)
    | inr e ↦ rw e (
        let at = w.at_cursor r in
        let i = scan_string-IsString s e w.behind (λ _. inl (ground arith)) in
        IsNext-IsScanned (Moves-refl s) refl (omega arith) i.scanned i.well)
  ])
  | inr code ↦ rw code (next_body-IsNext u s w code)
]
