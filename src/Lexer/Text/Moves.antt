-- ===== src/Lexer/Text/Moves.antt =====
-- The cursor across an escape sequence.
use moksha.Base.{
  ℕ, ◌≡◌, ◌==◌, refl, Bool, true, false, not, Bytes, length, leb, if◌then◌else◌, arith,
}
use moksha.Lexer.State.{Lexer, at_end, peek, advance, skip_while, unexpected}
use moksha.Lexer.State.Moves.{
  Moves, Moves-refl, Moves-trans, Moves-one, Moves-peek, Moves-advance, Moves-skip_while, Frame,
  Same-refl,
}
use moksha.Lexer.Chars.{is_hex_digit}
use moksha.Lexer.Text.{all_hex, fixed_escape, braced_escape, is_simple_escape, consume_escape}

-- The cursor goes on, and unless the escape is refused nothing is reported.
pub record IsEscape (s : Lexer) (r : Lexer × Bool) : Type 0 where
  pub moves : Moves s r.0
  pub same : Frame s r.0
  pub silent : r.1 ≡ true → r.0.diags ≡ s.diags

IsEscape-if :
    {s : Lexer} (b : Bool) (x y : Lexer × Bool)
    → (b ≡ true → IsEscape s x)
    → (b ≡ false → IsEscape s y)
    → IsEscape s (if b then x else y)
IsEscape-if true x y p q = p refl
IsEscape-if false x y p q = q refl

module _ {s : Lexer} (t : Lexer) (m : Moves s t) (f : Frame s t) (e : t.diags ≡ s.diags) where
  IsEscape-taken : IsEscape s (t, true)
  IsEscape-taken = record { moves = m; same = f; silent = λ _. e }

  IsEscape-refused : IsEscape s (t, false)
  IsEscape-refused = record { moves = m; same = f; silent = λ h. cc }

  IsEscape-reported : (loc : ℕ) (extra : Bytes) → IsEscape s (unexpected t loc extra, false)
  IsEscape-reported loc extra = record {
    moves = record { word = m.word; splits = m.splits; counts = m.counts };
    same = f;
    silent = λ h. cc;
  }

  fixed_escape-IsEscape : (n : ℕ) → IsEscape s (fixed_escape n t)
  unfolding fixed_escape
  fixed_escape-IsEscape n =
      IsEscape-if (not (leb n (length t.rest))) _ _ (λ _. IsEscape-refused)
        (λ fits.
          IsEscape-if (not (all_hex n t.rest)) _ _ (λ _. IsEscape-reported t.cur _)
            (λ _. record {
              moves = Moves-trans m (Moves-advance t n (ground arith));
              same = f;
              silent = λ _. e;
            }))

braced_escape-IsEscape :
    {s : Lexer} (t : Lexer)
    → Moves s t
    → Frame s t
    → t.diags ≡ s.diags
    → IsEscape s (braced_escape t)
unfolding braced_escape
braced_escape-IsEscape {s} t m f e =
    let v = skip_while is_hex_digit t in
    let n : Moves s v = Moves-trans m (Moves-skip_while is_hex_digit t) in
    IsEscape-if (at_end v) _ _ (λ _. IsEscape-reported v n f e v.cur _)
      (λ left.
        IsEscape-if (peek v 0 == b'}') _ _
          (λ _. IsEscape-taken (advance v 1) (Moves-trans n (Moves-one v left)) f e)
          (λ _. IsEscape-reported v n f e v.cur _))

-- From a backslash that is left. The cursor passes it in any case.
pub consume_escape-IsEscape :
    (s : Lexer) → at_end s ≡ false → IsEscape (advance s 1) (consume_escape s)
unfolding consume_escape
consume_escape-IsEscape s h =
    let t = advance s 1 in
    IsEscape-if (at_end t) _ _ (λ _. IsEscape-refused t (Moves-refl t) Same-refl refl)
      (λ left.
        let one : Moves t (advance t 1) = Moves-one t left in
        IsEscape-if (is_simple_escape (peek t 0)) _ _
          (λ _. IsEscape-taken (advance t 1) one Same-refl refl)
          (λ _.
            IsEscape-if (peek t 0 == b'x') _ _
              (λ _. fixed_escape-IsEscape (advance t 1) one Same-refl refl 2)
              (λ _.
                IsEscape-if (peek t 0 == b'u') _ _
                  (λ _.
                    IsEscape-if (peek t 1 == b'{') _ _
                      (λ brace.
                        braced_escape-IsEscape (advance t 2) (Moves-peek t 1 (ground arith))
                          Same-refl refl)
                      (λ _. fixed_escape-IsEscape (advance t 1) one Same-refl refl 4))
                  (λ _.
                    IsEscape-if (peek t 0 == b'U') _ _
                      (λ _. fixed_escape-IsEscape (advance t 1) one Same-refl refl 8)
                      (λ _. IsEscape-reported t (Moves-refl t) Same-refl refl s.cur _)))))
