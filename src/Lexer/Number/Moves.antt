-- ===== src/Lexer/Number/Moves.antt =====
-- The cursor across a number.
use moksha.Base.{ℕ, ◌≡◌, ◌==◌, refl, Bool, true, false, ◌||◌, Bytes, if◌then◌else◌, arith, ◌≢◌}
use moksha.Lexer.State.{Lexer, peek, advance, skip_while, unexpected}
use moksha.Lexer.State.Moves.{
  Moves, Moves-refl, Moves-trans, Moves-peek, Moves-skip_while, Frame, Same-refl, Frame-trans,
}
use moksha.Lexer.Chars.{is_digit, is_hex_digit, is_bin_digit, is_oct_digit}
use moksha.Lexer.Number.{
  Number, plain, or_underscore, digit_or_underscore, dotted, prefixed, number_prefix, more_points,
  fraction, exponent_sign, exponent_digits, exponent, uncurried, number_body,
}

-- From `s` to `t` the cursor goes on, and nothing is reported unless an error is noted.
pub record Notes (s : Lexer) (n : Number) (t : Lexer) (m : Number) : Type 0 where
  pub moves : Moves s t
  pub before : m.had_lexical_error ≡ false → n.had_lexical_error ≡ false
  pub silent : m.had_lexical_error ≡ false → t.diags ≡ s.diags
  pub same : Frame s t

abbrev pub NotesTo : Lexer → Number → Lexer × Number → Type 0
NotesTo s n (t, m) = Notes s n t m

pub Notes-refl : (s : Lexer) (n : Number) → Notes s n s n
Notes-refl s n = record {
  moves = Moves-refl s;
  before = λ e. e;
  silent = λ _. refl;
  same = Same-refl;
}

pub Notes-trans : {s t u : Lexer} {n m k : Number} → Notes s n t m → Notes t m u k → Notes s n u k
Notes-trans p q = record {
  moves = Moves-trans p.moves q.moves;
  before = λ e. p.before (q.before e);
  silent = λ e. cc (p.silent (q.before e), q.silent e);
  same = Frame-trans p.same q.same;
}

Notes-float :
    {s : Lexer} (t : Lexer) (n : Number)
    → Moves s t
    → t.diags ≡ s.diags
    → Frame s t
    → Notes s n t (record n { is_float = true })
Notes-float t n m e f = record { moves = m; before = λ h. h; silent = λ _. e; same = f }

pub Notes-error :
    {s : Lexer} (t : Lexer) (n : Number)
    → Moves s t
    → Frame s t
    → Notes s n t (record n { had_lexical_error = true })
Notes-error t n m f = record { moves = m; before = λ h. cc; silent = λ h. cc; same = f }

-- A report leaves the cursor where it is.
Moves-reported :
    {t : Lexer} (s : Lexer) (loc : ℕ) (extra : Bytes) → Moves (unexpected s loc extra) t → Moves s t
Moves-reported s loc extra m = record { word = m.word; splits = m.splits; counts = m.counts }

pub NotesTo-if :
    {s : Lexer} {n : Number} (b : Bool) (x y : Lexer × Number)
    → (b ≡ true → NotesTo s n x)
    → (b ≡ false → NotesTo s n y)
    → NotesTo s n (if b then x else y)
NotesTo-if true x y p q = p refl
NotesTo-if false x y p q = q refl

pub NotesTo-trans :
    {s t : Lexer} {n m : Number} (r : Lexer × Number)
    → Notes s n t m
    → NotesTo t m r
    → NotesTo s n r
NotesTo-trans (u, k) p q = Notes-trans p q

pub Notes-digits : (s : Lexer) (n : Number) → Notes s n (skip_while digit_or_underscore s) n
Notes-digits s n = record {
  moves = Moves-skip_while _ s;
  before = λ e. e;
  silent = λ _. refl;
  same = Same-refl;
}

more_points-Notes : (s : Lexer) (n : Number) → NotesTo s n (more_points s n)
unfolding more_points
more_points-Notes s n =
    NotesTo-if (peek s 0 == b'.') _ _
      (λ _. Notes-error _ n (Moves-reported s s.cur _ (Moves-skip_while dotted _)) Same-refl)
      (λ _. Notes-refl s n)

pub fraction-Notes : (s : Lexer) (n : Number) → NotesTo s n (fraction s n)
unfolding fraction
fraction-Notes s n =
    NotesTo-if (peek s 0 == b'.') _ _
      (λ point.
        let one : Moves s (advance s 1) = Moves-peek s 0 (ground arith) in
        NotesTo-if (is_digit (peek s 1)) _ _
          (λ _.
            NotesTo-trans _
              (Notes-float _ n
                (Moves-trans one (Moves-skip_while digit_or_underscore (advance s 1))) refl
                Same-refl)
              (more_points-Notes _ _))
          (λ _. NotesTo-if _ _ _ (λ _. Notes-float _ n one refl Same-refl) (λ _. Notes-refl s n)))
      (λ _. Notes-refl s n)

Moves-exponent_sign : (s : Lexer) → Moves s (exponent_sign s)
Moves-exponent_sign s = ground (arith, Moves-peek s 0, Moves-refl s)

diags-exponent_sign : (s : Lexer) → (exponent_sign s).diags ≡ s.diags
diags-exponent_sign s = ground arith

Frame-exponent_sign : (s : Lexer) → Frame s (exponent_sign s)
Frame-exponent_sign s = ground arith

exponent_digits-Notes : (s : Lexer) (n : Number) → NotesTo s n (exponent_digits s n)
unfolding exponent_digits
exponent_digits-Notes s n =
    NotesTo-if _ _ _
      (λ _.
        Notes-error _ n (Moves-reported s s.cur _ (Moves-skip_while digit_or_underscore _))
          Same-refl)
      (λ _. Notes-digits s n)

pub exponent-Notes : (s : Lexer) (n : Number) → NotesTo s n (exponent s n)
unfolding exponent
exponent-Notes s n =
    NotesTo-if (peek s 0 == b'e' || peek s 0 == b'E') _ _
      (λ e.
        let one : Moves s (advance s 1) = Moves-peek s 0 (ground arith) in
        NotesTo-trans _
          (Notes-float _ n (Moves-trans one (Moves-exponent_sign (advance s 1)))
            (diags-exponent_sign (advance s 1)) (Frame-exponent_sign (advance s 1)))
          (exponent_digits-Notes _ _))
      (λ _. Notes-refl s n)

pub number_body-Notes : (s : Lexer) (n : Number) → NotesTo s n (number_body s n)
unfolding number_body
number_body-Notes s n =
    NotesTo-if _ _ _ (λ _. go (fraction (skip_while digit_or_underscore s) n) (fraction-Notes _ n))
      (λ _. Notes-refl s n)
  where
    go :
        (r : Lexer × Number)
        → NotesTo (skip_while digit_or_underscore s) n r
        → NotesTo s n (uncurried exponent r)
    go (t, m) p = NotesTo-trans _ (Notes-trans (Notes-digits s n) p) (exponent-Notes t m)

prefixed-Notes :
    (s : Lexer) (p : ℕ → Bool) (r : _) → peek s 1 ≢ 0 → NotesTo s plain (prefixed s p r)
prefixed-Notes s p r h = record {
  moves = Moves-trans (Moves-peek s 1 h) (Moves-skip_while (or_underscore p) (advance s 2));
  before = λ e. e;
  silent = λ _. refl;
  same = Same-refl;
}

pub number_prefix-Notes : (s : Lexer) → NotesTo s plain (number_prefix s)
unfolding number_prefix
number_prefix-Notes s =
    NotesTo-if (peek s 0 == b'.') _ _
      (λ point.
        Notes-float _ plain
          (Moves-trans (Moves-peek s 0 (ground arith))
            (Moves-skip_while digit_or_underscore (advance s 1)))
          refl Same-refl)
      (λ _.
        NotesTo-if (peek s 0 == b'0') _ _
          (λ _.
            NotesTo-if (peek s 1 == b'x' || peek s 1 == b'X') _ _
              (λ x. prefixed-Notes s is_hex_digit _ (ground arith))
              (λ _.
                NotesTo-if (peek s 1 == b'b' || peek s 1 == b'B') _ _
                  (λ x. prefixed-Notes s is_bin_digit _ (ground arith))
                  (λ _.
                    NotesTo-if (peek s 1 == b'o' || peek s 1 == b'O') _ _
                      (λ x. prefixed-Notes s is_oct_digit _ (ground arith))
                      (λ _. Notes-refl s plain))))
          (λ _. Notes-refl s plain))
