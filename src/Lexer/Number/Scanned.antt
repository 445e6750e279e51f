-- ===== src/Lexer/Number/Scanned.antt =====
-- The token of a number.
use moksha.Base.{
  ℕ, ◌+◌, ◌-◌, ◌≤◌, ◌<◌, ◌≡◌, ◌==◌, ◌⊎◌, inl, inr, refl, Bool, true, false, Option, none, some, [],
  ◌∷◌, Bytes, take, get_or, if◌then◌else◌, arith, codes, Bool-cases,
}
use moksha.Lexer.Kinds.{NumericSuffix}
use moksha.Lexer.State.{Lexer, peek, advance, span, skip_while, unexpected}
use moksha.Lexer.State.Moves.{Moves-refl, Moves-advance, Moves-le, span-le, Frame, Same-refl}
use moksha.Lexer.State.Scanned.{IsScanned, IsScanned-token, IsScanned-error}
use moksha.Lexer.State.Reads.{Moves-unexpected}
use moksha.Lexer.Chars.{is_digit, is_alnum}
use moksha.Lexer.Number.{
  Number, plain, or_underscore, digit_or_underscore, number_prefix, exponent, uncurried,
  number_body, number_suffix, trailing_underscore, double_underscore, consecutive_underscores,
  number_token, number_end, scan_number,
}
use moksha.Lexer.Number.Moves.{
  Notes, NotesTo, Notes-refl, Notes-trans, NotesTo-trans, NotesTo-if, Notes-error, fraction-Notes,
  exponent-Notes, number_body-Notes, number_prefix-Notes,
}

abbrev NotesThen : Lexer → Number → Lexer × Number × NumericSuffix → Type 0
NotesThen s n (t, m, k) = Notes s n t m

Notes-suffix :
    (s : Lexer) (n : Number) → Notes s n (advance s (span (or_underscore is_alnum) s.rest)) n
Notes-suffix s n = record {
  moves = Moves-advance s _ (span-le _ s.rest);
  before = λ e. e;
  silent = λ _. refl;
  same = Same-refl;
}

NotesThen-if :
    {s : Lexer} {n : Number} (b : Bool) (x y : Lexer × Number × NumericSuffix)
    → NotesThen s n x
    → NotesThen s n y
    → NotesThen s n (if b then x else y)
NotesThen-if true x y p q = p
NotesThen-if false x y p q = q

number_suffix-Notes : (s : Lexer) (n : Number) → NotesThen s n (number_suffix s n)
unfolding number_suffix
number_suffix-Notes s n =
    NotesThen-if _ _ _
      (NotesThen-if _ _ _
        (Notes-error _ n (Moves-unexpected _ s.cur _ (Notes-suffix s n).moves) Same-refl)
        (Notes-suffix s n))
      (Notes-refl s n)

trailing_underscore-Notes :
    (text : Bytes) (k : NumericSuffix) (s : Lexer) (n : Number)
    → NotesTo s n (trailing_underscore text k s n)
unfolding trailing_underscore
trailing_underscore-Notes text k s n =
    NotesTo-if _ _ _ (λ _. Notes-error _ n (Moves-unexpected _ s.cur _ (Moves-refl s)) Same-refl)
      (λ _. Notes-refl s n)

consecutive_underscores-Notes :
    (text : Bytes) (start : ℕ) (s : Lexer) (n : Number)
    → NotesTo s n (consecutive_underscores text start s n)
unfolding consecutive_underscores
consecutive_underscores-Notes text start s n = go (double_underscore text)
  where
    go :
        (o : Option ℕ)
        → NotesTo s n (elim o as (λ _. Lexer × Number) [
          | none ↦ (s, n)
          | some i ↦ (
            unexpected s (start + i) (codes "number cannot contain consecutive underscores"),
            record n { had_lexical_error = true },
          )
        ])
    go none = Notes-refl s n
    go (some i) = Notes-error _ n (Moves-unexpected _ (start + i) _ (Moves-refl s)) Same-refl

NotesTo-then :
    {s : Lexer} {n : Number} (f : Lexer → Number → Lexer × Number) (r : Lexer × Number)
    → ((t : Lexer) (m : Number) → NotesTo t m (f t m))
    → NotesTo s n r
    → NotesTo s n (uncurried f r)
NotesTo-then f (t, m) g p = NotesTo-trans (f t m) p (g t m)

-- A number begins with a digit or with a point.
abbrev pub Begins : Lexer → Type 0
Begins s = (is_digit (peek s 0) ≡ true) ⊎ ((peek s 0 == b'.') ≡ true)

span-pos : (cs : Bytes) → is_digit (get_or cs 0 0) ≡ true → 0 < span digit_or_underscore cs
unfolding span
span-pos [] h = ground arith
span-pos (c ∷ cs) h = ground arith

number_prefix_cases :
    (s : Lexer)
    → Begins s
    → ((number_prefix s ≡ (s, plain)) × (is_digit (peek s 0) ≡ true))
      ⊎ (s.cur < (number_prefix s).0.cur)
unfolding number_prefix
number_prefix_cases s h = ground arith

le_of_Notes : {s : Lexer} {n : Number} (r : Lexer × Number) → NotesTo s n r → s.cur ≤ r.0.cur
le_of_Notes (t, m) p = Moves-le p.moves

-- Digits are passed.
digits_ahead : (s : Lexer) → is_digit (peek s 0) ≡ true → s.cur < (number_body s plain).0.cur
unfolding number_body
digits_ahead s h =
    let p = fraction-Notes (skip_while digit_or_underscore s) plain in
    omega (
      arith,
      span-pos s.rest h,
      le_of_Notes _ p,
      le_of_Notes _ (NotesTo-then exponent _ exponent-Notes p),
      le_of_Notes _ (exponent-Notes _ _),
    )

whole : Lexer → Lexer × Number
whole s = uncurried number_body (number_prefix s)

whole-Notes : (s : Lexer) → NotesTo s plain (whole s)
unfolding whole
whole-Notes s = NotesTo-then number_body _ number_body-Notes (number_prefix-Notes s)

whole_ahead : (s : Lexer) → Begins s → s.cur < (whole s).0.cur
unfolding whole
whole_ahead s h = elim (number_prefix_cases s h) [
  | inl (e, digit) ↦ rw e (digits_ahead s digit)
  | inr ahead ↦
      let (t, m) = number_prefix s in omega (arith, ahead, le_of_Notes _ (number_body-Notes t m))
]

-- An error was noted, or nothing was reported.
number_token-IsScanned :
    {s : Lexer} (k : NumericSuffix) (r : Lexer × Number)
    → NotesTo s plain r
    → s.cur < r.0.cur
    → IsScanned s.cur s (uncurried (number_token s.cur k) r)
number_token-IsScanned {s} k (t, m) p a = elim (Bool-cases m.had_lexical_error) [
  | inl e ↦ rw e (IsScanned-error t s.cur p.moves (omega arith) (omega arith))
  | inr e ↦
      rw e (
        IsScanned-token t s.cur p.moves (omega arith) _ refl refl (omega arith) a (λ _. p.silent e))
]

number_end-IsScanned :
    {s : Lexer} (r : Lexer × Number × NumericSuffix)
    → NotesThen s plain r
    → s.cur < r.0.cur
    → IsScanned s.cur s (number_end s r)
number_end-IsScanned {s} (t, m, k) p a =
    let text = take (t.cur - s.cur) s.rest in
    let q = trailing_underscore-Notes text k t m in
    let c =
      NotesTo-then (consecutive_underscores text s.cur) (trailing_underscore text k t m)
        (consecutive_underscores-Notes text s.cur) q in
    number_token-IsScanned k _ (NotesTo-trans _ p c) (omega (arith, le_of_Notes _ c))

suffix_step :
    {s : Lexer} (r : Lexer × Number)
    → NotesTo s plain r
    → s.cur < r.0.cur
    → NotesThen s plain (uncurried number_suffix r) × (s.cur < (uncurried number_suffix r).0.cur)
suffix_step (t, m) p a =
    let q = number_suffix-Notes t m in (Notes-trans p q, omega (arith, Moves-le q.moves))

pub scan_number-IsScanned : (s : Lexer) → Begins s → IsScanned s.cur s (scan_number s)
unfolding scan_number whole
scan_number-IsScanned s h =
    let (p, a) = suffix_step (whole s) (whole-Notes s) (whole_ahead s h) in
    number_end-IsScanned _ p a

number_token-Frame :
    {s : Lexer} (k : NumericSuffix) (r : Lexer × Number)
    → NotesTo s plain r
    → Frame s (uncurried (number_token s.cur k) r).0
number_token-Frame {s} k (t, m) p = elim (Bool-cases m.had_lexical_error) [
  | inl e ↦ rw e p.same
  | inr e ↦ rw e p.same
]

number_end-Frame :
    {s : Lexer} (r : Lexer × Number × NumericSuffix)
    → NotesThen s plain r
    → Frame s (number_end s r).0
number_end-Frame {s} (t, m, k) p =
    let text = take (t.cur - s.cur) s.rest in
    let q = trailing_underscore-Notes text k t m in
    number_token-Frame k _ (
      NotesTo-trans _ p (
        NotesTo-then (consecutive_underscores text s.cur) (trailing_underscore text k t m)
          (consecutive_underscores-Notes text s.cur) q))

pub scan_number-Frame : (s : Lexer) → Begins s → Frame s (scan_number s).0
unfolding scan_number whole
scan_number-Frame s h =
    number_end-Frame _ (suffix_step (whole s) (whole-Notes s) (whole_ahead s h)).0
