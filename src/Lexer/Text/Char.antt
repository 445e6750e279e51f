-- ===== src/Lexer/Text/Char.antt =====
-- The token of a character.
use moksha.Base.{
  ◌<◌, ◌≡◌, ◌==◌, refl, Bool, true, false, if◌then◌else◌, arith, Bool-cases, inl, inr,
}
use moksha.Lexer.State.{Utf8, Lexer, at_end, peek, advance, advance_utf8}
use moksha.Lexer.State.Moves.{
  Moves, Moves-trans, Moves-one, Moves-peek, Moves-le, Moves-advance_utf8, Frame,
  Frame-advance_utf8, diags-advance_utf8,
}
use moksha.Lexer.State.Scanned.{IsScanned, IsScanned-token, IsScanned-error}
use moksha.Lexer.Text.Moves.{consume_escape-IsEscape}
use moksha.Lexer.Text.{consume_escape, char_end, scan_char}

-- Behind the first quote, the character is passed, and nothing else changes.
record IsChar (s : Lexer) (r : Lexer × Bool) : Type 0 where
  moves : Moves s r.0
  same : Frame s r.0
  silent : r.1 ≡ true → r.0.diags ≡ s.diags
  ahead : s.cur < r.0.cur

char_end-IsScanned :
    {s : Lexer} (r : Lexer × Bool) → IsChar s r → IsScanned s.cur s (char_end s.cur r)
char_end-IsScanned {s} (t, false) i =
    IsScanned-error t s.cur i.moves (omega arith) (omega (arith, i.ahead))
char_end-IsScanned {s} (t, true) i = elim (Bool-cases (peek t 0 == b'\'')) [
  | inl q ↦ rw q (
      IsScanned-token (advance t 1) s.cur (Moves-trans i.moves (Moves-peek t 0 (ground arith)))
        (omega arith) _ refl refl (omega (arith, i.ahead)) (omega (arith, i.ahead))
        (λ _. i.silent refl))
  | inr q ↦ rw q (IsScanned-error t s.cur i.moves (omega arith) (omega (arith, i.ahead)))
]

char_end-Frame : {s : Lexer} (r : Lexer × Bool) → IsChar s r → Frame s (char_end s.cur r).0
char_end-Frame (t, false) i = i.same
char_end-Frame (t, true) i = elim (Bool-cases (peek t 0 == b'\'')) [
  | inl q ↦ rw q i.same
  | inr q ↦ rw q i.same
]

char_body : Utf8 → Lexer → Lexer × Bool
char_body u t = if peek t 0 == b'\\' then consume_escape t else advance_utf8 u t

char_body-IsChar : (u : Utf8) (s : Lexer) → at_end s ≡ false → IsChar s (char_body u (advance s 1))
unfolding char_body
char_body-IsChar u s h =
    let t = advance s 1 in
    let one = Moves-one s h in
    elim (Bool-cases (peek t 0 == b'\\')) [
      | inl e ↦ rw e (
          let r = consume_escape-IsEscape t (ground arith) in
          let m : Moves t (consume_escape t).0 = Moves-trans (Moves-one t (ground arith)) r.moves in
          record {
            moves = Moves-trans one m;
            same = r.same;
            silent = r.silent;
            ahead = omega (arith, Moves-le m);
          })
      | inr e ↦ rw e (
          let m = Moves-advance_utf8 u t in
          record {
            moves = Moves-trans one m;
            same = Frame-advance_utf8 u t;
            silent = λ _. diags-advance_utf8 u t;
            ahead = omega (arith, Moves-le m);
          })
    ]

module _ (u : Utf8) (s : Lexer) (h : at_end s ≡ false) where
  pub scan_char-IsScanned : IsScanned s.cur s (scan_char u s)
  unfolding scan_char char_body
  scan_char-IsScanned = char_end-IsScanned _ (char_body-IsChar u s h)

  pub scan_char-Frame : Frame s (scan_char u s).0
  unfolding scan_char char_body
  scan_char-Frame = char_end-Frame _ (char_body-IsChar u s h)
