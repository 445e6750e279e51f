-- ===== src/Parser/Unescape/Escaped.antt =====
-- `unescapeString` gives back the text that was escaped.
use moksha.Base.{
  ℕ, zero, suc, ◌≤◌, ◌≡◌, ◌≢◌, refl, ap, ◌==◌, false, Option, none, some, inl, inr, [], ◌∷◌, Bytes,
  length, arith, if◌then◌else◌, Option-cases,
}
use moksha.Parser.Unescape.{
  ToUtf8, escape_round, unescape_round, unescape_loop, unescape_string, simple_escape,
}

-- The letter that stands for a byte behind a backslash, where the byte is escaped.
unfoldable pub escape_letter : ℕ → Option ℕ
escape_letter c =
    if c == 10
    then some b'n'
    else if c == 13
    then some b'r'
    else if c == 9
    then some b't'
    else if c == 8
    then some b'b'
    else if c == 0
    then some b'0'
    else if c == b'\\'
    then some c
    else if c == b'"'
    then some c
    else if c == b'\''
    then some c
    else if c == b'`'
    then some c
    else if c == b'$'
    then some c
    else none

abbrev escape_byte : Option ℕ → ℕ → Bytes → Bytes
escape_byte none c cs = c ∷ cs
escape_byte (some e) c cs = b'\\' ∷ e ∷ cs

-- A text as it is written in a string.
unfoldable pub escaped : Bytes → Bytes
unfolding escape_letter
escaped [] = []
escaped (c ∷ cs) = escape_byte (escape_letter c) c (escaped cs)

letter-simple : (c e : ℕ) → escape_letter c ≡ some e → simple_escape e ≡ c
unfolding escape_letter simple_escape
letter-simple c e h = ground arith

letter-not : (c e : ℕ) → escape_letter c ≡ some e → (e ≢ b'x') × (e ≢ b'u') × (e ≢ b'U')
unfolding escape_letter
letter-not c e h = ground arith

module _ (utf8 : ToUtf8) where
  escape_round-letter :
      (c e : ℕ) (cs : Bytes) → escape_letter c ≡ some e → escape_round utf8 e cs ≡ (c ∷ [], cs)
  unfolding escape_round
  escape_round-letter c e cs h =
      let (x, u, w) = letter-not c e h in
      let a : (e == b'x') ≡ false = ground (arith, x) in
      let b : (e == b'u') ≡ false = ground (arith, u) in
      let d : (e == b'U') ≡ false = ground (arith, w) in rw (a, b, d, letter-simple c e h)

  unescape_round-plain :
      (c : ℕ) (cs : Bytes) → escape_letter c ≡ none → unescape_round utf8 c cs ≡ (c ∷ [], cs)
  unfolding escape_letter
  unescape_round-plain c [] h = refl
  unescape_round-plain c (e ∷ cs) h = let p : (c == b'\\') ≡ false = ground arith in rw p

  loop-escaped :
      (fuel : ℕ) (w : Bytes) → length (escaped w) ≤ fuel → unescape_loop utf8 fuel (escaped w) ≡ w
  unfolding escaped unescape_loop
  loop-escaped zero [] h = refl
  loop-escaped (suc fuel) [] h = refl
  loop-escaped zero (c ∷ w) h = elim (Option-cases (escape_letter c)) [
    | inl e ↦ absurd (let g : suc (length (escaped w)) ≤ 0 = rw e at h in omega arith)
    | inr (l, e) ↦ absurd (let g : suc (suc (length (escaped w))) ≤ 0 = rw e at h in omega arith)
  ]
  loop-escaped (suc fuel) (c ∷ w) h = elim (Option-cases (escape_letter c)) [
    | inl e ↦
        let g : suc (length (escaped w)) ≤ suc fuel = rw e at h in
        rw (e, unescape_round-plain c (escaped w) e)
          (ap (◌∷◌ c) (loop-escaped fuel w (omega arith)))
    | inr (l, e) ↦
        let g : suc (suc (length (escaped w))) ≤ suc fuel = rw e at h in
        rw (e, escape_round-letter c l (escaped w) e)
          (ap (◌∷◌ c) (loop-escaped fuel w (omega arith)))
  ]

-- A text that was written with escapes (the named ones for a new line, a return, a tab, a backspace
-- and a zero byte, a backslash in front of a backslash, a quote and a dollar sign) is given back,
-- whatever its bytes are.
pub unescape_string-escaped : (utf8 : ToUtf8) (w : Bytes) → unescape_string utf8 (escaped w) ≡ w
unfolding unescape_string
unescape_string-escaped utf8 w = loop-escaped utf8 (length (escaped w)) w (omega arith)
