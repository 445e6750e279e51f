-- ===== src/Parser/Strto.antt =====
-- What lib/frontend/parser/Parser.cpp uses of the standard library to read a number: `std::stoull`,
-- `std::stoul` and `std::stoi`. They throw where no digit is read or the number is out of range.
use moksha.Base.{
  ℕ, ◌+◌, ◌-◌, ◌*◌, ◌%◌, ◌^◌, ◌==◌, Bool, ◌&&◌, ◌||◌, Option, none, some, [], ◌∷◌, Bytes, ltb, leb,
  if◌then◌else◌, get_or, drop, length,
}
use moksha.Lexer.Chars.{is_digit}

-- The value of a byte as a digit; 36 for one that is none.
unfoldable pub digit_value : ℕ → ℕ
digit_value c =
    if is_digit c
    then c - b'0'
    else if leb b'a' c && leb c b'z'
    then 10 + (c - b'a')
    else if leb b'A' c && leb c b'Z'
    then 10 + (c - b'A')
    else 36

-- The number that the leading digits denote, behind those that `acc` has.
unfoldable pub digits : ℕ → ℕ → Bytes → ℕ
unfolding digit_value
digits base acc [] = acc
digits base acc (c ∷ cs) =
    let later = digits base (acc * base + digit_value c) cs in
    if ltb (digit_value c) base then later else acc

-- `isspace`
abbrev is_blank : ℕ → Bool
is_blank c = c == 32 || (leb 9 c && leb c 13)

unfoldable pub skip_blanks : Bytes → Bytes
skip_blanks [] = []
skip_blanks (c ∷ cs) = let later = skip_blanks cs in if is_blank c then later else c ∷ cs

abbrev byte_at : Bytes → ℕ → ℕ
byte_at cs i = get_or cs i 0

-- A digit of the base at the place, where the text has one.
abbrev has_digit : ℕ → Bytes → ℕ → Bool
has_digit base cs i = ltb i (length cs) && ltb (digit_value (byte_at cs i)) base

-- "0x" in front of a hexadecimal digit.
unfoldable pub has_hex_prefix : Bytes → Bool
has_hex_prefix cs =
    byte_at cs 0 == b'0' && (byte_at cs 1 == b'x' || byte_at cs 1 == b'X') && has_digit 16 cs 2

-- The magnitude. In base 0 the prefix of the text gives the base: "0x" is 16, "0" is 8.
unfoldable pub magnitude : ℕ → Bytes → Option ℕ
magnitude base cs =
    if (base == 0 || base == 16) && has_hex_prefix cs
    then some (digits 16 0 (drop 2 cs))
    else (let radix = if base == 0 then (if byte_at cs 0 == b'0' then 8 else 10) else base in
        if has_digit radix cs 0 then some (digits radix 0 cs) else none)

abbrev has_sign : Bytes → Bool
has_sign cs = byte_at cs 0 == b'-' || byte_at cs 0 == b'+'

-- Whether the number is negative, and its magnitude.
unfoldable pub signed_number : ℕ → Bytes → Bool × Option ℕ
signed_number base text =
    let cs = skip_blanks text in
    (byte_at cs 0 == b'-', magnitude base (if has_sign cs then drop 1 cs else cs))

-- The value of a number that is taken modulo `m`, where its magnitude is at most `top`.
abbrev in_range : ℕ → ℕ → Bool × Option ℕ → Option ℕ
in_range m top (b, none) = none
in_range m top (b, some v) = if leb v top then some (if b then (m - v % m) % m else v % m) else none

-- `std::stoull` and `std::stoul` read a number of 64 bits.
unfoldable pub stoull : ℕ → Bytes → Option ℕ
stoull base text = in_range (2 ^ 64) (2 ^ 64 - 1) (signed_number base text)

-- `static_cast<char>(std::stoi(text, nullptr, 16))` of at most two bytes.
unfoldable pub stoi_char : Bytes → Option ℕ
stoi_char text = in_range (2 ^ 8) (2 ^ 31 - 1) (signed_number 16 text)
