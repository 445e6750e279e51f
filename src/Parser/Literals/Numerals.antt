-- ===== src/Parser/Literals/Numerals.antt =====
-- The value of an integer literal of digits alone.
use moksha.Base.{
  ℕ, ◌+◌, ◌-◌, ◌*◌, ◌%◌, ◌^◌, ◌≤◌, ◌≡◌, refl, ◌==◌, Bool, true, false, ◌&&◌, some, [], ◌∷◌, Bytes,
  ltb, leb, if◌then◌else◌, arith, get_or,
}
use moksha.Parser.Ast.{integer_literal}
use moksha.Parser.Literals.{without_underscores, has_prefix, integer_value, parse_integer}
use moksha.Parser.State.{State, cur, advance}
use moksha.Parser.Strto.{
  digit_value, digits, skip_blanks, has_hex_prefix, magnitude, signed_number, stoull,
}

-- Digits of a base up to 10.
unfoldable pub all_digits : ℕ → Bytes → Bool
all_digits base [] = true
all_digits base (c ∷ cs) = leb b'0' c && ltb c (b'0' + base) && all_digits base cs

-- The number that the digits denote, behind those of `acc`.
unfoldable pub numeral : ℕ → ℕ → Bytes → ℕ
numeral base acc [] = acc
numeral base acc (c ∷ cs) = numeral base (acc * base + (c - b'0')) cs

-- The base of a literal that begins with the byte `c`.
abbrev pub base_of : ℕ → ℕ
base_of c = if c == b'0' then 8 else 10

digit_value-digit :
    (base c : ℕ)
    → base ≤ 10
    → leb b'0' c ≡ true
    → ltb c (b'0' + base) ≡ true
    → (digit_value c ≡ c - b'0') × (ltb (digit_value c) base ≡ true)
unfolding digit_value
digit_value-digit base c b h g = (ground arith, ground arith)

digits-numeral :
    (base : ℕ) (cs : Bytes) (acc : ℕ)
    → base ≤ 10
    → all_digits base cs ≡ true
    → digits base acc cs ≡ numeral base acc cs
unfolding digits all_digits numeral
digits-numeral base [] acc b h = refl
digits-numeral base (c ∷ cs) acc b h =
    let (v, less) = digit_value-digit base c b (ground (arith, h)) (ground (arith, h)) in
    rw (less, v) (digits-numeral base cs (acc * base + (c - b'0')) b (ground (arith, h)))

-- Neither of the first two bytes is a letter or a sign.
first-digit :
    (base c : ℕ) (cs : Bytes)
    → base ≤ 10
    → all_digits base (c ∷ cs) ≡ true
    → (leb b'0' c ≡ true) × (ltb c (b'0' + base) ≡ true)
unfolding all_digits
first-digit base c cs b h = (ground (arith, h), ground (arith, h))

second-digit :
    (base c : ℕ) (cs : Bytes) (k : ℕ)
    → base ≤ 10
    → all_digits base (c ∷ cs) ≡ true
    → ltb b'9' k ≡ true
    → (get_or cs 0 0 == k) ≡ false
unfolding all_digits
second-digit base c [] k b h g = ground (arith, g)
second-digit base c (e ∷ cs) k b h g = ground (arith, g, h)

no_prefix :
    (base c : ℕ) (cs : Bytes) (lower upper : ℕ)
    → base ≤ 10
    → all_digits base (c ∷ cs) ≡ true
    → ltb b'9' lower ≡ true
    → ltb b'9' upper ≡ true
    → has_prefix lower upper (c ∷ cs) ≡ false
no_prefix base c cs lower upper b h g e =
    let x = second-digit base c cs lower b h g in
    let y = second-digit base c cs upper b h e in rw (x, y) (ground arith)

skip_blanks-digit :
    (base c : ℕ) (cs : Bytes)
    → base ≤ 10
    → all_digits base (c ∷ cs) ≡ true
    → skip_blanks (c ∷ cs) ≡ c ∷ cs
unfolding skip_blanks
skip_blanks-digit base c cs b h = let (lo, hi) = first-digit base c cs b h in ground (arith, lo)

base_of-le : (c : ℕ) → base_of c ≤ 10
base_of-le c = ground arith

hex_prefix-digit :
    (base c : ℕ) (cs : Bytes)
    → base ≤ 10
    → all_digits base (c ∷ cs) ≡ true
    → has_hex_prefix (c ∷ cs) ≡ false
unfolding has_hex_prefix
hex_prefix-digit base c cs b h =
    let x = second-digit base c cs b'x' b h refl in
    let y = second-digit base c cs b'X' b h refl in rw (x, y) (ground arith)

magnitude-numeral :
    (c : ℕ) (cs : Bytes)
    → all_digits (base_of c) (c ∷ cs) ≡ true
    → magnitude 0 (c ∷ cs) ≡ some (numeral (base_of c) 0 (c ∷ cs))
unfolding magnitude
magnitude-numeral c cs h =
    let b = base_of-le c in
    let (lo, hi) = first-digit (base_of c) c cs b h in
    let (v, less) = digit_value-digit (base_of c) c b lo hi in
    let whole = digits-numeral (base_of c) (c ∷ cs) 0 b h in
    let hex : has_hex_prefix (c ∷ cs) ≡ false = hex_prefix-digit (base_of c) c cs b h in
    rw (hex, less, whole) (ground arith)

-- The text begins with a digit.
stoull-numeral :
    (c : ℕ) (cs : Bytes)
    → all_digits (base_of c) (c ∷ cs) ≡ true
    → numeral (base_of c) 0 (c ∷ cs) ≤ 2 ^ 64 - 1
    → stoull 0 (c ∷ cs) ≡ some (numeral (base_of c) 0 (c ∷ cs))
unfolding stoull signed_number
stoull-numeral c cs h b =
    let (lo, hi) = first-digit (base_of c) c cs (base_of-le c) h in
    let plus : (c == b'+') ≡ false = ground (arith, lo) in
    let minus : (c == b'-') ≡ false = ground (arith, lo) in
    rw (skip_blanks-digit (base_of c) c cs (base_of-le c) h, plus, minus, magnitude-numeral c cs h)
      (let v = numeral (base_of c) 0 (c ∷ cs) in
        let fits : leb v (2 ^ 64 - 1) ≡ true = ground (arith, b) in
        let same : v % 2 ^ 64 ≡ v = omega (arith, b) in rw (fits, same))

integer_value-numeral :
    (c : ℕ) (cs : Bytes)
    → all_digits (base_of c) (c ∷ cs) ≡ true
    → numeral (base_of c) 0 (c ∷ cs) ≤ 2 ^ 64 - 1
    → integer_value (c ∷ cs) ≡ some (numeral (base_of c) 0 (c ∷ cs))
unfolding integer_value
integer_value-numeral c cs h b =
    let le = base_of-le c in
    rw
      (
        no_prefix (base_of c) c cs b'b' b'B' le h refl refl,
        no_prefix (base_of c) c cs b'o' b'O' le h refl refl,
      )
      (stoull-numeral c cs h b)

-- An integer literal that is digits alone, where its underscores are taken out, is read in base 10,
-- and in base 8 where it begins with a zero; it has that value and is passed with no report, where
-- the digits are those of the base and the value is at most 2 ^ 63.
pub parse_integer-numeral :
    (s : State) (c : ℕ) (cs : Bytes)
    → without_underscores (cur s).spelling ≡ c ∷ cs
    → all_digits (base_of c) (c ∷ cs) ≡ true
    → numeral (base_of c) 0 (c ∷ cs) ≤ 2 ^ 63
    → parse_integer s ≡ (integer_literal (numeral (base_of c) 0 (c ∷ cs)) (cur s).suffix, advance s)
unfolding parse_integer
parse_integer-numeral s c cs e h b =
    let v = numeral (base_of c) 0 (c ∷ cs) in
    let small : ltb (2 ^ 63) v ≡ false = ground (arith, b) in
    rw (e, integer_value-numeral c cs h (omega (arith, b)), small) (ground arith)
