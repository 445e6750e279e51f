-- ===== src/Lexer/Chars.antt =====
-- The character classes of lib/frontend/lexer/Lexer.cpp. `isdigit`, `isalpha` and `isalnum` are
-- those of the C locale: no byte from 128 on is a letter or a digit.
use moksha.Base.{ℕ, Bool, ◌&&◌, ◌||◌, leb, ◌==◌}

abbrev within : ℕ → ℕ → ℕ → Bool
within lo hi c = leb lo c && leb c hi

abbrev pub is_digit : ℕ → Bool
is_digit = within b'0' b'9'

abbrev pub is_alpha : ℕ → Bool
is_alpha c = within b'a' b'z' c || within b'A' b'Z' c

abbrev pub is_alnum : ℕ → Bool
is_alnum c = is_alpha c || is_digit c

unfoldable pub is_hex_digit : ℕ → Bool
is_hex_digit c = within b'0' b'9' c || within b'a' b'f' c || within b'A' b'F' c

unfoldable pub is_bin_digit : ℕ → Bool
is_bin_digit c = c == b'0' || c == b'1'

unfoldable pub is_oct_digit : ℕ → Bool
is_oct_digit = within b'0' b'7'

unfoldable pub is_ascii_ident_start : ℕ → Bool
is_ascii_ident_start c = is_alpha c || c == b'_'

unfoldable pub is_ascii_ident_body : ℕ → Bool
is_ascii_ident_body c = is_alnum c || c == b'_'

unfoldable pub is_utf8_start : ℕ → Bool
is_utf8_start c = leb 128 c
