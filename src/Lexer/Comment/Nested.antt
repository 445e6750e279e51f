-- ===== src/Lexer/Comment/Nested.antt =====
-- Block comments nest.
use moksha.Base.{
  ℕ, suc, ◌+◌, ◌-◌, ◌%◌, ◌^◌, ◌<◌, ◌&&◌, ◌||◌, ◌≡◌, ◌==◌, refl, ap, ◌∙◌, Bool, true, false, [], ◌∷◌,
  ◌++◌, append_assoc, Bytes, length, drop, arith, length-append, drop-append_add,
}
use moksha.Lexer.State.{Lexer}
use moksha.Lexer.Comment.{block_loop, skip_comment}

-- The two bytes are a mark that opens or closes a block comment.
abbrev pub is_mark : ℕ → ℕ → Bool
is_mark c e = (c == b'/' && e == b'*') || (c == b'*' && e == b'/')

-- The byte at which a text begins; behind the whole text stands the star of a closing mark.
abbrev pub next_byte : Bytes → ℕ
next_byte [] = b'*'
next_byte (c ∷ cs) = c

-- What may stand between the marks of a block comment, with marks nested at most `d` deep: bytes
-- that open no mark with the byte behind them, and whole block comments.
pub data Body : ℕ → Bytes → Type 0 where
  nil : {d : ℕ} → Body d []
  plain : {d c : ℕ} {cs : Bytes} → is_mark c (next_byte cs) ≡ false → Body d cs → Body d (c ∷ cs)
  nested :
      {d : ℕ} {b cs : Bytes}
      → Body d b
      → Body (suc d) cs
      → Body (suc d) (b'/' ∷ b'*' ∷ (b ++ (b'*' ∷ b'/' ∷ cs)))

-- What the loop returns with `n` more bytes before.
abbrev shifted : ℕ → ℕ × Bool → ℕ × Bool
shifted n (m, closed) = (m + n, closed)

shifted-shifted : (n m : ℕ) (r : ℕ × Bool) → shifted n (shifted m r) ≡ shifted (m + n) r
shifted-shifted n m (k, closed) = ap (λ (j : ℕ). (j, closed)) (omega arith)

block_open :
    (depth : ℕ) (cs : Bytes)
    → depth + 1 < 2 ^ 31
    → block_loop depth (b'/' ∷ b'*' ∷ cs) ≡ shifted 2 (block_loop (depth + 1) cs)
unfolding block_loop
block_open depth cs h =
    let small : (depth + 1) % 2 ^ 32 ≡ depth + 1 = omega arith in
    ap (λ n. shifted 2 (block_loop n cs)) small

block_close :
    (depth : ℕ) (cs : Bytes)
    → 0 < depth
    → depth + 1 < 2 ^ 31
    → block_loop (depth + 1) (b'*' ∷ b'/' ∷ cs) ≡ shifted 2 (block_loop depth cs)
unfolding block_loop
block_close depth cs h b =
    let less : (depth + 1 + (2 ^ 32 - 1)) % 2 ^ 32 ≡ depth = omega arith in
    let more : (depth == 0) ≡ false = ground arith in
    rw (less, more, block_loop) (ap (λ n. shifted 2 (block_loop n cs)) less)

block_plain :
    (depth c : ℕ) (cs : Bytes)
    → is_mark c (next_byte (cs ++ (b'*' ∷ []))) ≡ false
    → (r : Bytes)
    → block_loop depth (c ∷ (cs ++ (b'*' ∷ r))) ≡ shifted 1 (block_loop depth (cs ++ (b'*' ∷ r)))
unfolding block_loop
block_plain depth c [] m r =
    let opens : (c == b'/' && true) ≡ false = ground arith in
    let closes : (c == b'*' && false) ≡ false = ground arith in rw (opens, closes, block_loop)
block_plain depth c (e ∷ cs) m r =
    let opens : (c == b'/' && e == b'*') ≡ false = ground arith in
    let closes : (c == b'*' && e == b'/') ≡ false = ground arith in rw (opens, closes, block_loop)

next_byte-star : (cs : Bytes) → next_byte (cs ++ (b'*' ∷ [])) ≡ next_byte cs
next_byte-star [] = refl
next_byte-star (c ∷ cs) = refl

block_loop-Body :
    {d : ℕ} {b : Bytes} (depth : ℕ) (r : Bytes)
    → Body d b
    → 0 < depth
    → depth + d < 2 ^ 31
    → block_loop depth (b ++ (b'*' ∷ r)) ≡ shifted (length b) (block_loop depth (b'*' ∷ r))
block_loop-Body depth r nil h s = ap (λ (j : ℕ). (j, (block_loop depth (b'*' ∷ r)).1)) (omega arith)
block_loop-Body depth r (plain {d} {c} {cs} m b) h s =
    block_plain depth c cs (rw (next_byte-star cs) m) r
    ∙ ap (shifted 1) (block_loop-Body depth r b h s)
    ∙ shifted-shifted 1 (length cs) _
    ∙ ap (λ j. shifted j (block_loop depth (b'*' ∷ r))) (omega arith)
block_loop-Body depth r (nested {d} {b} {cs} x y) h s =
    let rest = b'*' ∷ r in
    ap (λ l. block_loop depth (b'/' ∷ b'*' ∷ l)) (append_assoc b (b'*' ∷ b'/' ∷ cs) rest)
    ∙ block_open depth (b ++ (b'*' ∷ b'/' ∷ (cs ++ rest))) (omega arith)
    ∙ ap (shifted 2) (
        block_loop-Body (depth + 1) (b'/' ∷ (cs ++ rest)) x (omega arith) (omega arith)
        ∙ ap (shifted (length b)) (
            block_close depth (cs ++ rest) h (omega arith)
            ∙ ap (shifted 2) (block_loop-Body depth r y h s)))
    ∙ ap (λ (r : ℕ × Bool). r) (regroup b cs (block_loop depth rest))
  where
    regroup :
        (b cs : Bytes) (q : ℕ × Bool)
        → shifted 2 (shifted (length b) (shifted 2 (shifted (length cs) q)))
          ≡ shifted (length (b'/' ∷ b'*' ∷ (b ++ (b'*' ∷ b'/' ∷ cs)))) q
    regroup b cs (m, closed) =
        ap (λ (j : ℕ). (j, closed)) (omega (arith, length-append b (b'*' ∷ b'/' ∷ cs)))

last_close : (rest : Bytes) → block_loop 1 (b'*' ∷ b'/' ∷ rest) ≡ (2, true)
unfolding block_loop
last_close rest = refl

-- A block comment, with whole block comments nested in it to a depth below 2 ^ 31 - 1, and with
-- slashes and stars that make no mark, is passed exactly: the cursor stands behind its last mark, and
-- nothing else has changed.
pub skip_comment_nested :
    (s : Lexer) (d : ℕ) (b rest : Bytes)
    → Body d b
    → 1 + d < 2 ^ 31
    → s.rest ≡ b'/' ∷ b'*' ∷ (b ++ (b'*' ∷ b'/' ∷ rest))
    → skip_comment s ≡ (record s { cur = s.cur + (length b + 4); rest = rest }, true)
unfolding skip_comment
skip_comment_nested s d b rest x small e =
    let tail = b'*' ∷ b'/' ∷ rest in
    let passed : block_loop 1 (b ++ tail) ≡ (2 + length b, true) =
      block_loop-Body 1 (b'/' ∷ rest) x (omega arith) small
      ∙ ap (shifted (length b)) (last_close rest) in
    let cur : s.cur + 2 + (2 + length b) ≡ s.cur + (length b + 4) = omega arith in
    let swap : 2 + length b ≡ length b + 2 = omega arith in
    let left : drop (2 + length b) (b ++ tail) ≡ rest =
      ap (λ n. drop n (b ++ tail)) swap ∙ drop-append_add b tail 2 in
    rw e (rw passed (rw (cur, left)))
