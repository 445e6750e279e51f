-- ===== src/Parser/Factors.antt =====
-- Where `parseMultiplicative` in lib/frontend/parser/Parser.cpp takes a `*` as the start of a
-- declaration.
use moksha.Base.{
  ℕ, ◌≡◌, refl, Bool, true, false, ◌&&◌, ◌==◌, [], ◌∷◌, ◌++◌, Bytes, arith, Bool-cases, inl, inr,
}
use moksha.Lexer.Chars.{is_ascii_ident_start, is_ascii_ident_body}
use moksha.Lexer.Kinds.{TokenKind}
use moksha.Parser.Operators.{at_factor}
use moksha.Parser.Kinds.{kind_is, is_any}
use moksha.Parser.Lookahead.{
  is_space, is_prefix_operator, type_words, skip_bytes, taken_bytes, is_one_of,
  is_pointer_declaration, is_start_of_declaration,
}
use moksha.Parser.State.{Seen, State, at, at_any}
use moksha.Parser.Trees.{tagged, push}

-- Every byte passes the test.
unfoldable pub every : (ℕ → Bool) → Bytes → Bool
every p [] = true
every p (c ∷ cs) = p c && every p cs

skip_bytes-every :
    (p : ℕ → Bool) (cs : Bytes) (c : ℕ) (rest : Bytes)
    → every p cs ≡ true
    → p c ≡ false
    → skip_bytes p (cs ++ c ∷ rest) ≡ c ∷ rest
unfolding skip_bytes every
skip_bytes-every p [] c rest h g = rw g
skip_bytes-every p (e ∷ cs) c rest h g =
    let a : p e ≡ true = ground (arith, h) in
    let b : every p cs ≡ true = ground (arith, h) in rw a (skip_bytes-every p cs c rest b g)

body-prefix : (c : ℕ) → is_ascii_ident_body c ≡ true → is_prefix_operator c ≡ false
unfolding is_ascii_ident_body
body-prefix c h = ground arith

space-body : (c : ℕ) → is_space c ≡ true → is_ascii_ident_body c ≡ false
unfolding is_ascii_ident_body
space-body c h = ground arith

space-less : (c : ℕ) → is_space c ≡ true → (c == b'<') ≡ false
space-less c h = ground arith

start-space : (c : ℕ) → is_ascii_ident_start c ≡ true → is_space c ≡ false
unfolding is_ascii_ident_start
start-space c h = ground arith

space-prefix : (gap : Bytes) → every is_space gap ≡ true → every is_prefix_operator gap ≡ true
unfolding every
space-prefix [] h = refl
space-prefix (c ∷ cs) h = ground (arith, space-prefix cs)

module _ (gap word blanks rest : Bytes) (w d c : ℕ) (gap_spaces : every is_space gap ≡ true)
    (word_body : every is_ascii_ident_body (w ∷ word) ≡ true)
    (blanks_spaces : every is_space (d ∷ blanks) ≡ true)
    (name : is_ascii_ident_start c ≡ true) where
  -- `* word`, and a name behind white space.
  abbrev text : Bytes
  text = b'*' ∷ (gap ++ w ∷ (word ++ d ∷ (blanks ++ c ∷ rest)))

  text-pointer : is_pointer_declaration text ≡ true
  unfolding is_pointer_declaration every
  text-pointer =
      let w_body : is_ascii_ident_body w ≡ true = ground (arith, word_body) in
      let d_space : is_space d ≡ true = ground (arith, blanks_spaces) in
      let prefix : skip_bytes is_prefix_operator text ≡ w ∷ (word ++ d ∷ (blanks ++ c ∷ rest)) =
        skip_bytes-every is_prefix_operator (b'*' ∷ gap) w _ (space-prefix gap gap_spaces)
          (body-prefix w w_body) in
      let behind : skip_bytes is_ascii_ident_body (w ∷ (word ++ d ∷ (blanks ++ c ∷ rest)))
          ≡ d ∷ (blanks ++ c ∷ rest) =
        skip_bytes-every is_ascii_ident_body (w ∷ word) d _ word_body (space-body d d_space) in
      let last : skip_bytes is_space (d ∷ (blanks ++ c ∷ rest)) ≡ c ∷ rest =
        skip_bytes-every is_space (d ∷ blanks) c rest blanks_spaces (start-space c name) in
      rw (prefix, behind, space-less d d_space, last, name)
        (elim (Bool-cases (
          is_one_of type_words
            (taken_bytes is_ascii_ident_body (w ∷ (word ++ d ∷ (blanks ++ c ∷ rest)))))) [
              | inl e ↦ rw e refl
              | inr e ↦ rw e refl
            ])

  -- A `*` with a word behind it, and then, behind any white space, new lines included, another name,
  -- is no multiplication: the loop of the level ends in front of it.
  pub star-declares :
      (t : Seen) (s : State)
      → t.onward ≡ text
      → at_factor (push (tagged TokenKind.star t ∷ []) s) ≡ false
  unfolding at_factor is_start_of_declaration at at_any is_any kind_is
  star-declares t s e = rw (e, text-pointer)
