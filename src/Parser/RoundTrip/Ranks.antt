-- ===== src/Parser/RoundTrip/Ranks.antt =====
-- The loops of the levels stop and go on by the rank of the token.
use moksha.Base.{ℕ, ◌<◌, ◌≡◌, Bool, true, false, List, [], ◌∷◌, ◌==◌, arith}
use moksha.Lexer.Kinds.{TokenKind}
use moksha.Parser.Operators.{
  on_line, at_factor, additive_kinds, shift_kinds, coalescing_kinds, relational_kinds,
  equality_kinds, and_kinds, xor_kinds, or_kinds, logical_and_kinds, logical_or_kinds,
}
use moksha.Parser.Kinds.{kind_is, is_any, kind_value}
use moksha.Parser.Lookahead.{is_start_of_declaration}
use moksha.Parser.State.{Seen, State, cur, at, at_any}
use moksha.Parser.Trees.{rank, tagged, IsPlain, push, factor_kinds, power_kinds}

-- The kinds are those of the rank.
pub record OfRank (ks : List TokenKind) (j : ℕ) : Type 0 where
  pub only : (k : TokenKind) → rank k < j → is_any ks k ≡ false
  pub all : (k : TokenKind) → rank k ≡ j → is_any ks k ≡ true

pub logical_or-OfRank : OfRank logical_or_kinds 1
unfolding rank is_any kind_is
logical_or-OfRank = record { only = λ k h. ground arith; all = λ k h. ground arith }

pub logical_and-OfRank : OfRank logical_and_kinds 2
unfolding rank is_any kind_is
logical_and-OfRank = record { only = λ k h. ground arith; all = λ k h. ground arith }

pub or-OfRank : OfRank or_kinds 3
unfolding rank is_any kind_is
or-OfRank = record { only = λ k h. ground arith; all = λ k h. ground arith }

pub xor-OfRank : OfRank xor_kinds 4
unfolding rank is_any kind_is
xor-OfRank = record { only = λ k h. ground arith; all = λ k h. ground arith }

pub and-OfRank : OfRank and_kinds 5
unfolding rank is_any kind_is
and-OfRank = record { only = λ k h. ground arith; all = λ k h. ground arith }

pub equality-OfRank : OfRank equality_kinds 6
unfolding rank is_any kind_is
equality-OfRank = record { only = λ k h. ground arith; all = λ k h. ground arith }

pub relational-OfRank : OfRank relational_kinds 7
unfolding rank is_any kind_is
relational-OfRank = record { only = λ k h. ground arith; all = λ k h. ground arith }

pub coalescing-OfRank : OfRank coalescing_kinds 9
unfolding rank is_any kind_is
coalescing-OfRank = record { only = λ k h. ground arith; all = λ k h. ground arith }

pub shift-OfRank : OfRank shift_kinds 10
unfolding rank is_any kind_is
shift-OfRank = record { only = λ k h. ground arith; all = λ k h. ground arith }

pub additive-OfRank : OfRank additive_kinds 11
unfolding rank is_any kind_is
additive-OfRank = record { only = λ k h. ground arith; all = λ k h. ground arith }

pub factor-OfRank : OfRank factor_kinds 12
unfolding rank is_any kind_is
factor-OfRank = record { only = λ k h. ground arith; all = λ k h. ground arith }

pub power-OfRank : OfRank power_kinds 13
unfolding rank is_any kind_is
power-OfRank = record { only = λ k h. ground arith; all = λ k h. ground arith }

-- No operator between two trees has the rank of `|>`.
pub rank-pipe : (k : TokenKind) → (rank k == 8) ≡ false
unfolding rank is_any kind_is
rank-pipe k = ground arith

-- A loop of which the test `goes` reads the kinds of the rank.
pub record Matches (goes : State → Bool) (j : ℕ) : Type 0 where
  pub stops : (s : State) → rank (cur s).kind < j → goes s ≡ false
  pub runs :
      (k : TokenKind) (t : Seen) (s : State)
      → rank k ≡ j
      → IsPlain k t
      → goes (push (tagged k t ∷ []) s) ≡ true

module _ (ks : List TokenKind) (j : ℕ) (of : OfRank ks j) where
  pub any-Matches : Matches (at_any ks) j
  unfolding at_any
  any-Matches = record { stops = λ s h. of.only (cur s).kind h; runs = λ k t s e p. of.all k e }

  pub line-Matches : Matches (on_line ks) j
  unfolding on_line at_any
  line-Matches = record {
    stops = λ s h. rw (of.only (cur s).kind h);
    runs = λ k t s e p. rw (of.all k e, p.on_line);
  }

-- A plain star begins no declaration.
star-plain :
    (k : TokenKind) (t : Seen) (s : State)
    → IsPlain k t
    → kind_is TokenKind.star k ≡ true
    → is_start_of_declaration (push (tagged k t ∷ []) s) ≡ false
unfolding is_start_of_declaration at at_any is_any kind_is
star-plain k t s p h =
    let v : kind_value k ≡ kind_value TokenKind.star = ground arith in rw (v, p.no_pointer)

pub factor-Matches : Matches at_factor 12
unfolding at_factor at at_any
factor-Matches = record {
  stops = λ s h. rw (factor-OfRank.only (cur s).kind h);
  runs = λ k t s e p. ground (arith, factor-OfRank.all k e, p.on_line, star-plain k t s p);
}
