-- ===== src/Lexer/Text/Loop.antt =====
-- The loop of a string: its invariant, and its end.
use moksha.Base.{
  ℕ, suc, ◌-◌, ◌≤◌, ◌<◌, ◌≡◌, ◌==◌, ◌⊎◌, inl, inr, refl, ap, Bool, true, false, not, ◌&&◌, ◌||◌,
  some, length, if◌then◌else◌, arith, Bool-cases, codes, ◌∙◌, again, loop, Fine, loop_total,
  loop_result,
}
use moksha.Lexer.Kinds.{TokenKind, Token, token, uint32}
use moksha.Lexer.State.{Lexer, normal, at_end, peek, advance, pointer, unexpected, error_at}
use moksha.Lexer.State.Moves.{Moves, Moves-trans, Moves-one, Moves-peek, Moves-le, Moves-length}
use moksha.Lexer.State.Reads.{Moves-unexpected}
use moksha.Lexer.State.Scanned.{IsScanned, IsScanned-token, IsScanned-error}
use moksha.Lexer.State.Well.{IsWell}
use moksha.Lexer.Text.Moves.{consume_escape-IsEscape}
use moksha.Lexer.Text.{
  StringScan, StringStep, token_start, leave_template, with_escape_flag, quote, close_quote,
  interpolation, after_escape, unterminated, string_step, consume_escape, string_body,
}

-- The fields that the flag of an escape leaves alone.
with_escape_flag_fields :
    (b : Bool) (t : Token)
    → ((with_escape_flag b t).kind ≡ t.kind)
      × ((with_escape_flag b t).location ≡ t.location)
      × ((with_escape_flag b t).length ≡ t.length)
with_escape_flag_fields b t = ground arith

-- What leaving a template string does to the state.
record IsLeft (s : Lexer) (b : Bool) (t : Lexer) : Type 0 where
  cur_eq : t.cur ≡ s.cur
  moves : {o : Lexer} → Moves o s → Moves o t
  diags_eq : t.diags ≡ s.diags
  state_eq : (b ≡ false → s.state ≡ normal) → t.state ≡ normal
  behind : pointer s.fragment_start ≤ s.cur → pointer t.fragment_start ≤ t.cur

IsLeft-state : (s : Lexer) (b : Bool) → IsLeft s b (leave_template s b)
IsLeft-state s true = record {
  cur_eq = refl;
  moves = λ m. record { word = m.word; splits = m.splits; counts = m.counts };
  diags_eq = refl;
  state_eq = λ _. refl;
  behind = λ _. omega arith;
}
IsLeft-state s false = record {
  cur_eq = refl;
  moves = λ m. m;
  diags_eq = refl;
  state_eq = λ e. e refl;
  behind = λ h. h;
}

module _ (lo : ℕ) (o : Lexer) where
  -- The loop of a string that is scanned from `o`, for a token that begins at `lo` or behind it.
  pub record Inside (x : Lexer × StringScan) : Type 0 where
    pub moves : Moves o x.0
    pub low : lo ≤ token_start x.0 x.1
    pub high : token_start x.0 x.1 ≤ x.0.cur
    pub behind : pointer x.0.fragment_start ≤ x.0.cur
    -- The cursor has moved, or it stands at the start of a fragment or not at an interpolation.
    pub begun :
        (o.cur < x.0.cur) ⊎ (pointer x.0.fragment_start ≡ x.0.cur) ⊎ ((peek x.0 0 == b'$') ≡ false)
    pub silent : x.1.had_error ≡ false → x.0.diags ≡ o.diags
    pub noted : x.1.had_error ≡ true → pointer x.0.fragment_start < x.0.cur
    pub mode : x.1.is_template ≡ false → x.0.state ≡ normal

  -- What the loop promises of its result.
  pub record IsString (r : Lexer × Token) : Type 0 where
    pub scanned : IsScanned lo o r
    pub well : IsWell r.0

  abbrev left : Lexer × StringScan → ℕ
  left x = length x.0.rest

  abbrev IsFine : Lexer × StringScan → StringStep → Type 0
  IsFine = Fine Inside IsString left

  IsFine-if :
      (x : Lexer × StringScan) (b : Bool) (y z : StringStep)
      → (b ≡ true → IsFine x y)
      → (b ≡ false → IsFine x z)
      → IsFine x (if b then y else z)
  IsFine-if x true y z p q = p refl
  IsFine-if x false y z p q = q refl

  -- A state that is in no template string.
  IsWell-normal : (t : Lexer) → t.state ≡ normal → pointer t.fragment_start ≤ t.cur → IsWell t
  IsWell-normal t e h = record { behind = h; at_cursor = λ r. ground arith }

  IsString-error :
      (t : Lexer) (start : ℕ)
      → Moves o t
      → t.state ≡ normal
      → pointer t.fragment_start ≤ t.cur
      → lo ≤ start
      → start ≤ t.cur
      → IsString (t, error_at t start)
  IsString-error t start m e h low high = record {
    scanned = IsScanned-error t start m low high;
    well = IsWell-normal t e h;
  }

  module _ (s : Lexer) (l : StringScan) (i : Inside (s, l)) where
    unterminated-IsString : IsString (unterminated s l)
    unfolding unterminated
    unterminated-IsString =
        let t = leave_template s l.is_template in
        let f = IsLeft-state s l.is_template in
        IsString-error (unexpected t (token_start s l) _) (token_start s l)
          (Moves-unexpected t _ _ (f.moves i.moves)) (f.state_eq i.mode) (f.behind i.behind) i.low
          (omega (arith, f.cur_eq, i.high))

    newline-IsString :
        l.is_template ≡ false
        → IsString (unexpected s s.cur (codes "unterminated string literal"), error_at s l.start)
    newline-IsString e =
        let low : lo ≤ l.start = rw e at i.low in
        let high : l.start ≤ s.cur = rw e at i.high in
        IsString-error (unexpected s s.cur _) l.start (Moves-unexpected s _ _ i.moves) (i.mode e)
          i.behind low high

    escape-Inside : at_end s ≡ false → IsFine (s, l) (after_escape l (consume_escape s))
    escape-Inside h =
        let r = consume_escape-IsEscape s h in
        let f = r.same.fragment_eq in
        (
          record {
            moves = Moves-trans i.moves (Moves-trans (Moves-one s h) r.moves);
            low = rw f i.low;
            high = rw f (omega (arith, i.high, Moves-le r.moves));
            behind = rw f (omega (arith, i.behind, Moves-le r.moves));
            begun = inl (omega (arith, Moves-le i.moves, Moves-le r.moves));
            silent = λ e. ground (arith, i.silent, r.silent);
            noted = λ e. rw f (omega (arith, i.behind, Moves-le r.moves));
            mode = λ e. r.same.state_eq ∙ i.mode e;
          },
          omega (arith, Moves-length r.moves, Moves-length (Moves-one s h), Moves-le r.moves),
        )

    close-IsString : at_end s ≡ false → IsFine (s, l) (close_quote s l)
    unfolding close_quote
    close-IsString h =
        let t = leave_template (advance s 1) l.is_template in
        let f = IsLeft-state (advance s 1) l.is_template in
        let start = token_start s l in
        let m : Moves o t = f.moves (Moves-trans i.moves (Moves-one s h)) in
        IsFine-if (s, l) l.had_error _ _
          (λ _.
            IsString-error t start m (f.state_eq i.mode) (f.behind (omega (arith, i.behind))) i.low
              (omega (arith, f.cur_eq, i.high)))
          (λ e.
            let w = with_escape_flag_fields l.has_escape (
              token (if l.is_template then TokenKind.template_string else TokenKind.string_literal)
                start (t.cur - start)) in
            record {
              scanned =
                  IsScanned-token t start m i.low _ w.1 w.2 (omega (arith, f.cur_eq, i.high))
                    (omega (arith, f.cur_eq, Moves-le i.moves)) (λ _. f.diags_eq ∙ i.silent e);
              well = IsWell-normal t (f.state_eq i.mode) (f.behind (omega (arith, i.behind)));
            })

    low_cur : l.is_template ≡ true → lo ≤ s.cur
    low_cur e = omega (arith, i.low, i.high)

    interpolation-IsString :
        at_end s ≡ false
        → l.is_template ≡ true
        → (peek s 0 == b'$') ≡ true
        → (peek s 1 == b'{') ≡ true
        → IsFine (s, l) (interpolation s l)
    unfolding interpolation
    interpolation-IsString h e dollar brace =
        elim (Bool-cases (s.cur == pointer s.fragment_start)) [
          | inl here ↦ rw here (
              let m = Moves-trans i.moves (Moves-peek s 1 (ground arith)) in
              record {
                scanned =
                    IsScanned-token _ s.cur
                      (record { word = m.word; splits = m.splits; counts = m.counts }) (low_cur e) _
                      refl (ap uint32 {x = 2} (omega arith)) (omega arith)
                      (omega (arith, Moves-le i.moves))
                      (λ _. ground (arith, i.silent, i.noted, Bool-cases l.had_error));
                well = IsWell-normal _ refl (omega (arith, i.behind));
              })
          | inr later ↦ rw later (
              let m = i.moves in
              let start = pointer s.fragment_start in
              let w =
                with_escape_flag_fields l.has_escape
                  (token TokenKind.string_fragment start (s.cur - start)) in
              record {
                scanned =
                    IsScanned-token _ start
                      (record { word = m.word; splits = m.splits; counts = m.counts })
                      (rw e at i.low) _ w.1 w.2 i.behind (ground (arith, i.begun))
                      (λ k. absurd (k w.0));
                well = record { behind = omega arith; at_cursor = λ _. refl };
              })
        ]

    next-Inside : at_end s ≡ false → IsFine (s, l) (again (advance s 1, l))
    next-Inside h = (
      record {
        moves = Moves-trans i.moves (Moves-one s h);
        low = i.low;
        high = omega (arith, i.high);
        behind = omega (arith, i.behind);
        begun = inl (omega (arith, Moves-le i.moves));
        silent = i.silent;
        noted = λ e. omega (arith, i.noted e);
        mode = i.mode;
      },
      omega (arith, Moves-length (Moves-one s h)),
    )

    string_step-IsFine : IsFine (s, l) (string_step (s, l))
    unfolding string_step
    string_step-IsFine =
        IsFine-if (s, l) (at_end s) _ _ (λ _. unterminated-IsString)
          (λ h.
            IsFine-if (s, l) (not l.is_template && (peek s 0 == b'\n' || peek s 0 == b'\r')) _ _
              (λ e. newline-IsString (ground arith))
              (λ _.
                IsFine-if (s, l) (peek s 0 == b'\\') _ _ (λ _. escape-Inside h)
                  (λ _.
                    IsFine-if (s, l) (peek s 0 == quote l.is_template) _ _ (λ _. close-IsString h)
                      (λ _.
                        IsFine-if (s, l) (l.is_template && peek s 0 == b'$' && peek s 1 == b'{') _ _
                          (λ e.
                            interpolation-IsString h (ground arith) (ground arith) (ground arith))
                          (λ _. next-Inside h)))))

  pub string_body-IsString :
      (s : Lexer) (l : StringScan) → Inside (s, l) → IsString (string_body (s, l))
  string_body-IsString s l i =
      loop_result Inside IsString left string_step (λ x j. string_step-IsFine x.0 x.1 j)
        (suc (length s.rest)) (s, l) _ i (omega arith)

  -- The loop of a string ends: with more rounds than bytes left it returns a token.
  pub IsString-loop_total :
      (s : Lexer) (l : StringScan) (fuel : ℕ)
      → Inside (s, l)
      → length s.rest < fuel
      → (r : Lexer × Token) × (loop string_step fuel (s, l) ≡ some r) × IsString r
  IsString-loop_total s l fuel i h =
      loop_total Inside IsString left string_step (λ x j. string_step-IsFine x.0 x.1 j) fuel (s, l)
        i h
