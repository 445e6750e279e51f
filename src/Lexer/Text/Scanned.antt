-- ===== src/Lexer/Text/Scanned.antt =====
-- The token of a string.
use moksha.Base.{
  ℕ, ◌≤◌, ◌<◌, ◌≡◌, ◌==◌, ◌⊎◌, inl, inr, refl, true, false, Option, none, some, [], if◌then◌else◌,
  arith, Bool-cases,
}
use moksha.Lexer.State.{Lexer, normal, at_end, in_template_string, peek, pointer}
use moksha.Lexer.State.Moves.{Moves, Moves-one}
use moksha.Lexer.Text.Loop.{Inside, IsString, string_body-IsString}
use moksha.Lexer.Text.{StringScan, token_start, or_here, scan_locals, string_start, scan_string}

-- Where a template string may go on at `s`.
abbrev pub Resumes : Lexer → Type 0
Resumes s = (pointer s.fragment_start ≡ s.cur) ⊎ ((peek s 0 == b'$') ≡ false)

-- Where the token of a string may begin.
abbrev pub string_low : Lexer → ℕ
string_low s = if in_template_string s then pointer s.fragment_start else s.cur

or_here-pointer :
    (s : Lexer) (o : Option ℕ)
    → pointer o ≤ s.cur
    → (pointer o ≤ pointer (or_here s o))
      × (pointer (or_here s o) ≤ s.cur)
      × (pointer o ≡ s.cur → pointer (or_here s o) ≡ s.cur)
or_here-pointer s none h = (omega arith, omega arith, λ _. refl)
or_here-pointer s (some p) h = (omega arith, h, λ e. e)

resumed-Inside :
    (s : Lexer)
    → pointer s.fragment_start ≤ s.cur
    → Resumes s
    → Inside
        (pointer s.fragment_start)
        s
        (record s { fragment_start = or_here s s.fragment_start }, scan_locals 0 true)
resumed-Inside s h r =
    let (low, high, at) = or_here-pointer s s.fragment_start h in
    record {
      moves = record { word = []; splits = refl; counts = omega arith };
      low = low;
      high = high;
      behind = high;
      begun = elim r [ inl e ↦ inr (inl (at e)) | inr e ↦ inr (inr e) ];
      silent = λ _. refl;
      noted = λ e. cc;
      mode = λ e. cc;
    }

begun-Inside :
    (s t : Lexer) (l : StringScan)
    → Moves s t
    → s.cur < t.cur
    → t.diags ≡ s.diags
    → pointer t.fragment_start ≤ t.cur
    → s.cur ≤ token_start t l
    → token_start t l ≤ t.cur
    → l.had_error ≡ false
    → (l.is_template ≡ false → t.state ≡ normal)
    → Inside s.cur s (t, l)
begun-Inside s t l m a d h low high e mode = record {
  moves = m;
  low = low;
  high = high;
  behind = h;
  begun = inl a;
  silent = λ _. d;
  noted = λ f. cc (e, f);
  mode = mode;
}

-- A string, a template string or what goes on of one, where a byte is left: the token is one of the
-- text, and the next call finds the lexer in order.
pub scan_string-IsString :
    (s : Lexer)
    → at_end s ≡ false
    → pointer s.fragment_start ≤ s.cur
    → (in_template_string s ≡ true → Resumes s)
    → IsString (string_low s) s (scan_string s)
unfolding scan_string string_start
scan_string-IsString s h behind r =
    let one = Moves-one s h in
    elim (Bool-cases (in_template_string s)) [
      | inl e ↦
          rw e
            (string_body-IsString (pointer s.fragment_start) s _ _ (resumed-Inside s behind (r e)))
      | inr e ↦ rw e (elim (Bool-cases (peek s 0 == b'`')) [
        | inl q ↦ rw q (
            string_body-IsString s.cur s _ _ (
              begun-Inside s _ _
                (record { word = one.word; splits = one.splits; counts = one.counts }) (omega arith)
                refl (omega arith) (omega arith) (omega arith) refl (λ f. cc)))
        | inr q ↦ rw q (
            string_body-IsString s.cur s _ _ (
              begun-Inside s _ _ one (omega arith) refl (omega arith) (omega arith) (omega arith)
                refl (λ f. ground arith)))
      ])
    ]
