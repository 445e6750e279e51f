-- ===== src/Lexer/Next/Result.antt =====
-- What `next` promises of its token: bounds, progress, order.
use moksha.Base.{
  ℕ, ◌-◌, ◌≤◌, ◌<◌, ◌≡◌, ◌≢◌, ◌==◌, ◌⊎◌, inl, inr, refl, sym, ◌∙◌, Bool, true, false, ◌&&◌, ◌||◌,
  [], if◌then◌else◌, arith,
}
use moksha.Lexer.Kinds.{TokenKind, Token, uint32}
use moksha.Lexer.State.{Utf8, Lexer, at_end, peek, error_at}
use moksha.Lexer.State.Moves.{Moves, Moves-trans, Moves-le, Frame}
use moksha.Lexer.State.Scanned.{IsScanned}
use moksha.Lexer.State.Well.{IsWell, IsWell-Frame, resumes}
use moksha.Lexer.Chars.{is_digit, is_ascii_ident_start, is_utf8_start}
use moksha.Lexer.Identifier.Moves.{scan_identifier-IsScanned, scan_identifier-Frame}
use moksha.Lexer.Number.Scanned.{scan_number-IsScanned, scan_number-Frame}
use moksha.Lexer.Operator.Moves.{scan_operator-IsScanned, scan_operator-IsWell}
use moksha.Lexer.Text.Scanned.{string_low, scan_string-IsString}
use moksha.Lexer.Text.Char.{scan_char-IsScanned, scan_char-Frame}
use moksha.Lexer.Next.{scan_token}

-- A call of `next` from `s`, for a token that begins at `lo` or behind it.
pub record IsNext (lo : ℕ) (s : Lexer) (r : Lexer × Token) : Type 0 where
  pub moves : Moves s r.0
  pub from : lo ≤ r.1.location
  pub to : r.1.location ≤ r.0.cur
  pub ends : r.1.kind ≢ TokenKind.error → r.1.length ≡ uint32 (r.0.cur - r.1.location)
  pub ahead :
      r.1.kind ≢ TokenKind.error
      → (s.cur < r.0.cur) ⊎ ((r.1.kind ≡ TokenKind.eof) × (r.0.rest ≡ []))
  pub quiet :
      r.1.kind ≢ TokenKind.error → r.1.kind ≢ TokenKind.string_fragment → r.0.diags ≡ s.diags
  pub well : IsWell r.0

pub IsNext-IsScanned :
    {lo low : ℕ} {o s : Lexer} {r : Lexer × Token}
    → Moves o s
    → o.diags ≡ s.diags
    → lo ≤ low
    → IsScanned low s r
    → IsWell r.0
    → IsNext lo o r
IsNext-IsScanned m d h i w = record {
  moves = Moves-trans m i.moves;
  from = omega (arith, i.from);
  to = i.to;
  ends = i.ends;
  ahead = λ e. inl (omega (arith, Moves-le m, i.ahead e));
  quiet = λ e f. i.quiet e f ∙ sym d;
  well = w;
}

-- The state is one of code, where a token may begin.
module _ (u : Utf8) {o : Lexer} (s : Lexer) (m : Moves o s) (d : o.diags ≡ s.diags)
    (h : at_end s ≡ false) (w : IsWell s) (code : resumes s ≡ false) where
  -- The token does not touch strings.
  plain_token : (r : Lexer × Token) → IsScanned s.cur s r → Frame s r.0 → IsNext (string_low s) o r
  plain_token r i f =
      IsNext-IsScanned m d (ground (arith, w.behind)) i
        (IsWell-Frame r.0 code w f (Moves-le i.moves))

  IsNext-if :
      (b : Bool) (x y : Lexer × Token)
      → (b ≡ true → IsNext (string_low s) o x)
      → (b ≡ false → IsNext (string_low s) o y)
      → IsNext (string_low s) o (if b then x else y)
  IsNext-if true x y p q = p refl
  IsNext-if false x y p q = q refl

  pub scan_token-IsNext : IsNext (string_low s) o (scan_token u s)
  unfolding scan_token
  scan_token-IsNext =
      IsNext-if (is_ascii_ident_start (peek s 0) || is_utf8_start (peek s 0)) _ _
        (λ _. plain_token _ (scan_identifier-IsScanned u s h) (scan_identifier-Frame u s h))
        (λ _.
          IsNext-if (is_digit (peek s 0)) _ _
            (λ b. plain_token _ (scan_number-IsScanned s (inl b)) (scan_number-Frame s (inl b)))
            (λ _.
              IsNext-if (peek s 0 == b'.' && is_digit (peek s 1)) _ _
                (λ b.
                  let p : (peek s 0 == b'.') ≡ true = ground arith in
                  plain_token _ (scan_number-IsScanned s (inr p)) (scan_number-Frame s (inr p)))
                (λ _.
                  IsNext-if (peek s 0 == b'"' || peek s 0 == b'`') _ _
                    (λ q.
                      let i = scan_string-IsString s h w.behind (λ _. inr (ground arith)) in
                      IsNext-IsScanned m d (omega arith) i.scanned i.well)
                    (λ _.
                      IsNext-if (peek s 0 == b'\'') _ _
                        (λ _. plain_token _ (scan_char-IsScanned u s h) (scan_char-Frame u s h))
                        (λ _.
                          IsNext-IsScanned m d (ground (arith, w.behind))
                            (scan_operator-IsScanned s h) (scan_operator-IsWell s code w))))))

pub IsNext-low :
    {lo low : ℕ} {s : Lexer} {r : Lexer × Token} → lo ≤ low → IsNext low s r → IsNext lo s r
IsNext-low h i = record {
  moves = i.moves;
  from = omega (arith, i.from);
  to = i.to;
  ends = i.ends;
  ahead = i.ahead;
  quiet = i.quiet;
  well = i.well;
}

pub IsNext-error :
    {lo : ℕ} {s t : Lexer} (start : ℕ)
    → Moves s t
    → lo ≤ start
    → start ≤ t.cur
    → IsWell t
    → IsNext lo s (t, error_at t start)
IsNext-error start m h k w = record {
  moves = m;
  from = h;
  to = k;
  ends = λ e. absurd (e refl);
  ahead = λ e. absurd (e refl);
  quiet = λ e. absurd (e refl);
  well = w;
}
