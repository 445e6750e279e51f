-- ===== src/Lexer/Identifier/Moves.antt =====
-- The cursor across an identifier, and the end of the loop.
use moksha.Base.{
  ℕ, suc, ◌<◌, ◌≡◌, refl, Bool, true, false, some, length, Step, again, leave, loop, Fine,
  loop_total, loop_result, arith,
}
use moksha.Lexer.State.{Utf8, Lexer, at_end}
use moksha.Lexer.State.Moves.{
  Moves, Moves-refl, Moves-trans, Moves-one, Moves-advance_utf8, Moves-le, Moves-length,
  advance_utf8_ahead, diags-advance_utf8, Frame, Same-refl, Frame-trans, Frame-advance_utf8,
}
use moksha.Lexer.State.Scanned.{IsScanned, IsScanned-token, IsScanned-error}
use moksha.Lexer.Identifier.{
  body_step, ident_start, ident_token, ident_body, ident_end, body_end, scan_identifier,
}

-- The cursor goes on from `s` to `t`, and nothing is reported.
pub record Passes (s t : Lexer) : Type 0 where
  pub moves : Moves s t
  pub silent : t.diags ≡ s.diags
  pub same : Frame s t

Passes-trans : {s t u : Lexer} → Passes s t → Passes t u → Passes s u
Passes-trans p q = record {
  moves = Moves-trans p.moves q.moves;
  silent = cc (p.silent, q.silent);
  same = Frame-trans p.same q.same;
}

-- What a round guarantees: the loop goes on only further ahead.
abbrev Onward : Lexer → Step Lexer (Lexer × Bool) → Type 0
Onward s (again t) = Moves s t × (s.cur < t.cur) × (t.diags ≡ s.diags) × Frame s t
Onward s (leave (t, fine)) = Moves s t × (t.diags ≡ s.diags) × Frame s t

body_step-Onward : (u : Utf8) (s : Lexer) → Onward s (body_step u s)
unfolding body_step
body_step-Onward u s = ground (
  arith,
  Moves-one s,
  advance_utf8_ahead u s,
  Moves-advance_utf8 u s,
  Moves-refl s,
  diags-advance_utf8 u s,
  Frame-advance_utf8 u s,
)

module _ (u : Utf8) (o : Lexer) where
  abbrev IsFine : Lexer → Step Lexer (Lexer × Bool) → Type 0
  IsFine = Fine (Passes o) (λ r. Passes o r.0) (λ s. length s.rest)

  fine : (s : Lexer) (k : Step Lexer (Lexer × Bool)) → Passes o s → Onward s k → IsFine s k
  fine s (again t) p (m, ahead, e, f) =
      (Passes-trans p (record { moves = m; silent = e; same = f }), omega (arith, Moves-length m))
  fine s (leave (t, b)) p (m, e, f) = Passes-trans p (record { moves = m; silent = e; same = f })

  -- The loop over the body of an identifier ends within the bytes left and one more as fuel: with
  -- more rounds than bytes it returns, the cursor further on, and nothing reported.
  pub body_loop_total :
      (fuel : ℕ)
      → length o.rest < fuel
      → (r : Lexer × Bool) × (loop (body_step u) fuel o ≡ some r) × Passes o r.0
  body_loop_total fuel h =
      loop_total (Passes o) (λ r. Passes o r.0) (λ s. length s.rest) (body_step u)
        (λ s p. fine s (body_step u s) p (body_step-Onward u s)) fuel o
        (record { moves = Moves-refl o; silent = refl; same = Same-refl }) h

  pub body_end-Passes : Passes o (body_end u o).0
  body_end-Passes =
      loop_result (Passes o) (λ r. Passes o r.0) (λ s. length s.rest) (body_step u)
        (λ s p. fine s (body_step u s) p (body_step-Onward u s)) (suc (length o.rest)) o (o, false)
        (record { moves = Moves-refl o; silent = refl; same = Same-refl }) (omega arith)

ident_end-IsScanned :
    {s t : Lexer} (r : Lexer × Bool)
    → s.cur < t.cur
    → Passes s t
    → Passes t r.0
    → IsScanned s.cur s (ident_end s r)
ident_end-IsScanned {s} {t} (v, true) a p q =
    IsScanned-token v s.cur (Moves-trans p.moves q.moves) (omega arith) (ident_token s v) refl refl
      (omega (arith, Moves-le q.moves)) (omega (arith, Moves-le q.moves))
      (λ _. cc (p.silent, q.silent))
ident_end-IsScanned {s} (v, false) a p q =
    IsScanned-error v s.cur (Moves-trans p.moves q.moves) (omega arith)
      (omega (arith, Moves-le q.moves))

ident_body-IsScanned :
    (u : Utf8) (s : Lexer) (r : Lexer × Bool)
    → Passes s r.0
    → (r.1 ≡ true → s.cur < r.0.cur)
    → IsScanned s.cur s (ident_body u s r)
ident_body-IsScanned u s (t, true) p a =
    ident_end-IsScanned (body_end u t) (a refl) p (body_end-Passes u t)
ident_body-IsScanned u s (t, false) p a =
    IsScanned-error t s.cur p.moves (omega arith) (omega (arith, Moves-le p.moves))

ident_start-Moves :
    (u : Utf8) (s : Lexer)
    → at_end s ≡ false
    → Moves s (ident_start u s).0
      × ((ident_start u s).0.diags ≡ s.diags)
      × Frame s (ident_start u s).0
      × ((ident_start u s).1 ≡ true → s.cur < (ident_start u s).0.cur)
ident_start-Moves u s h = ground (
  arith,
  Moves-one s h,
  advance_utf8_ahead u s,
  Moves-advance_utf8 u s,
  Moves-refl s,
  diags-advance_utf8 u s,
  Frame-advance_utf8 u s,
)

pub scan_identifier-IsScanned :
    (u : Utf8) (s : Lexer) → at_end s ≡ false → IsScanned s.cur s (scan_identifier u s)
unfolding scan_identifier
scan_identifier-IsScanned u s h =
    let (m, e, f, a) = ident_start-Moves u s h in
    ident_body-IsScanned u s (ident_start u s) (record { moves = m; silent = e; same = f }) a

ident_body-Frame :
    (u : Utf8) (s : Lexer) (r : Lexer × Bool) → Passes s r.0 → Frame s (ident_body u s r).0
ident_body-Frame u s (t, true) p = go (body_end u t) (body_end-Passes u t)
  where
    go : (r : Lexer × Bool) → Passes t r.0 → Frame s (ident_end s r).0
    go (v, true) q = Frame-trans p.same q.same
    go (v, false) q = Frame-trans p.same q.same
ident_body-Frame u s (t, false) p = p.same

pub scan_identifier-Frame :
    (u : Utf8) (s : Lexer) → at_end s ≡ false → Frame s (scan_identifier u s).0
unfolding scan_identifier
scan_identifier-Frame u s h =
    let (m, e, f, a) = ident_start-Moves u s h in
    ident_body-Frame u s (ident_start u s) (record { moves = m; silent = e; same = f })
