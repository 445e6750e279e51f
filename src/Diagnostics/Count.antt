-- ===== src/Diagnostics/Count.antt =====
-- The error counter against the messages printed.
use moksha.Base.{ℕ, suc, ◌+◌, ◌%◌, ◌<◌, ◌≡◌, refl, true, List, [], ◌∷◌, Bytes, arith, ◌↔◌}
use moksha.Diagnostics.Ids.{
  DiagId, DiagKind, dk_error, dk_warning, dk_remark, dk_note, get_diagnostic_kind,
}
use moksha.Diagnostics.{Message, DiagnosticEngine, fresh, unsigned_mod, emit, report, has_errors}

-- The number of error messages among those printed.
abbrev pub errors_in : List Message → ℕ
errors_in [] = 0
errors_in (m ∷ ms) = elim m.kind [ dk_error ↦ suc (errors_in ms) | _ ↦ errors_in ms ]

-- One report: the place, the ID and the extra text.
pub record Report : Type 0 where
  pub loc : ℕ
  pub id : DiagId
  pub extra : Bytes

-- The engine after a list of reports, the last of them first.
unfoldable pub report_all : DiagnosticEngine → List Report → DiagnosticEngine
report_all e [] = e
report_all e (r ∷ rs) = report (report_all e rs) r.loc r.id r.extra

-- The engine counts its errors, up to the wrap of an `unsigned`.
abbrev pub Counts : DiagnosticEngine → Type 0
Counts e = e.num_errors ≡ errors_in e.printed % unsigned_mod

mod_suc : (n : ℕ) → (n % unsigned_mod + 1) % unsigned_mod ≡ suc n % unsigned_mod
mod_suc n = omega arith

emit-Counts :
    (e : DiagnosticEngine) (loc : ℕ) (id : DiagId) (kind : DiagKind) (extra : Bytes)
    → Counts e
    → Counts (emit e loc id kind extra)
unfolding emit
emit-Counts e loc id dk_error extra h = ground (arith, mod_suc (errors_in e.printed))
emit-Counts e loc id dk_warning extra h = h
emit-Counts e loc id dk_remark extra h = h
emit-Counts e loc id dk_note extra h = h

-- After any reports to a fresh engine, `getNumErrors` is the number of error messages printed,
-- modulo 2^32.
pub report_all-Counts : (rs : List Report) → Counts (report_all fresh rs)
unfolding report_all report
report_all-Counts [] = refl
report_all-Counts (r ∷ rs) =
    emit-Counts (report_all fresh rs) r.loc r.id (get_diagnostic_kind r.id) r.extra
      (report_all-Counts rs)

-- While fewer than 2^32 errors have been printed, `hasErrors` holds exactly when some message that
-- was printed is an error.
pub has_errors_iff :
    (rs : List Report)
    → errors_in (report_all fresh rs).printed < unsigned_mod
    → (has_errors (report_all fresh rs) ≡ true) ↔ (0 < errors_in (report_all fresh rs).printed)
unfolding has_errors
has_errors_iff rs h = ground (arith, report_all-Counts rs)
