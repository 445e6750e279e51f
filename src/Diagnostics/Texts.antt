-- ===== src/Diagnostics/Texts.antt =====
-- The texts tell the IDs apart.
use moksha.Base.{
  ◌≡◌, refl, ap, sym, ◌∙◌, Option, some, none, List, [], ◌∷◌, Bytes, bytes_eq, if◌then◌else◌,
}
use mathlib.Core.Option.{some-injective}
use moksha.Diagnostics.Ids.{DiagId, all_ids, get_diagnostic_text, err_unexpected_char}

-- The first ID of a list with the given text.
id_in : List DiagId → Bytes → Option DiagId
id_in [] t = none
id_in (i ∷ is) t = if bytes_eq (get_diagnostic_text i) t then some i else id_in is t

id_in-get_diagnostic_text : (i : DiagId) → id_in all_ids (get_diagnostic_text i) ≡ some i
unfolding id_in get_diagnostic_text bytes_eq
id_in-get_diagnostic_text err_unexpected_char = refl
id_in-get_diagnostic_text _ = refl

-- Two IDs with the same text are one ID: no two diagnostics print alike, and every ID has a text of
-- its own.
pub get_diagnostic_text-injective :
    (i j : DiagId) → get_diagnostic_text i ≡ get_diagnostic_text j → i ≡ j
get_diagnostic_text-injective i j h =
    some-injective _ _
      (sym (id_in-get_diagnostic_text i) ∙ ap (id_in all_ids) h ∙ id_in-get_diagnostic_text j)
