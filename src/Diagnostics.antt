-- ===== src/Diagnostics.antt =====
-- The diagnostic engine: include/moksha/Support/Diagnostics.h and
-- lib/support/diagnostics/Diagnostics.cpp. `SrcMgr.PrintMessage` is output: the engine here keeps
-- the list of the messages that it printed, the latest first.
pub mod Ids
pub mod Texts
pub mod Count
use moksha.Base.{
  ℕ, ◌+◌, ◌%◌, ◌^◌, ◌≡◌, Bool, true, false, List, [], ◌∷◌, ◌++◌, Bytes, codes, ltb, if◌then◌else◌,
}
use Ids.{DiagId, DiagKind, dk_error, dk_warning, dk_remark, dk_note, get_diagnostic_kind}
use Ids.{get_diagnostic_text}

-- What one call of `SrcMgr.PrintMessage` prints. A location is an offset into the buffer.
pub record Message : Type 0 where
  pub loc : ℕ
  pub kind : DiagKind
  pub text : Bytes

pub record DiagnosticEngine : Type 0 where
  pub num_errors : ℕ
  pub printed : List Message

-- An engine that has reported nothing.
abbrev pub fresh : DiagnosticEngine
fresh = record { num_errors = 0; printed = [] }

abbrev pub unsigned_mod : ℕ
unsigned_mod = 2 ^ 32

abbrev is_error : DiagKind → Bool
is_error dk_error = true
is_error _ = false

abbrev is_empty : Bytes → Bool
is_empty [] = true
is_empty _ = false

-- `FinalMsg`: the text of the ID, and what was streamed behind it.
final_msg : DiagId → Bytes → Bytes
final_msg id extra =
    if is_empty extra
    then get_diagnostic_text id
    else get_diagnostic_text id ++ (codes ": " ++ extra)

unfoldable pub emit : DiagnosticEngine → ℕ → DiagId → DiagKind → Bytes → DiagnosticEngine
unfolding final_msg
emit e loc id kind extra = record {
  num_errors = if is_error kind then (e.num_errors + 1) % unsigned_mod else e.num_errors;
  printed = record { loc = loc; kind = kind; text = final_msg id extra } ∷ e.printed;
}

-- `Diags.report(loc, id) << extra`: the builder emits when it goes out of scope.
unfoldable pub report : DiagnosticEngine → ℕ → DiagId → Bytes → DiagnosticEngine
unfolding emit
report e loc id extra = emit e loc id (get_diagnostic_kind id) extra

unfoldable pub has_errors : DiagnosticEngine → Bool
has_errors e = ltb 0 e.num_errors
