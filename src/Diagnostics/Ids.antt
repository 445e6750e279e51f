-- ===== src/Diagnostics/Ids.antt =====
-- The diagnostic IDs: include/moksha/Support/Diagnostics.h (`DiagID`), and their kinds and texts:
-- lib/support/diagnostics/Diagnostics.cpp (`getDiagnosticKind`, `getDiagnosticText`).
use moksha.Base.{Bytes, codes, List, [], ◌∷◌}

pub data DiagId : Type 0 where
  -- Lexer / Parser Errors
  err_unexpected_char err_unexpected_token err_expected_expression : DiagId
  err_expected_token : DiagId
  -- Sema / Symbol Table Errors
  err_symbol_redefinition err_undeclared_identifier err_variable_redeclaration : DiagId
  err_function_redeclaration : DiagId
  -- Type Checking Errors
  err_type_mismatch err_type_incompatible_assignment err_type_incompatible_return : DiagId
  err_const_violation err_if_condition_bool err_invalid_bin_op : DiagId
  err_invalid_unary_op err_invalid_cast err_missing_return : DiagId
  err_invalid_access err_member_collision err_argument_count_mismatch : DiagId
  err_unreachable_code err_decimal_precision_loss err_decimal_overflow : DiagId
  err_array_length err_spread_fixed_array err_ambiguous_inheritance : DiagId
  err_ambiguous_reference err_null_assignment err_infinite_size : DiagId
  err_generic_constraint err_generic_arity err_uninitialized_var : DiagId
  err_builtin_shadowing : DiagId
  -- MIR / Lowering Errors
  err_unexpanded_macro err_invalid_type err_not_implemented : DiagId
  -- Borrow Checker Errors
  err_borrow_violation err_mutation_while_borrowed err_borrow_escape : DiagId
  err_use_after_move err_partial_move note_borrow_occurred_here : DiagId
  -- Warnings
  warn_switch_not_exhaustive warn_not_implemented warn_unused_variable : DiagId
  warn_implicit_bool_conv : DiagId
  -- Concurrency & Async Errors
  err_await_in_sync_lock err_thread_in_async_lock err_async_lock_target : DiagId
  -- General / Notes
  note_previous_definition err_no_member err_unknown_type : DiagId
  err_break_outside_loop err_continue_outside_loop err_invalid_this : DiagId
  err_invalid_super err_internal err_missing_builtin : DiagId

-- `llvm::SourceMgr::DiagKind`.
pub data DiagKind : Type 0 where
  dk_error dk_warning dk_remark dk_note : DiagKind

unfoldable pub get_diagnostic_kind : DiagId → DiagKind
get_diagnostic_kind note_previous_definition = DiagKind.dk_note
get_diagnostic_kind warn_unused_variable = DiagKind.dk_warning
get_diagnostic_kind warn_switch_not_exhaustive = DiagKind.dk_warning
get_diagnostic_kind warn_not_implemented = DiagKind.dk_warning
get_diagnostic_kind warn_implicit_bool_conv = DiagKind.dk_warning
get_diagnostic_kind _ = DiagKind.dk_error

-- Each `case` of the switch. No ID falls through to its `default`.
unfoldable pub get_diagnostic_text : DiagId → Bytes
get_diagnostic_text err_unexpected_char = codes "Unexpected character"
get_diagnostic_text err_unexpected_token = codes "Unexpected token"
get_diagnostic_text err_expected_expression = codes "Expected expression"
get_diagnostic_text err_expected_token = codes "Expected token"
get_diagnostic_text err_symbol_redefinition = codes "Redefinition of symbol"
get_diagnostic_text err_undeclared_identifier = codes "Undeclared identifier"
get_diagnostic_text err_variable_redeclaration = codes "Variable already declared in this scope"
get_diagnostic_text err_function_redeclaration = codes "Function already declared"
get_diagnostic_text err_type_mismatch = codes "Type mismatch"
get_diagnostic_text err_type_incompatible_assignment = codes "Incompatible types in assignment"
get_diagnostic_text err_type_incompatible_return =
    codes "Return value type does not match function return type"
get_diagnostic_text err_const_violation = codes "Cannot assign to const variable"
get_diagnostic_text err_if_condition_bool = codes "'if' condition must be boolean"
get_diagnostic_text err_invalid_bin_op = codes "Invalid operands for binary operator"
get_diagnostic_text err_invalid_unary_op = codes "Invalid operand for unary operator"
get_diagnostic_text err_invalid_cast = codes "Invalid type cast"
get_diagnostic_text err_missing_return = codes "Non-void function may end without returning a value"
get_diagnostic_text err_invalid_access = codes "Invalid access to member"
get_diagnostic_text err_member_collision = codes "Member collision"
get_diagnostic_text err_argument_count_mismatch =
    codes "Function argument count mismatch: expected vs provided"
get_diagnostic_text err_unreachable_code = codes "Unreachable code"
get_diagnostic_text err_decimal_precision_loss = codes "Decimal scale truncation"
get_diagnostic_text err_decimal_overflow = codes "Possible decimal overflow"
get_diagnostic_text err_array_length = codes "Length mismatch"
get_diagnostic_text err_spread_fixed_array =
    codes "Cannot use spread operator (...) on fixed-size arrays"
get_diagnostic_text err_ambiguous_inheritance = codes "Ambiguous inheritance"
get_diagnostic_text err_ambiguous_reference = codes "Ambiguous reference"
get_diagnostic_text err_null_assignment = codes "Cannot assign 'null' to non-nullable type"
get_diagnostic_text err_infinite_size = codes "Recursive type has infinite size"
get_diagnostic_text err_generic_constraint = codes "Generic constraint violation"
get_diagnostic_text err_generic_arity = codes "Generic arity mismatch"
get_diagnostic_text err_uninitialized_var = codes "Uninitialized variable"
get_diagnostic_text err_builtin_shadowing = codes "Builtin shadowing"
get_diagnostic_text err_unexpanded_macro = codes "Unexpanded macro reached MIR lowering phase"
get_diagnostic_text err_invalid_type = codes "Invalid or unsupported type found"
get_diagnostic_text err_not_implemented = codes "Feature not yet implemented"
get_diagnostic_text err_borrow_violation = codes "Borrow checker violation"
get_diagnostic_text err_mutation_while_borrowed =
    codes "Cannot mutate variable while it is actively borrowed"
get_diagnostic_text err_borrow_escape = codes "Borrow escape detected"
get_diagnostic_text err_use_after_move = codes "Use of moved value"
get_diagnostic_text err_partial_move = codes "Use of partially moved value"
get_diagnostic_text note_borrow_occurred_here = codes "Borrow occurred here"
get_diagnostic_text warn_switch_not_exhaustive = codes "Switch statement is not exhaustive"
get_diagnostic_text warn_not_implemented = codes "Feature not yet implemented (Warning)"
get_diagnostic_text warn_unused_variable = codes "Variable declared but never used"
get_diagnostic_text warn_implicit_bool_conv = codes "Implicit conversion to boolean"
get_diagnostic_text err_await_in_sync_lock =
    codes "Cannot use 'await' inside a synchronous 'lock' block (causes OS thread deadlock)"
get_diagnostic_text err_thread_in_async_lock =
    codes "Cannot spawn an OS thread inside an 'async lock' (causes scheduler starvation)"
get_diagnostic_text err_async_lock_target = codes "Target of 'async lock' must be an 'AsyncMutex'"
get_diagnostic_text note_previous_definition = codes "Previous definition is here"
get_diagnostic_text err_no_member = codes "No such member"
get_diagnostic_text err_unknown_type = codes "Unknown type"
get_diagnostic_text err_break_outside_loop = codes "'break' statement outside of loop or switch"
get_diagnostic_text err_continue_outside_loop = codes "'continue' statement outside of loop"
get_diagnostic_text err_invalid_this = codes "Invalid use of 'this' outside of a class method"
get_diagnostic_text err_invalid_super = codes "Invalid use of 'super'"
get_diagnostic_text err_internal = codes "Internal compiler error"
get_diagnostic_text err_missing_builtin =
    codes "Missing required compiler builtin or runtime function"

-- The IDs in the order of the enumeration.
abbrev pub all_ids : List DiagId
all_ids =
    err_unexpected_char ∷ err_unexpected_token ∷ err_expected_expression ∷ err_expected_token
    ∷ err_symbol_redefinition ∷ err_undeclared_identifier ∷ err_variable_redeclaration
    ∷ err_function_redeclaration ∷ err_type_mismatch ∷ err_type_incompatible_assignment
    ∷ err_type_incompatible_return ∷ err_const_violation ∷ err_if_condition_bool
    ∷ err_invalid_bin_op ∷ err_invalid_unary_op ∷ err_invalid_cast ∷ err_missing_return
    ∷ err_invalid_access ∷ err_member_collision ∷ err_argument_count_mismatch ∷ err_unreachable_code
    ∷ err_decimal_precision_loss ∷ err_decimal_overflow ∷ err_array_length ∷ err_spread_fixed_array
    ∷ err_ambiguous_inheritance ∷ err_ambiguous_reference ∷ err_null_assignment ∷ err_infinite_size
    ∷ err_generic_constraint ∷ err_generic_arity ∷ err_uninitialized_var ∷ err_builtin_shadowing
    ∷ err_unexpanded_macro ∷ err_invalid_type ∷ err_not_implemented ∷ err_borrow_violation
    ∷ err_mutation_while_borrowed ∷ err_borrow_escape ∷ err_use_after_move ∷ err_partial_move
    ∷ note_borrow_occurred_here ∷ warn_switch_not_exhaustive ∷ warn_not_implemented
    ∷ warn_unused_variable ∷ warn_implicit_bool_conv ∷ err_await_in_sync_lock
    ∷ err_thread_in_async_lock ∷ err_async_lock_target ∷ note_previous_definition ∷ err_no_member
    ∷ err_unknown_type ∷ err_break_outside_loop ∷ err_continue_outside_loop ∷ err_invalid_this
    ∷ err_invalid_super ∷ err_internal ∷ err_missing_builtin ∷ []
