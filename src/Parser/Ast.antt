-- ===== src/Parser/Ast.antt =====
-- The expressions: include/moksha/AST/Expr.h. A node keeps no location and none of what the type
-- checker adds to it.
use moksha.Base.{ℕ, Bool, Bytes, Option, List}
use moksha.Lexer.Kinds.{TokenKind, NumericSuffix}

-- What the functions beside the expression parser return: a type (`TypePtr`), or a block (`StmtPtr`).
-- The expression parser looks at neither.
abbrev pub Opaque : Type 0
Opaque = ℕ

-- `CaptureMode`
pub data CaptureMode : Type 0 where
  snapshot move view mut : CaptureMode

mutual
  -- `ExprPtr`: a node, or the null pointer. A float is the text that `std::stod` reads.
  pub data Expr : Type 0 where
    null_ptr : Expr
    integer_literal : ℕ → NumericSuffix → Expr
    float_literal : Bytes → NumericSuffix → Expr
    decimal_literal : Bytes → Expr
    string_literal : Bytes → Bool → Expr
    bool_literal : Bool → Expr
    null_literal : Expr
    char_literal : ℕ → Expr
    array_literal : Exprs → Expr
    map_literal : Entries → Expr
    binary_expr : Expr → TokenKind → Expr → Expr
    unary_expr : TokenKind → Expr → Bool → Expr
    ternary_expr : Expr → Expr → Expr → Expr
    cast_expr : Opaque → Expr → Expr
    bitcast_expr : Opaque → Expr → Expr
    identifier_expr : Bytes → Expr
    call_expr : Expr → Exprs → Expr
    member_expr : Expr → Bytes → Bool → Expr
    index_expr : Expr → Expr → Bool → Expr
    -- the parameters, the body, the capture mode, `isAsync`
    lambda_expr : Params → LambdaBody → CaptureMode → Bool → Expr
    -- whether the type is made weak, the type, the arguments
    new_expr : Bool → Opaque → Exprs → Expr
    thread_expr : Bool → Expr → Expr
    template_string_expr : Exprs → Expr
    this_expr super_expr : Expr
    await_expr : Expr → Expr
    size_of_expr : Expr → Expr
    input_expr : Expr → Expr
    asm_expr : Option Opaque → Bytes → Asm → Expr

  pub data Exprs : Type 0 where
    no_exprs : Exprs
    expr : Expr → Exprs → Exprs

  pub data Entries : Type 0 where
    no_entries : Entries
    entry : Expr → Expr → Entries → Entries

  -- The type, the name and the default of each parameter.
  pub data Params : Type 0 where
    no_params : Params
    param : Opaque → Bytes → Expr → Params → Params

  -- A block, or an expression to return (`isExprBody`).
  pub data LambdaBody : Type 0 where
    block : Opaque → LambdaBody
    returned : Expr → LambdaBody

  -- The constraints and the expressions of `in(…)`, `out(…)` or `inout(…)`.
  pub data Operands : Type 0 where
    no_operands : Operands
    operand : Bytes → Expr → Operands → Operands

  -- The outputs, the inputs, the inouts, the clobbers, `isVolatile`.
  pub data Asm : Type 0 where
    asm : Operands → Operands → Operands → List Bytes → Bool → Asm

-- `!e`
unfoldable pub is_null : Expr → Bool
is_null null_ptr = Bool.true
is_null _ = Bool.false
