-- ===== src/Parser/Steps.antt =====
-- The results of the parser's functions, and how they are put together: `none` where the fuel runs
-- out, else what the function returns and the state behind it.
use moksha.Base.{Bool, true, false, Option, none, some, Bytes}
use moksha.Parser.Ast.{Expr, Opaque, null_ptr, is_null}
use moksha.Parser.State.{State}
use moksha.Parser.Unescape.{ToUtf8}

abbrev pub Result : Type 0 → Type 0
Result A = Option (A × State)

module _ {A B : Type 0} where
  unfoldable pub chain : Result A → (A → State → Result B) → Result B
  chain none k = none
  chain (some (a, s)) k = k a s

module _ {A : Type 0} where
  -- A test, of which one branch alone is run.
  unfoldable pub when : Bool → State → (State → Result A) → (State → Result A) → Result A
  when true s f g = f s
  when false s f g = g s

-- `if (!e) return nullptr;`
unfoldable pub unless_null : Expr → State → (State → Result Expr) → Result Expr
unfolding when is_null
unless_null e s k = when (is_null e) s (λ t. some (null_ptr, t)) k

-- A function of the parser that calls `parseExpression` back: it is given the expression parser.
abbrev pub Calling : Type 0 → Type 0
Calling A = (State → Result Expr) → State → Result A

abbrev pub fails : State → Result Expr
fails s = some (null_ptr, s)

-- What the expression parser calls outside it: `std::stod` (whether it reads the text), the
-- conversion of a code point, and two functions that call it back, `parseType` (`none` is the null
-- pointer) and `parseBlock`.
pub record Callees : Type 0 where
  pub accepts_float : Bytes → Bool
  pub utf8 : ToUtf8
  pub parse_type : Calling (Option Opaque)
  pub parse_block : Calling Opaque
