-- ===== src/Parser/RoundTrip.antt =====
-- What the parser of expressions makes of the tokens of a tree.
pub mod Heads
pub mod Operand
pub mod Levels
pub mod Ranks
pub mod Power
pub mod Whole
use moksha.Base.{ℕ}
