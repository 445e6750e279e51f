-- ===== src/Parser.antt =====
-- The parser of expressions: lib/frontend/parser/Parser.cpp.
pub mod Ast
pub mod Kinds
pub mod Names
pub mod State
pub mod Lookahead
pub mod Strto
pub mod Unescape
pub mod Literals
pub mod Steps
pub mod Lists
pub mod Lambda
pub mod New
pub mod Asm
pub mod Groups
pub mod Primary
pub mod Postfix
pub mod Operators
pub mod Infix
pub mod Factors
pub mod Recovery
pub mod Trees
pub mod RoundTrip
pub mod Moves
pub mod Ends
