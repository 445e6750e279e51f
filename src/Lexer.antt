-- ===== src/Lexer.antt =====
-- The lexical analyser: include/moksha/Lexer/Lexer.h and lib/frontend/lexer/Lexer.cpp.
pub mod Kinds
pub mod Chars
pub mod State
pub mod Keywords
pub mod Identifier
pub mod Comment
pub mod Operator
pub mod Number
pub mod Text
pub mod Next
pub mod Run
