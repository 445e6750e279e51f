-- ===== src/Lib.antt =====
-- A verification library for the Moksha compiler (C++): a shallow embedding of parts of its front
-- end and of its middle end, with theorems on them.
--
-- The compiler reads a source buffer with the lexer, which the parser asks for one token after
-- another; the checker keeps the declared names in the symbol table; both report errors to the
-- diagnostic engine. Behind the front end, the passes on the middle representation fold what is
-- constant, simplify the control flow and remove dead code. These parts are modelled:
--
-- Diagnostics: lib/support/diagnostics/Diagnostics.cpp and include/moksha/Support/Diagnostics.h.
-- `DiagnosticEngine` keeps `NumErrors` and the messages that were printed; `report` is a report
-- with what is streamed behind it, and `emit` the method. Diagnostics/Ids has the IDs with their
-- kinds and texts.
-- Lexer: lib/frontend/lexer/Lexer.cpp and include/moksha/Lexer/Lexer.h. `Lexer` is the state, where
-- a pointer into the buffer is its offset. Lexer/Kinds has the token kinds, Lexer/State the state
-- and its helpers, Lexer/Chars the character classes, and one module each has `skipComment`
-- (Comment), `scanIdentifier` (Identifier, Keywords), `scanNumber` (Number), `scanString`,
-- `scanChar` and `consumeEscape` (Text), `scanOperator` (Operator) and `next` (Next). Lexer/Run is
-- about any number of calls of `next`.
-- Parser: the expressions of lib/frontend/parser/Parser.cpp, with the nodes of
-- include/moksha/AST/Expr.h (Parser/Ast). Parser/State has the tokens that are left and the moves
-- over them (`advance`, `expect`, `synchronize`), Parser/Lookahead the tests that read the source
-- text (`hasNewlineBeforeToken`, `isStartOfDeclaration`), Parser/Literals and Parser/Unescape the
-- literals, Parser/Groups and Parser/Primary the cases of `parsePrimary`, Parser/Lambda, Parser/New
-- and Parser/Asm the lambdas, `new` and `asm`, Parser/Lists the lists of expressions, Parser/Postfix `parsePostfix`, Parser/Operators the loop of a level, and Parser/Infix
-- the levels from `parsePrefix` to `parseExpression`. Parser/Strto has what is used of the C++
-- library to read numbers, and Parser/Trees the trees of operators and their printed tokens.
-- SymbolTable: lib/frontend/sema/SymbolTable.cpp and include/moksha/Sema/SymbolTable.h. `Scope` and
-- `SymbolTable` are the classes, SymbolTable/Entries has the symbols, SymbolTable/Primitive
-- `addPrimitiveTypes`. An operation that can run into a failed assertion returns an option.
-- ConstantFolding: the folding of comparisons and of arithmetic on constant integers in
-- lib/middle/mir/passes/ConstantFoldingPass.cpp; ConstantFolding/Signed has the signed arithmetic,
-- where an overflow, which C++ leaves undefined, is an outcome of its own. `MirValue` is what the
-- pass sees of a value: its address, and a constant or a cast. The words have 64 bits.
-- Mir: the data of the middle representation, include/moksha/MIR/MIRInst.h, MIRBlock.h,
-- MIRFunction.h, MIRGlobal.h and MIRModule.h. A pointer to a value or a block is its address, and
-- the blocks of a function are a store that addresses are looked up in. Mir/Operands has
-- `replaceOperand`, Mir/Blocks the edges between blocks (lib/middle/mir/MIRBlock.cpp).
-- Builder: the terminators of lib/middle/mir/MIRBuilder.cpp.
-- Worklist: the marking loops that two passes have, with the relation that they compute.
-- DeadCode: lib/middle/mir/passes/DeadCodeEliminationPass.cpp. DeadCode/Unreachable has the removal
-- of unreachable blocks (`remove_unreachable`), DeadCode/Phis that of trivial phi instructions
-- (`eliminate_phis`), DeadCode the mark and sweep (`alive`, `sweep`), and DeadCode/Pass
-- the three steps together (`eliminate_dead_code`).
-- SimplifyCfg: lib/middle/mir/passes/SimplifyCFGPass.cpp: the healer (`heal`), `foldBranches`,
-- `bypassEmptyBlocks` (Bypass), `mergeBlocks` (Merge) and `removeDeadBlocks` (Dead).
-- JumpThreading: lib/middle/mir/passes/JumpThreadingPass.cpp (`thread_jumps`,
-- `run_on_functions`).
-- Dominance: lib/middle/analysis/MIRDominance.cpp: `computeRPO`, the numbers of the blocks in that
-- order, and `intersect`.
-- Base has what the parts share, Tests the runs and the theorems at concrete inputs.
--
-- Code outside of the repository is a parameter: `Utf8`, the two functions of
-- llvm/Support/ConvertUTF.h that the lexer calls, and `StringMap`, the operations of
-- llvm/ADT/StringMap.h with the laws that its documentation gives. `ToUtf8` is
-- `llvm::ConvertCodePointToUTF8`, and a float literal keeps the text that `std::stod` reads. The
-- record `Callees` also holds `parseType` and `parseBlock` of Parser.cpp, which are not modelled: they
-- are given the expression parser to call. `Behaves` is what is asked of them: to return and not to go
-- back, wherever the expression parser that they are given does so.
--
-- The loops of the lexer that can end in several ways run on fuel: the bytes that are left, and one
-- more. Every round takes a byte at least, so that this is enough. A buffer may have any length; the
-- 32 bits of a token's length are written out, and a theorem that needs a bound states it.
-- `NumErrors` is an `unsigned` of 32 bits; the balance of braces has no bound. A marking loop runs on
-- twice the number of values that it can meet, and one more, since a round finds a value or takes one
-- from the stack; the depth-first visit on the number of blocks, and one more, since a call enters a
-- new block; the removal of dead blocks on the number of blocks, and one more; and `intersect` on
-- more than the sum of the two numbers, which fall. The expression parser runs on more than the
-- number of the tokens that are left, since a call of itself follows a token that is consumed. The
-- tokens end with the end of the file, or with an error that the lexer returns for ever (`Ending`).
--
-- Not modelled: the printing of messages and of the table (`SymbolTable::dump`), writes through the
-- pointers that `lookup` returns, the folding of floating point and of other
-- instructions, types and names in the middle representation, the instructions of the builder that
-- are no terminators, the map of names to globals and the flag for a change in the elimination of
-- dead code, the loop of SimplifyCFGPass::runOnFunction, the fixed point of the immediate dominators,
-- types, statements and declarations in the parser, and the other parts of the compiler, from the type checker to the backend and the runtime.
pub mod Base
pub mod Builder
pub mod ConstantFolding
pub mod DeadCode
pub mod Diagnostics
pub mod Dominance
pub mod JumpThreading
pub mod Lexer
pub mod Mir
pub mod Parser
pub mod SimplifyCfg
pub mod SymbolTable
pub mod Tests
pub mod Worklist
