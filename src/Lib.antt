-- ===== src/Lib.antt =====
-- lilc: a compiler for a small C-like language, modelled and verified.
--
-- The program reads a source text, scans it into tokens (src/lex.c), parses the tokens to a syntax
-- tree with a Pratt parser (src/parse.c, src/ast.c), and generates LLVM code from the tree
-- (src/codegen.c). The parser holds a pointer to the lexer and looks one token ahead.
--
-- Which file models which part, with paths from the repository's root:
-- - Common: numbers, lists, byte strings, and their lemmas; the libraries' names are passed on.
-- - Outcome: how a run ends. `die` of src/util.c is `died` with the file, the line and the message;
--   undefined behaviour is `fault`; a state that C reaches through a pointer is passed along (`M`).
-- - Double: C's doubles, a parameter: conversion, `+`, `*` and the text of "%.1f", with the fact that
--   whole numbers up to 2 ^ 53 are exact.
-- - Buffer: the output buffer of `sprintf(buf + i, …)`, a C string and an index.
-- - Token: src/token.h and src/token.c. Lex: src/lex.h and src/lex.c, one function for each function
--   and each loop there. Lex/Spec says what a token is, Lex/Loops and Lex/Scan prove the scanner
--   right, and Lex/Complete that it finds every token. Lex/Lexeme has the lexemes, Lex/Written says how
--   a list of them may be written, with which blanks, and Lex/Text is one such way. Lex/Safety
--   is about its bounds and its line numbers, Lex/Number about its numbers and Lex/Typed about the
--   union in a token; Lex/Stream models and proves `tok_strm_readf`,
--   and Lex/Ends shows that it ends.
-- - Ast: src/ast.h and src/ast.c; Ast/Layout is the text that `ast_readf` writes.
-- - Parse: src/parse.h and src/parse.c, a function for each function and loop. Parse/Table has `vtables`,
--   whose function pointers are names of the functions (`Prefix`, `Infix`). Parse/Post states postconditions,
--   Parse/Calls and Parse/Parts prove those of the parts, Parse/Total those of the whole parser, and
--   Parse/Printing joins parser and printer. Parse/Source is the language: programs, how they are
--   spelled in lexemes and which tree they stand for. Parse/RoundTrip has the proof that the parser
--   reads them: Parse/Ahead is about the parser in front of a list of lexemes, Parse/Pratt about the
--   loop of `expression`, Parse/Emitted and Parse/Legible about the lexemes of a program, Parse/Cases,
--   Parse/Sequences, Parse/Branches and Parse/Compound about one kind of expression each. Parse/Errors
--   is about missing semicolons, Parse/Operands about missing operands, Parse/Overflow about calls
--   with too many arguments and Parse/Parameters about definitions with too many parameters.
-- - Codegen: src/codegen.h and src/codegen.c, the walk that builds LLVM code, a function for each
--   function there; those for nodes with children take what `do_codegen` does on each child.
--   Codegen/Interface holds the interfaces of LLVM and of the hash table, with the behaviour that the
--   theorems rely on; Codegen/Scope says what an expression can name; Codegen/Resolve is about
--   expressions, Codegen/Meaning and Codegen/Value about what their code computes, Codegen/Define
--   about a definition and Codegen/Programs about a block of them; Codegen/Drive has `lilc_eval`
--   and `lilc_emit`, and Codegen/Drive/Emit is about when the latter goes on to the object file.
--   Codegen/Semantics says which numbers a program computes, by itself, and Codegen/Execute what the
--   code that LLVM keeps does when it is executed. Below it, Laws joins LLVM's functions to that code
--   (`CodeLaws`), constants folded or not; Grows is about code that is added to, Gives and Steps about
--   runs of the generator as pieces of code, Build, Operations, Sequences, Opens, Arms, Phi, Parts and
--   Branches about one kind of piece each, Expressions about whole expressions, Functions about
--   definitions and blocks of them, and Unique about two executions of the same code.
--   Codegen/Drive/Computes and Codegen/Drive/Result join them to `lilc_eval`, and Codegen/Drive/Object
--   to `lilc_emit`.
-- - Util: src/util.c, `read_file` over C's streams, which are a parameter (`Stdio`) with their documented
--   behaviour (`StdioLaws`); Util/Reads is about it.
-- - Driver: test/test.c, which joins all parts: it reads a file, runs lexer, parser or code generator on
--   it, and compares what they give with another file. Driver/Compares and Driver/Computes are about it.
-- - Tests: runs of the model on the programs of test/src_examples, and the theorems at inputs;
--   Tests/Machine, Tests/Values and Tests/Recorder have small stand-ins for LLVM, and Tests/Files for files.
--
-- Characters are bytes from 0 to 255, as where `char` is unsigned, and `isalpha` and `isdigit` those of
-- the C locale. src/lex.c passes them a plain `char`: where `char` is signed, a byte of 128 or more is a
-- negative argument, for which they are undefined. Allocation is taken to
-- succeed, but for the buffer of `read_file`. The source buffer is a list of bytes with its NUL byte;
-- a read past its end is a fault.
-- A value that C leaves unset (the token of a new lexer, the error of a new parser) is an argument, or
-- `unset` and `none`.
-- Offsets and line numbers are natural numbers: the offset stays within the buffer, so an `int` holds
-- them for sources shorter than 2 ^ 31 bytes.
--
-- Loops and recursive calls take fuel. The lexer's is one more than the length of the source, since
-- each round reads a byte; the identifier loop's is 64, since it stores at most 63 characters; the
-- parser's is 6 * length + 6, since between two scans there are at most six calls. Running out is
-- an outcome of its own, which the theorems exclude. The arrays of test/test.c hold 512 characters; a
-- text that does not fit is a fault, which is looked for when the text is complete.
--
-- LLVM, its execution engine and its target machine are parameters of the code generator: functions on
-- a state that LLVM keeps, with a NULL result as `none`. So is libcfu's hash table, as a map. The
-- theorems say which function of which module the execution engine runs, and what executing that
-- module gives; only Codegen/Drive/Result takes it that the engine does what it is said to do
-- (`RunsCode`). A call in a program takes a bound on how deep calls nest, which stands for the
-- machine's stack.
--
-- Not modelled: the dump of the module on stderr and the disposal of LLVM's objects, the freeing of
-- the source buffers, and the vendored libraries under lib/ (a kvec vector is the sequence of its
-- elements).
pub mod Common
pub mod Outcome
pub mod Buffer
pub mod Token
pub mod Double
pub mod Util
pub mod Lex
pub mod Ast
pub mod Parse
pub mod Codegen
pub mod Driver
pub mod Tests
