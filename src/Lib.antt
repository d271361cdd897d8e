-- ===== src/Lib.antt =====
-- A model of the core of the linker lld, of its linker scripts and of its OpenRISC 1000 target, with
-- proofs.
--
-- A link reads files into atoms (functions, data, undefined names). The resolver walks over the
-- input files and passes each atom to the symbol table, which keeps one atom for each name and
-- notes by which atom every other one is replaced. Then the resolver redirects the references,
-- drops what no root leads to, reports undefined symbols and hands the remaining atoms on. The
-- target's pass makes entries of the offset and linkage tables and leads references to them. A
-- writer lays the atoms out and applies their relocations to the bytes of the output.
--
-- Where each part stands, with paths from the repository's root:
--   Core/Atom        include/lld/Core: Atom.h, DefinedAtom.h, UndefinedAtom.h, SharedLibraryAtom.h,
--                    AbsoluteAtom.h, Reference.h; lib/Core/DefinedAtom.cpp (Atom/Permissions)
--   Core/Context     include/lld/Core/LinkingContext.h: the options and the hook that the core reads
--   Core/File        include/lld/Core: File.h, Node.h; lib/ReaderWriter/FileArchive.cpp: `find`
--   Core/SymbolTable include/lld/Core/SymbolTable.h, lib/Core/SymbolTable.cpp. Collide has the two
--                    tables and the `switch` of `addByName`; the operations are in SymbolTable
--                    itself. History says which tables a run can build; its children, Effect,
--                    Replacement, Strength, Merging and Content prove.
--   Core/Resolver    include/lld/Core/Resolver.h, lib/Core/Resolver.cpp. The handlers of atoms are in
--                    Resolver, `markLive` in Live, `deadStripOptimize` in Strip, `updateReferences`,
--                    `checkUndefines` and `removeCoalescedAwayAtoms` in Finish, the walk over the
--                    files and `resolve` in Inputs; Fallback is about an atom's alternative name.
--   Elf/Or1k         lib/ReaderWriter/ELF/OR1K: OR1KRelocationUtils.h and OR1KRelocationHandler.cpp
--                    (Relocation), OR1KRelocationPass.cpp (Pass; the handlers of references are in
--                    Pass/Handlers). Endian is what the code asks of LLVM.
--   Script           lib/ReaderWriter/LinkerScript.cpp and its header in include/lld/ReaderWriter. Token
--                    and Stream are the tokens and the parser's view of them, Lexer and Spelling the lexer,
--                    Number reads numbers, ByteStream fill patterns. Expression has the expressions with `evalExpr`, their
--                    parser (Parser) and the grammar that it is held against (Grammar). Ast and
--                    Commands are the commands and their parsers, Ends how they come to an end.
--                    Wildcard is `wildcardMatch`, Sema the class of that name: the layout, the caches
--                    of `getLayoutOrder` (Caches), `less` (Order), `getExprs` (Delivery), `perform`
--                    (Rules).
--   Base             texts, lists, tables, equality tests and bit masks, on the native numbers.
--
-- A linker script is parsed into commands; Sema puts the commands of SECTIONS into one list, and
-- answers from it in which order input sections go, into which output section, and which assignments
-- are evaluated before them.
--
-- How the state corresponds. A pointer to an atom is a number, its address; `Memory` gives the atom
-- at an address, and `setTarget` writes there. `SymbolTable` and `Resolver` are records with the
-- classes' fields; a method takes the record and returns it. A hash table is an association list, so
-- iteration is in that list's order, where the source has the order of its hash table; the results
-- do not say in which order atoms come. In the set that merges by content, atoms that differ in what
-- their hash is made of are taken to have different hashes. A call ends in an `Outcome`: a value, a
-- fatal error, a failed assertion or cast, or `out_of_fuel`, which the source does not have.
--
-- In Script the lexer takes a buffer, as a list of characters, to a token and the rest of the
-- buffer. The parser stands on the list of all tokens, with the current one in front; a parse
-- function returns an object or null, with the tokens that are left. An `int64_t` is its bit
-- pattern. An `int` that may be -1 is an option. Pointers to expressions are the expressions.
--
-- Fuel. `replacement` has one round more than there are entries, since a chain of replacements meets
-- an entry once. `markLive` takes as fuel more than the number of atoms in a set that is closed
-- under references, since each call marks an atom; `getFile` two rounds more than there are nodes
-- left. The parser of scripts takes a few units for each token: each call or turn of a loop takes
-- one, and no chain of calls is longer than three between two tokens. The lexer takes a unit for
-- each token. The whole link, `resolve`, takes its fuel from the caller. A `uint64_t` is a number
-- below 2 ^ 64, with `% 2 ^ w` written out in arithmetic and conversions.
--
-- What is a parameter. The files' content, since readers and LLVM's object and archive libraries make
-- it; the hook `notifySymbolTableCoalesce`, which targets override; the hash functions; LLVM's reads
-- and writes of 16 and 32 bits, in the interface `EndianIo`. In Script, what stands in memory behind
-- a name (`wildcardMatch` reads on there), the order of `equal_range`, and the order of texts.
--
-- Not modelled: messages; reading ahead in archives; the readers and writers of the formats, the
-- drivers, the layout of the output, and the targets other than OpenRISC 1000.
pub mod Base
pub mod Core
pub mod Elf
pub mod Script
