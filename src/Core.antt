-- ===== src/Core.antt =====
-- The linker's core (lib/Core): atoms, the symbol table that coalesces them, and the resolver.
pub mod Atom
pub mod Outcome
pub mod Context
pub mod SymbolTable
pub mod File
pub mod Resolver
mod Tests
