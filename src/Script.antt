-- ===== src/Script.antt =====
-- lib/ReaderWriter/LinkerScript.cpp, the language of linker scripts.
pub mod Token
pub mod Number
pub mod Stream
pub mod Spelling
pub mod Lexer
pub mod Expression
pub mod Ast
pub mod ByteStream
pub mod Commands
pub mod Ends
pub mod Wildcard
pub mod Sema
mod Tests
