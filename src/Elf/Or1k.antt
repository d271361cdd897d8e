-- ===== src/Elf/Or1k.antt =====
-- The OpenRISC 1000 target (lib/ReaderWriter/ELF/OR1K).
pub mod Endian
pub mod Relocation
pub mod Pass
mod Tests
mod PassTests
