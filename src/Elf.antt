-- ===== src/Elf.antt =====
-- The ELF targets (lib/ReaderWriter/ELF).
pub mod Or1k
