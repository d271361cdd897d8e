-- ===== src/Elf/Or1k/Endian.antt =====
-- Bytes of the output file, and what lib/ReaderWriter/ELF/OR1K uses of `llvm::support::endian`:
-- that library is a parameter, with what it documents about the bytes that it reads and writes.
use lld_or1k.Base.{ℕ, ◌+◌, ◌/◌, ◌%◌, ◌^◌, ◌≤◌, ◌<◌, ◌≡◌, ◌⊎◌}

pub data Endianness : Type 0 where
  big little : Endianness

-- The byte at each offset of the output buffer.
abbrev pub Buffer : Type 0
Buffer = ℕ → ℕ

-- `write32 little` is write32le, and so on; `write16` is write16be.
pub record EndianIo : Type 0 where
  pub read32 : Endianness → Buffer → ℕ → ℕ
  pub write32 : Endianness → Buffer → ℕ → ℕ → Buffer
  pub write16 : Buffer → ℕ → ℕ → Buffer
  pub read32-lt : (e : Endianness) (b : Buffer) (p : ℕ) → read32 e b p < 2 ^ 32
  pub read32-write32 :
      (e : Endianness) (b : Buffer) (p v : ℕ) → v < 2 ^ 32 → read32 e (write32 e b p v) p ≡ v
  pub read32-agree :
      (e : Endianness) (b c : Buffer) (p : ℕ)
      → ((i : ℕ) → i < 4 → b (p + i) ≡ c (p + i))
      → read32 e b p ≡ read32 e c p
  pub write32-outside :
      (e : Endianness) (b : Buffer) (p v q : ℕ) → (q < p) ⊎ (p + 4 ≤ q) → write32 e b p v q ≡ b q
  pub write32-little :
      (b : Buffer) (p v i : ℕ) → i < 4 → write32 little b p v (p + i) ≡ v / 256 ^ i % 256
  pub write16-first : (b : Buffer) (p v : ℕ) → v < 2 ^ 16 → write16 b p v p ≡ v / 256
  pub write16-second : (b : Buffer) (p v : ℕ) → v < 2 ^ 16 → write16 b p v (p + 1) ≡ v % 256
  pub write16-outside : (b : Buffer) (p v q : ℕ) → (q < p) ⊎ (p + 2 ≤ q) → write16 b p v q ≡ b q
