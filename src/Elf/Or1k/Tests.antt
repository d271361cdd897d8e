-- ===== src/Elf/Or1k/Tests.antt =====
-- Runs of the code of lib/ReaderWriter/ELF/OR1K on concrete bytes, with an instance of the byte
-- operations.
use lld_or1k.Base.{
  ℕ, ◌+◌, ◌*◌, ◌/◌, ◌%◌, ◌^◌, ◌≤◌, ◌<◌, ◌≡◌, refl, ap, ◌∙◌, List, [], ◌∷◌, ◌⊎◌, inl, inr, true,
  Option, none, some, arith, nat_eq, if◌then◌else◌,
}
use lld_or1k.Core.Atom.{elf}
use lld_or1k.Core.Outcome.{ok}
use lld_or1k.Elf.Or1k.Endian.{Endianness, big, little, Buffer, EndianIo}
use lld_or1k.Elf.Or1k.Relocation.{
  Kind, r_16, r_hi_16_in_insn, r_lo_16_in_insn, r_insn_rel_26, Relocation, AtomLayout, case_of,
  field, write, reloc, apply_relocation,
}
use lld_or1k.Elf.Or1k.Relocation.Fields.{insn_at, apply_relocation-jump, apply_relocation-hi_lo}
use lld_or1k.Elf.Or1k.Relocation.Frame.{Framed, apply_relocation-frame, apply_relocation-little16}

-- The value of four bytes from `p`, and the bytes of a value.
abbrev bytes_read32 : Endianness → Buffer → ℕ → ℕ
bytes_read32 big b p =
    b p % 256 * 2 ^ 24 + b (p + 1) % 256 * 2 ^ 16 + b (p + 2) % 256 * 2 ^ 8 + b (p + 3) % 256
bytes_read32 little b p =
    b (p + 3) % 256 * 2 ^ 24 + b (p + 2) % 256 * 2 ^ 16 + b (p + 1) % 256 * 2 ^ 8 + b p % 256

abbrev set_byte : Buffer → ℕ → ℕ → Buffer
set_byte b p v = λ q. if nat_eq q p then v else b q

abbrev bytes_write32 : Endianness → Buffer → ℕ → ℕ → Buffer
bytes_write32 big b p v =
    set_byte
      (set_byte (set_byte (set_byte b p (v / 2 ^ 24 % 256)) (p + 1) (v / 2 ^ 16 % 256)) (p + 2)
        (v / 2 ^ 8 % 256))
      (p + 3) (v % 256)
bytes_write32 little b p v =
    set_byte
      (set_byte (set_byte (set_byte b p (v % 256)) (p + 1) (v / 2 ^ 8 % 256)) (p + 2)
        (v / 2 ^ 16 % 256))
      (p + 3) (v / 2 ^ 24 % 256)

abbrev bytes_write16 : Buffer → ℕ → ℕ → Buffer
bytes_write16 b p v = set_byte (set_byte b p (v / 256)) (p + 1) (v % 256)

bytes_below : (e : Endianness) (b : Buffer) (p : ℕ) → bytes_read32 e b p < 2 ^ 32
bytes_below big b p = omega arith
bytes_below little b p = omega arith

bytes_round_trip :
    (e : Endianness) (b : Buffer) (p v : ℕ)
    → v < 2 ^ 32
    → bytes_read32 e (bytes_write32 e b p v) p ≡ v
bytes_round_trip big b p v h = ground arith
bytes_round_trip little b p v h = ground arith

bytes_agree :
    (e : Endianness) (b c : Buffer) (p : ℕ)
    → ((i : ℕ) → i < 4 → b (p + i) ≡ c (p + i))
    → bytes_read32 e b p ≡ bytes_read32 e c p
bytes_agree big b c p h =
    let at0 : b p ≡ c p = ap b (omega arith) ∙ h 0 (omega arith) ∙ ap c (omega arith) in
    rw (at0, h 1 (omega arith), h 2 (omega arith), h 3 (omega arith)) refl
bytes_agree little b c p h =
    let at0 : b p ≡ c p = ap b (omega arith) ∙ h 0 (omega arith) ∙ ap c (omega arith) in
    rw (at0, h 1 (omega arith), h 2 (omega arith), h 3 (omega arith)) refl

bytes_outside :
    (e : Endianness) (b : Buffer) (p v q : ℕ)
    → (q < p) ⊎ (p + 4 ≤ q)
    → bytes_write32 e b p v q ≡ b q
bytes_outside big b p v q h = ground arith
bytes_outside little b p v q h = ground arith

bytes_little :
    (b : Buffer) (p v i : ℕ) → i < 4 → bytes_write32 little b p v (p + i) ≡ v / 256 ^ i % 256
bytes_little b p v i h =
    let four : (i ≡ 0) ⊎ (i ≡ 1) ⊎ (i ≡ 2) ⊎ (i ≡ 3) = omega arith in
    elim four [
      | inl zeroth ↦ rw zeroth (ground arith)
      | inr (inl first) ↦ rw first (ground arith)
      | inr (inr (inl second)) ↦ rw second (ground arith)
      | inr (inr (inr third)) ↦ rw third (ground arith)
    ]

bytes_first : (b : Buffer) (p v : ℕ) → v < 2 ^ 16 → bytes_write16 b p v p ≡ v / 256
bytes_first b p v h = ground arith

bytes_second : (b : Buffer) (p v : ℕ) → v < 2 ^ 16 → bytes_write16 b p v (p + 1) ≡ v % 256
bytes_second b p v h = ground arith

bytes_beside : (b : Buffer) (p v q : ℕ) → (q < p) ⊎ (p + 2 ≤ q) → bytes_write16 b p v q ≡ b q
bytes_beside b p v q h = ground arith

abbrev bytes_io : EndianIo
bytes_io = record {
  read32 = bytes_read32;
  write32 = bytes_write32;
  write16 = bytes_write16;
  read32-lt = bytes_below;
  read32-write32 = bytes_round_trip;
  read32-agree = bytes_agree;
  write32-outside = bytes_outside;
  write32-little = bytes_little;
  write16-first = bytes_first;
  write16-second = bytes_second;
  write16-outside = bytes_beside;
}

abbrev reference : Kind → ℕ → ℕ → ℕ → Relocation
reference kind offset target addend = record {
  kind_namespace = elf;
  is_or1k = true;
  kind = kind;
  offset_in_atom = offset;
  offset_in_section = 0;
  target_name = "f";
  target_address = target;
  addend = addend;
}

abbrev text : AtomLayout
text = record { file_offset = 16; virtual_addr = 0x2000 }

-- A jump `l.j` at 0x2004, and `l.movhi`, `l.ori` at 0x2008 and 0x200c.
abbrev code : Buffer
code =
    bytes_write32 big
      (bytes_write32 big (bytes_write32 big (λ q. 0xee) 20 0x04000000) 24 0x18600000) 28 0xa8630000

abbrev relocated : Endianness → Relocation → Option (List ℕ)
relocated e ref = elim (apply_relocation bytes_io e 0 text ref code) [
  | ok (some after) ↦ some (after 20 ∷ after 21 ∷ after 22 ∷ after 23 ∷ after 24 ∷ [])
  | _ ↦ none
]

-- A jump backwards to 0x1000: the displacement is -0x1004 / 4.
relocated_jump :
    relocated big (reference r_insn_rel_26 4 0x1000 0)
    ≡ some (0x07 ∷ 0xff ∷ 0xfb ∷ 0xff ∷ 0x18 ∷ [])
unfolding apply_relocation case_of reloc write field
relocated_jump = refl

relocated_little16 :
    relocated little (reference r_16 4 0x1234 0) ≡ some (0x34 ∷ 0x12 ∷ 0 ∷ 0 ∷ 0x18 ∷ [])
unfolding apply_relocation case_of reloc write field
relocated_little16 = refl

apply_relocation-jump_example :
    (after : Buffer) × (apply_relocation bytes_io big 0 text
        (reference r_insn_rel_26 4 0x1000 0)
        code
      ≡ ok (some after))
    × (insn_at bytes_io big after 20 / 2 ^ 26 ≡ 1)
    × ((0x2004 + 4 * (insn_at bytes_io big after 20 % 2 ^ 26)) % 2 ^ 28 ≡ 0x1000)
apply_relocation-jump_example =
    apply_relocation-jump bytes_io big 0 text code (reference r_insn_rel_26 4 0x1000 0) refl refl
      refl refl

apply_relocation-hi_lo_example :
    (middle after : Buffer) × (apply_relocation bytes_io big 0 text
        (reference r_hi_16_in_insn 8 0x12345670 8)
        code
      ≡ ok (some middle))
    × (apply_relocation bytes_io big 0 text (reference r_lo_16_in_insn 12 0x12345670 8) middle
        ≡ ok (some after))
    × (insn_at bytes_io big after 24 / 2 ^ 16 ≡ 0x1860)
    × (insn_at bytes_io big after 28 / 2 ^ 16 ≡ 0xa863)
    × (insn_at bytes_io big after 24 % 2 ^ 16 * 2 ^ 16 + insn_at bytes_io big after 28 % 2 ^ 16
        ≡ 0x12345678)
apply_relocation-hi_lo_example =
    apply_relocation-hi_lo bytes_io big 0 text code (reference r_hi_16_in_insn 8 0x12345670 8)
      (reference r_lo_16_in_insn 12 0x12345670 8) refl refl refl refl refl refl refl refl
      (inl (omega arith))

apply_relocation-frame_example :
    Framed bytes_io big 0 text (reference r_16 4 0x1234 0) code (case_of r_16)
apply_relocation-frame_example =
    apply_relocation-frame bytes_io big 0 text (reference r_16 4 0x1234 0) code refl refl refl

apply_relocation-little16_example :
    (after : Buffer) × (apply_relocation bytes_io little 0 text (reference r_16 4 0x1234 0) code
      ≡ ok (some after))
    × (after 20 ≡ 0x34)
    × (after 21 ≡ 0x12)
    × (after 22 ≡ 0)
    × (after 23 ≡ 0)
apply_relocation-little16_example =
    apply_relocation-little16 bytes_io 0 text (reference r_16 4 0x1234 0) code refl refl refl
