-- ===== src/Elf/Or1k/Relocation.antt =====
-- lib/ReaderWriter/ELF/OR1K/OR1KRelocationUtils.h and OR1KRelocationHandler.cpp: `write`, `reloc` and
-- `applyRelocation`. A `uint64_t` is a number below 2 ^ 64, and the addend, an `int64_t`, is its bit
-- pattern; a buffer is addressed by offset.
pub mod Fields
pub mod Frame
use Prim.Native.Nat.{bit_and, bit_or}
use lld_or1k.Base.{
  ℕ, ◌+◌, ◌-◌, ◌/◌, ◌%◌, ◌^◌, Bool, true, false, not, ◌&&◌, ◌||◌, Option, none, some, String,
  nat_eq, if◌then◌else◌, ◌==◌, name_eq,
}
use lld_or1k.Core.Atom.{KindNamespace, elf}
use lld_or1k.Core.Outcome.{Outcome, ok, assertion_failure, ◌>>=◌}
use lld_or1k.Elf.Or1k.Endian.{Endianness, big, little, Buffer, EndianIo}

-- The relocation kinds of the `switch`, and any other value.
pub data Kind : Type 0 where
  r_none r_32 r_16 r_8 r_lo_16_in_insn r_hi_16_in_insn r_insn_rel_26 r_32_pcrel r_16_pcrel : Kind
  r_8_pcrel r_gotpc_hi16 r_gotpc_lo16 r_got16 r_plt26 r_gotoff_hi16 r_gotoff_lo16 r_copy : Kind
  r_glob_dat r_jmp_slot r_relative r_unhandled : Kind

-- The type parameter `OutType`.
pub data OutType : Type 0 where
  uint8 uint16 uint32 : OutType

-- The template arguments of `reloc` behind the byte order.
pub record Template : Type 0 where
  pub out : OutType
  pub right_shift : ℕ
  pub relative : Bool
  pub src_mask : ℕ
  pub dest_mask : ℕ

-- Arithmetic on `uint64_t`.
abbrev pub add64 : ℕ → ℕ → ℕ
add64 a b = (a + b) % 2 ^ 64

abbrev pub sub64 : ℕ → ℕ → ℕ
sub64 a b = (a + (2 ^ 64 - b % 2 ^ 64)) % 2 ^ 64

-- `low` of `reloc`, before the conversion to `uint32_t`: the masked, shifted value.
unfoldable pub field : Template → ℕ → ℕ → ℕ → ℕ
field t s a p =
    bit_and (sub64 (add64 s a) (if t.relative then p else 0) / 2 ^ t.right_shift) t.dest_mask
    % 2 ^ 32

pub record Relocation : Type 0 where
  pub kind_namespace : KindNamespace
  pub is_or1k : Bool
  pub kind : Kind
  pub offset_in_atom : ℕ
  pub offset_in_section : ℕ
  pub target_name : String
  pub target_address : ℕ
  pub addend : ℕ

pub record AtomLayout : Type 0 where
  pub file_offset : ℕ
  pub virtual_addr : ℕ

-- The arguments of `reloc` in each case of the `switch`, and which place `P` it is given: the
-- place itself, less the offset in the section, or the address of the global offset table.
pub data Place : Type 0 where
  no_place at_relocation at_section at_got : Place

pub data Case : Type 0 where
  nothing : Case
  apply : Template → Place → Case
  unhandled : Case

abbrev pub insn16 : ℕ → Bool → Template
insn16 shift relative = record {
  out = uint32;
  right_shift = shift;
  relative = relative;
  src_mask = 0xffff0000;
  dest_mask = 0xffff;
}

abbrev pub whole : OutType → Bool → ℕ → Template
whole out relative mask = record {
  out = out;
  right_shift = 0;
  relative = relative;
  src_mask = 0;
  dest_mask = mask;
}

abbrev pub insn26 : Template
insn26 = record {
  out = uint32;
  right_shift = 2;
  relative = true;
  src_mask = 0xfc000000;
  dest_mask = 0x3ffffff;
}

unfoldable pub case_of : Kind → Case
case_of r_none = nothing
case_of r_relative = nothing
case_of r_copy = nothing
case_of r_glob_dat = nothing
case_of r_jmp_slot = nothing
case_of r_32 = apply (whole uint32 false 0xffffffff) no_place
case_of r_16 = apply (whole uint16 false 0xffff) no_place
case_of r_8 = apply (whole uint8 false 0xff) no_place
case_of r_lo_16_in_insn = apply (insn16 0 false) no_place
case_of r_hi_16_in_insn = apply (insn16 16 false) no_place
case_of r_insn_rel_26 = apply insn26 at_relocation
case_of r_plt26 = apply insn26 at_relocation
case_of r_32_pcrel = apply (whole uint32 true 0xffffffff) at_section
case_of r_16_pcrel = apply (whole uint16 true 0xffff) at_section
case_of r_8_pcrel = apply (whole uint8 true 0xff) at_section
case_of r_gotpc_hi16 = apply (insn16 16 true) at_relocation
case_of r_gotpc_lo16 = apply (insn16 0 true) at_relocation
case_of r_gotoff_hi16 = apply (insn16 16 true) at_got
case_of r_gotoff_lo16 = apply (insn16 0 true) at_got
case_of r_got16 = apply (insn16 0 true) at_got
case_of r_unhandled = unhandled

-- The value of `P` in a case, where `relocation` is the address of the place.
abbrev pub place : Place → ℕ → ℕ → ℕ → ℕ
place no_place relocation section got = 0
place at_relocation relocation section got = relocation
place at_section relocation section got = sub64 relocation section
place at_got relocation section got = got

-- `ref.kindValue() == R_OR1K_GOTPC_HI16`, which the source tests twice.
abbrev pub is_gotpc_hi16 : Kind → Bool
is_gotpc_hi16 r_gotpc_hi16 = true
is_gotpc_hi16 _ = false

abbrev pub is_elf : KindNamespace → Bool
is_elf elf = true
is_elf _ = false

module _ (io : EndianIo) (e : Endianness) where
  -- The specialisations of `write`; the value is converted to the type first. That for
  -- `uint16_t` and little endian calls write32le.
  unfoldable pub write : OutType → Buffer → ℕ → ℕ → Buffer
  write uint32 b p v = io.write32 e b p (v % 2 ^ 32)
  write uint16 b p v = elim e [
    | big ↦ io.write16 b p (v % 2 ^ 16)
    | little ↦ io.write32 little b p (v % 2 ^ 16)
  ]
  write uint8 b p v = λ q. if nat_eq q p then v % 2 ^ 8 else b q

  unfoldable pub reloc : Template → Buffer → ℕ → ℕ → ℕ → ℕ → Outcome Buffer
  unfolding field write
  reloc t b location s a p =
      if t.relative || nat_eq p 0
      then (let low = field t s a p in
          if nat_eq t.src_mask 0
          then ok (write t.out b location low)
          else ok
              (write t.out b location (bit_or (bit_and (io.read32 e b location) t.src_mask) low)))
      else assertion_failure

  -- applyRelocation; `none` is the error for a relocation that is not handled, and `got` is
  -- `_layout.getGOTSymAddr()`.
  unfoldable pub apply_relocation : ℕ → AtomLayout → Relocation → Buffer → Outcome (Option Buffer)
  unfolding case_of
  apply_relocation got atom ref b =
      if is_elf ref.kind_namespace
      then if ref.is_or1k
        then if is_gotpc_hi16 ref.kind && not (ref.target_name == "_GLOBAL_OFFSET_TABLE_")
          then assertion_failure
          else (let location = atom.file_offset + ref.offset_in_atom in
              let relocation = add64 atom.virtual_addr ref.offset_in_atom in
              elim (case_of ref.kind) [
                | nothing ↦ ok (some b)
                | apply t where_p ↦
                    reloc t b location ref.target_address ref.addend
                      (place where_p relocation ref.offset_in_section got)
                    >>= λ b'. ok (some b')
                | unhandled ↦ ok none
              ])
        else assertion_failure
      else ok (some b)
