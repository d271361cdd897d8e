-- ===== src/Elf/Or1k/Relocation/Frame.antt =====
-- Which bytes a relocation may change, for OR1KRelocationUtils.h and OR1KRelocationHandler.cpp.
use Prim.Native.Nat.{bit_and, bit_or}
use lld_or1k.Base.{
  ℕ, ◌+◌, ◌%◌, ◌^◌, ◌/◌, ◌≤◌, ◌<◌, ◌≡◌, refl, sym, ap, ◌∙◌, ◌⊎◌, inl, inr, ◌||◌, if◌then◌else◌,
  Bool, true, false, not, ◌&&◌, none, some, arith, nat_eq, ◌==◌, name_eq,
}
use lld_or1k.Base.Bits.{bit_and-low16}
use lld_or1k.Core.Atom.{elf}
use lld_or1k.Core.Outcome.{ok}
use lld_or1k.Elf.Or1k.Endian.{Endianness, big, little, Buffer, EndianIo}
use lld_or1k.Elf.Or1k.Relocation.{
  add64, Place, no_place, at_relocation, at_section, at_got, place, field, sub64, OutType, uint8,
  uint16, uint32, Kind, Case, nothing, apply, unhandled, Template, Relocation, AtomLayout, case_of,
  r_16, write, reloc, is_gotpc_hi16, apply_relocation,
}

-- How many bytes `write` sets.
abbrev pub written : Endianness → OutType → ℕ
written e uint32 = 4
written big uint16 = 2
written little uint16 = 4
written e uint8 = 1

abbrev pub span : Endianness → Case → ℕ
span e nothing = 0
span e (apply t p) = written e t.out
span e unhandled = 0

-- The assertion of `reloc`: an absolute relocation is given no place.
abbrev is_sound : Case → Bool
is_sound nothing = true
is_sound (apply t no_place) = true
is_sound (apply t at_relocation) = t.relative
is_sound (apply t at_section) = t.relative
is_sound (apply t at_got) = t.relative
is_sound unhandled = true

is_sound-case_of : (kind : Kind) → is_sound (case_of kind) ≡ true
unfolding case_of
is_sound-case_of kind = ground arith

module _ (io : EndianIo) where
  write-outside :
      (e : Endianness) (out : OutType) (b : Buffer) (p v q : ℕ)
      → (q < p) ⊎ (p + written e out ≤ q)
      → write io e out b p v q ≡ b q
  unfolding write
  write-outside e uint32 b p v q h = io.write32-outside e b p _ q h
  write-outside big uint16 b p v q h = io.write16-outside b p _ q h
  write-outside little uint16 b p v q h = io.write32-outside little b p _ q h
  write-outside e uint8 b p v q h = ground arith

  reloc-outside :
      (e : Endianness) (t : Template) (b : Buffer) (location s a p : ℕ) (after : Buffer)
      → reloc io e t b location s a p ≡ ok after
      → (q : ℕ) → (q < location) ⊎ (location + written e t.out ≤ q)
      → after q ≡ b q
  unfolding reloc
  reloc-outside e t b location s a p after h q out =
      let kept : (v : ℕ) → write io e t.out b location v q ≡ b q =
        λ v. write-outside e t.out b location v q out in
      let low = field t s a p in
      let first = kept low in
      let second = kept (bit_or (bit_and (io.read32 e b location) t.src_mask) low) in
      ground (arith, first, second)

  reloc_valid :
      (e : Endianness) (t : Template) (b : Buffer) (location s a p : ℕ)
      → t.relative || nat_eq p 0 ≡ true
      → (after : Buffer) × (reloc io e t b location s a p ≡ ok after)
  unfolding reloc
  reloc_valid e t b location s a p h =
      let low = field t s a p in
      let merged = bit_or (bit_and (io.read32 e b location) t.src_mask) low in
      (write io e t.out b location (if nat_eq t.src_mask 0 then low else merged), ground arith)

  reloc-ends :
      (e : Endianness) (t : Template) (from : Place)
      → is_sound (apply t from) ≡ true
      → (b : Buffer) (location s a relocation section got : ℕ)
      → (after : Buffer) × (reloc io e t b location s a (place from relocation section got)
          ≡ ok after)
  reloc-ends e t no_place h b location s a relocation section got =
      reloc_valid e t b location s a 0 (ground arith)
  reloc-ends e t at_relocation h b location s a relocation section got =
      reloc_valid e t b location s a relocation (ground arith)
  reloc-ends e t at_section h b location s a relocation section got =
      reloc_valid e t b location s a (sub64 relocation section) (ground arith)
  reloc-ends e t at_got h b location s a relocation section got =
      reloc_valid e t b location s a got (ground arith)

module _ (io : EndianIo) (e : Endianness) (got : ℕ) (atom : AtomLayout) (ref : Relocation)
    (b : Buffer) where
  abbrev pub Framed : Case → Type 0
  Framed c =
      ((c ≡ unhandled) × (apply_relocation io e got atom ref b ≡ ok none))
      ⊎ (¬ (c ≡ unhandled)
          × (after : Buffer) × (apply_relocation io e got atom ref b ≡ ok (some after))
          × ((q : ℕ)
              → (q < atom.file_offset + ref.offset_in_atom)
                ⊎ (atom.file_offset + ref.offset_in_atom + span e c ≤ q)
              → after q ≡ b q))

  Framed-case :
      (c : Case)
      → case_of ref.kind ≡ c
      → ref.kind_namespace ≡ elf
      → ref.is_or1k ≡ true
      → is_gotpc_hi16 ref.kind && not (ref.target_name == "_GLOBAL_OFFSET_TABLE_") ≡ false
      → Framed c
  unfolding apply_relocation
  Framed-case nothing is ns arch named =
      inr (ground arith, b, simp (ns, arch, named, is), λ q h. refl)
  Framed-case (apply t from) is ns arch named =
      let location = atom.file_offset + ref.offset_in_atom in
      let (after, run) =
        reloc-ends io e t from (ap is_sound (sym is) ∙ is_sound-case_of ref.kind) b location
          ref.target_address ref.addend (add64 atom.virtual_addr ref.offset_in_atom)
          ref.offset_in_section got in
      inr (
        ground arith,
        after,
        simp (ns, arch, named, is, run),
        reloc-outside io e t b location ref.target_address ref.addend
            (place from (add64 atom.virtual_addr ref.offset_in_atom) ref.offset_in_section got)
            after run,
      )
  Framed-case unhandled is ns arch named = inl (refl, simp (ns, arch, named, is))

  -- A relocation of the OR1K architecture, other than that of a `GOTPC_HI16` that does not name the
  -- global offset table, does not fail an assertion. It reports a kind that the `switch` does not
  -- name; else it changes at most the bytes at its place, as many as `span` says: a 16-bit kind
  -- changes two bytes, or four if the target is little endian.
  pub apply_relocation-frame :
      ref.kind_namespace ≡ elf
      → ref.is_or1k ≡ true
      → is_gotpc_hi16 ref.kind && not (ref.target_name == "_GLOBAL_OFFSET_TABLE_") ≡ false
      → Framed (case_of ref.kind)
  apply_relocation-frame = Framed-case (case_of ref.kind) refl

-- The little-endian specialisation for `uint16_t` writes four bytes: a 16-bit relocation stores
-- the value in two bytes and zeros the two bytes that follow them.
pub apply_relocation-little16 :
    (io : EndianIo) (got : ℕ) (atom : AtomLayout) (ref : Relocation) (b : Buffer)
    → ref.kind_namespace ≡ elf
    → ref.is_or1k ≡ true
    → ref.kind ≡ r_16
    → let location = atom.file_offset + ref.offset_in_atom in
      let v = add64 ref.target_address ref.addend % 2 ^ 16 in
      (after : Buffer) × (apply_relocation io little got atom ref b ≡ ok (some after))
      × (after location ≡ v % 256)
      × (after (location + 1) ≡ v / 256)
      × (after (location + 2) ≡ 0)
      × (after (location + 3) ≡ 0)
unfolding apply_relocation case_of reloc write field
apply_relocation-little16 io got atom ref b ns arch kind =
    let location = atom.file_offset + ref.offset_in_atom in
    let s = sub64 (add64 ref.target_address ref.addend) 0 / 2 ^ 0 in
    let low = bit_and s 0xffff % 2 ^ 32 in
    let masked : bit_and s 0xffff ≡ s % 2 ^ 16 = bit_and-low16 s in
    let byte = io.write32-little b location (low % 2 ^ 16) in
    let here : location ≡ location + 0 = omega arith in
    let start : io.write32 little b location (low % 2 ^ 16) location
        ≡ add64 ref.target_address ref.addend % 2 ^ 16 % 256 =
      ap (io.write32 little b location (low % 2 ^ 16)) here
      ∙ byte 0 (omega arith)
      ∙ omega (arith, masked) in
    (
      io.write32 little b location (low % 2 ^ 16),
      simp (ns, arch, kind),
      start,
      byte 1 (omega arith) ∙ omega (arith, masked),
      byte 2 (omega arith) ∙ omega (arith, masked),
      byte 3 (omega arith) ∙ omega (arith, masked),
    )
