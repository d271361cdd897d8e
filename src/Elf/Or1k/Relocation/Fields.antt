-- ===== src/Elf/Or1k/Relocation/Fields.antt =====
-- What an instruction's field holds after `reloc` (OR1KRelocationUtils.h), and what the relocated
-- code computes: OR1KRelocationHandler.cpp.
use Prim.Native.Nat.{bit_and, bit_or}
use lld_or1k.Base.{
  ℕ, ◌+◌, ◌*◌, ◌/◌, ◌%◌, ◌^◌, ◌≤◌, ◌<◌, ◌≡◌, refl, ◌∙◌, ◌⊎◌, inl, inr, ⊎_elim, Bool, true, false,
  some, arith, if◌then◌else◌,
}
use lld_or1k.Base.Bits.{
  bit_and-low16, bit_and-low26, bit_and-high16, bit_and-high6, bit_or-high16, bit_or-high6,
}
use lld_or1k.Core.Atom.{elf}
use lld_or1k.Core.Outcome.{ok}
use lld_or1k.Elf.Or1k.Endian.{Endianness, Buffer, EndianIo}
use lld_or1k.Elf.Or1k.Relocation.{
  insn16, insn26, reloc, add64, sub64, Relocation, AtomLayout, apply_relocation, r_hi_16_in_insn,
  r_lo_16_in_insn, r_insn_rel_26,
}

module _ (io : EndianIo) (e : Endianness) (b : Buffer) (location : ℕ) where
  -- The value that `reloc` computes.
  abbrev value : Bool → ℕ → ℕ → ℕ → ℕ → ℕ
  value relative shift s a p = sub64 (add64 s a) (if relative then p else 0) / 2 ^ shift

  -- A relocation of a 16-bit field keeps the upper half of the instruction.
  reloc-insn16 :
      (relative : Bool) (shift s a p : ℕ) (after : Buffer)
      → reloc io e (insn16 shift relative) b location s a p ≡ ok after
      → io.read32 e after location
        ≡ io.read32 e b location / 2 ^ 16 * 2 ^ 16 + value relative shift s a p % 2 ^ 16
  unfolding reloc
  reloc-insn16 relative shift s a p after h =
      let old = io.read32 e b location in
      let x = value relative shift s a p in
      let v = bit_or (bit_and old 0xffff0000) (bit_and x 0xffff % 2 ^ 32) in
      let is : after ≡ io.write32 e b location (v % 2 ^ 32) = ground arith in
      let masked : bit_and x 0xffff % 2 ^ 32 ≡ x % 2 ^ 16 = omega (arith, bit_and-low16 x) in
      let sum : v ≡ old / 2 ^ 16 * 2 ^ 16 + x % 2 ^ 16 =
        rw (masked, bit_and-high16 old (io.read32-lt e b location))
          (bit_or-high16 (old / 2 ^ 16) (x % 2 ^ 16) (omega arith)) in
      rw is (
        io.read32-write32 e b location (v % 2 ^ 32) (omega arith)
        ∙ omega (arith, sum, io.read32-lt e b location))

  -- The call ends, and changes the four bytes of the instruction alone.
  insn16_runs :
      (relative : Bool) (shift s a p : ℕ)
      → (relative ≡ true) ⊎ (p ≡ 0)
      → (after : Buffer) × (reloc io e (insn16 shift relative) b location s a p ≡ ok after)
        × ((q : ℕ) → (q < location) ⊎ (location + 4 ≤ q) → after q ≡ b q)
  unfolding reloc
  insn16_runs relative shift s a p valid =
      let low = bit_and (value relative shift s a p) 0xffff % 2 ^ 32 in
      let v = bit_or (bit_and (io.read32 e b location) 0xffff0000) low in
      (
        io.write32 e b location (v % 2 ^ 32),
        ground arith,
        io.write32-outside e b location (v % 2 ^ 32),
      )

  insn26_runs :
      (s a p : ℕ)
      → (after : Buffer) × (reloc io e insn26 b location s a p ≡ ok after)
        × ((q : ℕ) → (q < location) ⊎ (location + 4 ≤ q) → after q ≡ b q)
  unfolding reloc
  insn26_runs s a p = (io.write32 e b location _, refl, io.write32-outside e b location _)

  reloc-insn26 :
      (s a p : ℕ) (after : Buffer)
      → reloc io e insn26 b location s a p ≡ ok after
      → io.read32 e after location
        ≡ io.read32 e b location / 2 ^ 26 * 2 ^ 26 + sub64 (add64 s a) p / 4 % 2 ^ 26
  unfolding reloc
  reloc-insn26 s a p after h =
      let old = io.read32 e b location in
      let x = sub64 (add64 s a) p / 2 ^ 2 in
      let v = bit_or (bit_and old 0xfc000000) (bit_and x 0x3ffffff % 2 ^ 32) in
      let is : after ≡ io.write32 e b location (v % 2 ^ 32) = ground arith in
      let masked : bit_and x 0x3ffffff % 2 ^ 32 ≡ x % 2 ^ 26 = omega (arith, bit_and-low26 x) in
      let sum : v ≡ old / 2 ^ 26 * 2 ^ 26 + x % 2 ^ 26 =
        rw (masked, bit_and-high6 old (io.read32-lt e b location))
          (bit_or-high6 (old / 2 ^ 26) (x % 2 ^ 26) (omega arith)) in
      rw is (
        io.read32-write32 e b location (v % 2 ^ 32) (omega arith)
        ∙ omega (arith, sum, io.read32-lt e b location))

-- The word displacement is added to the place again when the jump is taken.
lands_at :
    (from to old new : ℕ)
    → new ≡ old / 2 ^ 26 * 2 ^ 26 + sub64 to from / 4 % 2 ^ 26
    → to % 4 ≡ from % 4
    → (from + 4 * (new % 2 ^ 26)) % 2 ^ 28 ≡ to % 2 ^ 28
lands_at from to old new h aligned =
    let low : new % 2 ^ 26 ≡ sub64 to from / 4 % 2 ^ 26 = omega (arith, h) in rw low (omega arith)

-- The instruction at a place of the buffer.
abbrev pub insn_at : EndianIo → Endianness → Buffer → ℕ → ℕ
insn_at io e b location = io.read32 e b location

module _ (io : EndianIo) (e : Endianness) (got : ℕ) (atom : AtomLayout) (b : Buffer) where
  abbrev pub location_of : Relocation → ℕ
  location_of ref = atom.file_offset + ref.offset_in_atom

  -- If the displacement of a jump is a multiple of four, its relocation does not fail and keeps the
  -- opcode, and the jump leads from its address `P` to `S + A`, as far as 28 bits reach.
  pub apply_relocation-jump :
      (ref : Relocation)
      → ref.kind_namespace ≡ elf
      → ref.is_or1k ≡ true
      → ref.kind ≡ r_insn_rel_26
      → add64 ref.target_address ref.addend % 4 ≡ add64 atom.virtual_addr ref.offset_in_atom % 4
      → let from = add64 atom.virtual_addr ref.offset_in_atom in
        let to = add64 ref.target_address ref.addend in
        (after : Buffer) × (apply_relocation io e got atom ref b ≡ ok (some after))
        × (insn_at io e after (location_of ref) / 2 ^ 26
            ≡ insn_at io e b (location_of ref) / 2 ^ 26)
        × ((from + 4 * (insn_at io e after (location_of ref) % 2 ^ 26)) % 2 ^ 28 ≡ to % 2 ^ 28)
  unfolding apply_relocation
  apply_relocation-jump ref ns arch kind aligned =
      let from = add64 atom.virtual_addr ref.offset_in_atom in
      let (after, run, _) =
        insn26_runs io e b (location_of ref) ref.target_address ref.addend from in
      let holds =
        reloc-insn26 io e b (location_of ref) ref.target_address ref.addend from after run in
      (
        after,
        simp (ns, arch, kind, run),
        omega (arith, holds),
        lands_at from (add64 ref.target_address ref.addend) (io.read32 e b (location_of ref))
            (io.read32 e after (location_of ref)) holds aligned,
      )

  -- The relocations of the two instructions that load one address, high half and low half, do not
  -- fail if the instructions do not overlap; both keep their opcodes, and the halves that the
  -- instructions then hold make up `S + A` modulo 2 ^ 32.
  pub apply_relocation-hi_lo :
      (hi lo : Relocation)
      → hi.kind_namespace ≡ elf
      → lo.kind_namespace ≡ elf
      → hi.is_or1k ≡ true
      → lo.is_or1k ≡ true
      → hi.kind ≡ r_hi_16_in_insn
      → lo.kind ≡ r_lo_16_in_insn
      → hi.target_address ≡ lo.target_address
      → hi.addend ≡ lo.addend
      → (location_of hi + 4 ≤ location_of lo) ⊎ (location_of lo + 4 ≤ location_of hi)
      → (middle after : Buffer) × (apply_relocation io e got atom hi b ≡ ok (some middle))
        × (apply_relocation io e got atom lo middle ≡ ok (some after))
        × (insn_at io e after (location_of hi) / 2 ^ 16 ≡ insn_at io e b (location_of hi) / 2 ^ 16)
        × (insn_at io e after (location_of lo) / 2 ^ 16 ≡ insn_at io e b (location_of lo) / 2 ^ 16)
        × (insn_at io e after (location_of hi) % 2 ^ 16 * 2 ^ 16
              + insn_at io e after (location_of lo) % 2 ^ 16
            ≡ add64 lo.target_address lo.addend % 2 ^ 32)
  unfolding apply_relocation
  apply_relocation-hi_lo hi lo nsh nsl ah al kh kl same_target same_addend apart =
      let s = lo.target_address in
      let a = lo.addend in
      let (middle, run_hi, outside_hi) =
        insn16_runs io e b (location_of hi) false 16 s a 0 (inr refl) in
      let (after, run_lo, outside_lo) =
        insn16_runs io e middle (location_of lo) false 0 s a 0 (inr refl) in
      let first = reloc-insn16 io e b (location_of hi) false 16 s a 0 middle run_hi in
      let second = reloc-insn16 io e middle (location_of lo) false 0 s a 0 after run_lo in
      let keeps_hi : io.read32 e after (location_of hi) ≡ io.read32 e middle (location_of hi) =
        io.read32-agree e after middle (location_of hi) (λ i h.
          outside_lo (location_of hi + i)
            (⊎_elim (λ l. inl (omega arith)) (λ r. inr (omega arith)) apart)) in
      let keeps_lo : io.read32 e middle (location_of lo) ≡ io.read32 e b (location_of lo) =
        io.read32-agree e middle b (location_of lo) (λ i h.
          outside_hi (location_of lo + i)
            (⊎_elim (λ l. inr (omega arith)) (λ r. inl (omega arith)) apart)) in
      let upper : io.read32 e after (location_of hi) % 2 ^ 16
          ≡ sub64 (add64 s a) 0 / 2 ^ 16 % 2 ^ 16 =
        omega (arith, first, keeps_hi) in
      let lower : io.read32 e after (location_of lo) % 2 ^ 16
          ≡ sub64 (add64 s a) 0 / 2 ^ 0 % 2 ^ 16 =
        omega (arith, second) in
      (
        middle,
        after,
        simp (nsh, ah, kh, same_target, same_addend, run_hi),
        simp (nsl, al, kl, run_lo),
        omega (arith, first, keeps_hi),
        omega (arith, second, keeps_lo),
        omega (arith, upper, lower),
      )
