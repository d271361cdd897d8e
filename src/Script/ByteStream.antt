-- ===== src/Script/ByteStream.antt =====
-- `parseHexToByteStream` and `dumpByteStream` of lib/ReaderWriter/LinkerScript.cpp. A byte is a number
-- below 256.
use lld_or1k.Base.{
  ℕ, ◌+◌, ◌-◌, ◌∙◌, ◌*◌, ◌/◌, ◌%◌, ◌<◌, ◌≡◌, refl, ap, Bool, true, false, Option, none, some, List,
  [], ◌∷◌, ltb, arith, if◌then◌else◌, All, length, nat_eq, not,
}
use lld_or1k.Base.Text.{Text, drop}
use lld_or1k.Script.Number.{hex_digit}

-- The loop of `parseHexToByteStream`: `byte`, `dumpByte`, and the bytes that are pushed.
unfoldable pub hex_bytes : ℕ → Bool → Text → Option (List ℕ)
unfolding hex_digit
hex_bytes byte dump_byte [] = if dump_byte then none else some []
hex_bytes byte dump_byte (c ∷ s) = elim (hex_digit c) [
  | none ↦ none
  | some d ↦
      let next = (byte * 16 + d) % 256 in
      elim dump_byte [
        | false ↦ hex_bytes next true s
        | true ↦ elim (hex_bytes 0 false s) [ none ↦ none | some bytes ↦ some (next ∷ bytes) ]
      ]
]

unfoldable pub parse_hex_to_byte_stream : Text → Option (List ℕ)
unfolding hex_bytes
parse_hex_to_byte_stream s = hex_bytes 0 (not (nat_eq (length s % 2) 0)) s

abbrev pub nibble_text : ℕ → ℕ
nibble_text n = if ltb 9 n then b'A' + n - 10 else b'0' + n

unfoldable pub dump_bytes : List ℕ → Text
dump_bytes [] = []
dump_bytes (c ∷ stream) = nibble_text (c / 16 % 16) ∷ nibble_text (c % 16) ∷ dump_bytes stream

unfoldable pub dump_byte_stream : List ℕ → Text
unfolding dump_bytes
dump_byte_stream stream = b'0' ∷ b'x' ∷ dump_bytes stream

hex_digit-nibble_text : (n : ℕ) → n < 16 → hex_digit (nibble_text n) ≡ some n
unfolding hex_digit
hex_digit-nibble_text n lt = ground arith

hex_bytes-pair :
    (a b d e : ℕ) (s : Text) (bytes : List ℕ)
    → hex_digit a ≡ some d
    → hex_digit b ≡ some e
    → hex_bytes 0 false s ≡ some bytes
    → hex_bytes 0 false (a ∷ b ∷ s) ≡ some ((d % 256 * 16 + e) % 256 ∷ bytes)
unfolding hex_bytes hex_digit
hex_bytes-pair a b d e s bytes first second rest = ground (arith, first, second, rest)

hex_bytes-nil : hex_bytes 0 false [] ≡ some []
unfolding hex_bytes
hex_bytes-nil = refl

length-dump_bytes : (stream : List ℕ) → length (dump_bytes stream) % 2 ≡ 0
unfolding dump_bytes
length-dump_bytes [] = refl
length-dump_bytes (c ∷ stream) = omega (arith, length-dump_bytes stream)

hex_bytes-dump_bytes :
    (stream : List ℕ)
    → All (λ b. b < 256) stream
    → hex_bytes 0 false (dump_bytes stream) ≡ some stream
unfolding dump_bytes
hex_bytes-dump_bytes [] h = hex_bytes-nil
hex_bytes-dump_bytes (c ∷ stream) h =
    let first = hex_digit-nibble_text (c / 16 % 16) (omega arith) in
    let second = hex_digit-nibble_text (c % 16) (omega arith) in
    let rest = hex_bytes-dump_bytes stream h.1 in
    let whole : (c / 16 % 16 % 256 * 16 + c % 16) % 256 ≡ c = omega (arith, h.0) in
    hex_bytes-pair _ _ _ _ (dump_bytes stream) stream first second rest
    ∙ ap (λ (b : ℕ). some (b ∷ stream)) whole

-- The bytes that are written as digits behind `0x` are read back from them.
pub parse_hex_to_byte_stream-dump_byte_stream :
    (stream : List ℕ)
    → All (λ b. b < 256) stream
    → parse_hex_to_byte_stream (drop 2 (dump_byte_stream stream)) ≡ some stream
unfolding parse_hex_to_byte_stream dump_byte_stream drop
parse_hex_to_byte_stream-dump_byte_stream stream h =
    ap (λ (b : Bool). hex_bytes 0 b (dump_bytes stream))
      (ap (λ (n : ℕ). not (nat_eq n 0)) (length-dump_bytes stream))
    ∙ hex_bytes-dump_bytes stream h
