-- ===== src/Script/Number.antt =====
-- The numbers of lib/ReaderWriter/LinkerScript.cpp: `parseDecimal`, `parseOctal`, `parseBinary`,
-- `parseHex` and `parseNum`. A `uint64_t` is a number below 2 ^ 64; `none` is the error.
use lld_or1k.Base.{
  ℕ, ◌+◌, ◌-◌, ◌*◌, ◌%◌, ◌^◌, ◌&&◌, ◌||◌, Option, none, some, [], ◌∷◌, nat_eq, leb, if◌then◌else◌,
}
use lld_or1k.Base.Text.{Text, codes, starts_with, drop}

-- The digit that a character stands for, below a base of at most ten.
unfoldable pub digit_below : ℕ → ℕ → Option ℕ
digit_below base c = if leb b'0' c && leb (c + 1) (b'0' + base) then some (c - b'0') else none

unfoldable pub hex_digit : ℕ → Option ℕ
hex_digit c =
    if leb b'0' c && leb c b'9'
    then some (c - b'0')
    else if leb b'a' c && leb c b'f'
    then some (c - b'a' + 10)
    else if leb b'A' c && leb c b'F'
    then some (c - b'A' + 10)
    else none

-- The loop that the four functions share: `res` is scaled, then the digit is added.
unfoldable pub parse_digits : (ℕ → Option ℕ) → ℕ → Text → ℕ → Option ℕ
parse_digits digit base [] res = some res
parse_digits digit base (c ∷ s) res = elim (digit c) [
  | none ↦ none
  | some d ↦ parse_digits digit base s ((res * base % 2 ^ 64 + d) % 2 ^ 64)
]

unfoldable pub parse_decimal : Text → Option ℕ
unfolding parse_digits digit_below
parse_decimal s = parse_digits (digit_below 10) 10 s 0

unfoldable pub parse_octal : Text → Option ℕ
unfolding parse_digits digit_below
parse_octal s = parse_digits (digit_below 8) 8 s 0

unfoldable pub parse_binary : Text → Option ℕ
unfolding parse_digits digit_below
parse_binary s = parse_digits (digit_below 2) 2 s 0

unfoldable pub parse_hex : Text → Option ℕ
unfolding parse_digits hex_digit
parse_hex s = parse_digits hex_digit 16 s 0

-- NumKind
pub data NumKind : Type 0 where
  decimal hex octal binary : NumKind

unfoldable pub num_kind : Text → NumKind
unfolding starts_with
num_kind s =
    if starts_with (codes "0x") s
    then hex
    else if starts_with (codes "0X") s
    then hex
    else if starts_with (codes "0") s
    then octal
    else decimal

-- The last character, and what stands in front of it: `endswith` and `drop_back`.
unfoldable pub last : Text → ℕ
last [] = 0
last (c ∷ []) = c
last (c ∷ d ∷ s) = last (d ∷ s)

unfoldable pub drop_back : Text → Text
drop_back [] = []
drop_back (c ∷ []) = []
drop_back (c ∷ d ∷ s) = c ∷ drop_back (d ∷ s)

-- The scale suffix: the multiplier and the text that is left.
unfoldable pub scale : Text → ℕ × Text
unfolding last drop_back
scale s =
    if nat_eq (last s) b'K'
    then (2 ^ 10, drop_back s)
    else if nat_eq (last s) b'M'
    then (2 ^ 20, drop_back s)
    else (1, s)

-- The type suffix, in either case.
unfoldable pub type_suffix : NumKind → Text → NumKind × Text
unfolding last drop_back
type_suffix kind s =
    if nat_eq (last s) b'o' || nat_eq (last s) b'O'
    then (octal, drop_back s)
    else if nat_eq (last s) b'h' || nat_eq (last s) b'H'
    then (hex, drop_back s)
    else if nat_eq (last s) b'd' || nat_eq (last s) b'D'
    then (decimal, drop_back s)
    else if nat_eq (last s) b'b' || nat_eq (last s) b'B'
    then (binary, drop_back s)
    else (kind, s)

unfoldable pub parse_kind : NumKind → Text → Option ℕ
unfolding parse_hex parse_octal parse_decimal parse_binary starts_with drop
parse_kind hex s =
    parse_hex (if starts_with (codes "0x") s || starts_with (codes "0X") s then drop 2 s else s)
parse_kind octal s = parse_octal s
parse_kind decimal s = parse_decimal s
parse_kind binary s = parse_binary s

unfoldable pub parse_num : Text → Option ℕ
unfolding num_kind scale type_suffix parse_kind
parse_num s =
    let (multiplier, unscaled) = scale s in
    let (kind, digits) = type_suffix (num_kind s) unscaled in
    elim (parse_kind kind digits) [ none ↦ none | some res ↦ some (res * multiplier % 2 ^ 64) ]
