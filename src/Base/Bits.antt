-- ===== src/Base/Bits.antt =====
-- `&` and `|` on native numbers where a mask selects the high or the low bits.
use Prim.Native.Nat.{
  ℕ, zero, suc, ◌+◌, ◌*◌, ◌/◌, ◌%◌, ◌^◌, ◌≤◌, ◌<◌, min, max, bit_and, bit_or, digits,
  bit_and-bitwise, bit_or-bitwise,
}
use mathlib.Core.Path.{◌≡◌, refl, sym, ap, ap₂, ◌∙◌}
use native.Mathlib.Omega.{arith}

-- An operation by digits that stops at `first = 0`, with any fuel from `first` on.
module _ (stop : ℕ → ℕ) (digit : ℕ → ℕ → ℕ) where
  digits_agree :
      (first second fuel more : ℕ)
      → first ≤ fuel
      → first ≤ more
      → digits stop digit fuel first second ≡ digits stop digit more first second
  digits_agree zero second zero zero le le' = refl
  digits_agree zero second zero (suc more) le le' = refl
  digits_agree zero second (suc fuel) zero le le' = refl
  digits_agree zero second (suc fuel) (suc more) le le' = refl
  digits_agree (suc first) second zero more le le' = absurd (omega arith)
  digits_agree (suc first) second (suc fuel) zero le le' = absurd (omega arith)
  digits_agree (suc first) second (suc fuel) (suc more) le le' =
      let rest = digits_agree (suc first / 2) (second / 2) fuel more (omega arith) (omega arith) in
      ap (λ (t : ℕ). t * 2 + digit (suc first % 2) (second % 2)) rest

-- The lowest digit of `a & b` and of `a | b`.
pub bit_and_step : (a b : ℕ) → bit_and a b ≡ bit_and (a / 2) (b / 2) * 2 + min (a % 2) (b % 2)
bit_and_step zero b = omega (arith, bit_and-bitwise 0 b, bit_and-bitwise 0 (b / 2))
bit_and_step (suc a) b =
    let half = suc a / 2 in
    let shorter = digits_agree (λ b. zero) min half (b / 2) a half (omega arith) (omega arith) in
    omega (arith, bit_and-bitwise (suc a) b, bit_and-bitwise half (b / 2), shorter)

pub bit_or_step : (a b : ℕ) → bit_or a b ≡ bit_or (a / 2) (b / 2) * 2 + max (a % 2) (b % 2)
bit_or_step zero b = omega (arith, bit_or-bitwise 0 b, bit_or-bitwise 0 (b / 2))
bit_or_step (suc a) b =
    let half = suc a / 2 in
    let shorter = digits_agree (λ b. b) max half (b / 2) a half (omega arith) (omega arith) in
    omega (arith, bit_or-bitwise (suc a) b, bit_or-bitwise half (b / 2), shorter)

-- Twice, `k` times.
abbrev pub shift : ℕ → ℕ → ℕ
shift zero a = a
shift (suc k) a = 2 * shift k a

-- The mask of `k` ones.
abbrev pub ones : ℕ → ℕ
ones zero = 0
ones (suc k) = 2 * ones k + 1

-- What is left of `a` behind its `k` low bits.
abbrev pub high : ℕ → ℕ → ℕ
high zero a = a
high (suc k) a = high k (a / 2)

-- The `k` low bits of `a`.
abbrev pub low : ℕ → ℕ → ℕ
low zero a = 0
low (suc k) a = 2 * low k (a / 2) + a % 2

-- The empty mask, by halves: `bound` is any number that `a` does not exceed.
empty_mask : (bound a : ℕ) → a ≤ bound → (bit_or a 0 ≡ a) × (bit_and a 0 ≡ 0)
empty_mask bound zero le = (refl, refl)
empty_mask zero (suc a) le = absurd (omega arith)
empty_mask (suc bound) (suc a) le =
    let (joined, met) = empty_mask bound (suc a / 2) (omega arith) in
    (omega (arith, bit_or_step (suc a) 0, joined), omega (arith, bit_and_step (suc a) 0, met))

pub bit_and-ones : (k a : ℕ) → bit_and a (ones k) ≡ low k a
bit_and-ones zero a = (empty_mask a a (omega arith)).1
bit_and-ones (suc k) a =
    let half : (2 * ones k + 1) / 2 ≡ ones k = omega arith in
    omega
      (arith, bit_and_step a (2 * ones k + 1), ap (bit_and (a / 2)) half, bit_and-ones k (a / 2))

pub bit_and-shift : (k a m : ℕ) → bit_and a (shift k m) ≡ shift k (bit_and (high k a) m)
bit_and-shift zero a m = refl
bit_and-shift (suc k) a m =
    let half : 2 * shift k m / 2 ≡ shift k m = omega arith in
    omega
      (arith, bit_and_step a (2 * shift k m), ap (bit_and (a / 2)) half, bit_and-shift k (a / 2) m)

-- Bits that do not overlap add up.
pub bit_or-shift : (k a b : ℕ) → bit_or (shift k a) (low k b) ≡ shift k a + low k b
bit_or-shift zero a b = omega (arith, (empty_mask a a (omega arith)).0)
bit_or-shift (suc k) a b =
    let left : 2 * shift k a / 2 ≡ shift k a = omega arith in
    let right : (2 * low k (b / 2) + b % 2) / 2 ≡ low k (b / 2) = omega arith in
    omega (
      arith,
      bit_or_step (2 * shift k a) (2 * low k (b / 2) + b % 2),
      ap (λ (x : ℕ). bit_or x ((2 * low k (b / 2) + b % 2) / 2)) left,
      ap (bit_or (shift k a)) right,
      bit_or-shift k a (b / 2),
    )

-- The masks of the relocations.
pub bit_and-low16 : (a : ℕ) → bit_and a 0xffff ≡ a % 2 ^ 16
bit_and-low16 a = omega (arith, bit_and-ones 16 a)

pub bit_and-low26 : (a : ℕ) → bit_and a 0x3ffffff ≡ a % 2 ^ 26
bit_and-low26 a = omega (arith, bit_and-ones 26 a)

pub bit_and-low32 : (a : ℕ) → bit_and a 0xffffffff ≡ a % 2 ^ 32
bit_and-low32 a = omega (arith, bit_and-ones 32 a)

pub bit_and-low8 : (a : ℕ) → bit_and a 0xff ≡ a % 2 ^ 8
bit_and-low8 a = omega (arith, bit_and-ones 8 a)

pub bit_and-high16 : (a : ℕ) → a < 2 ^ 32 → bit_and a 0xffff0000 ≡ a / 2 ^ 16 * 2 ^ 16
bit_and-high16 a h = omega (arith, bit_and-shift 16 a 0xffff, bit_and-ones 16 (high 16 a))

pub bit_and-high6 : (a : ℕ) → a < 2 ^ 32 → bit_and a 0xfc000000 ≡ a / 2 ^ 26 * 2 ^ 26
bit_and-high6 a h = omega (arith, bit_and-shift 26 a 0x3f, bit_and-ones 6 (high 26 a))

pub bit_or-high16 : (a b : ℕ) → b < 2 ^ 16 → bit_or (a * 2 ^ 16) b ≡ a * 2 ^ 16 + b
bit_or-high16 a b h =
    let up : shift 16 a ≡ a * 2 ^ 16 = omega arith in
    let down : low 16 b ≡ b = omega arith in
    ap₂ bit_or (sym up) (sym down) ∙ omega (arith, bit_or-shift 16 a b)

pub bit_or-high6 : (a b : ℕ) → b < 2 ^ 26 → bit_or (a * 2 ^ 26) b ≡ a * 2 ^ 26 + b
bit_or-high6 a b h =
    let up : shift 26 a ≡ a * 2 ^ 26 = omega arith in
    let down : low 26 b ≡ b = omega arith in
    ap₂ bit_or (sym up) (sym down) ∙ omega (arith, bit_or-shift 26 a b)
