-- ===== src/Base/Masks.antt =====
-- The low and the high digits of a number under `bit_or` and `bit_and`.
use Prim.Native.Nat.{ℕ, zero, suc, ◌+◌, ◌*◌, ◌-◌, ◌/◌, ◌^◌, ◌<◌, bit_or, bit_and}
use mathlib.Core.Path.{◌≡◌, ap, ◌∙◌}
use native.Mathlib.Omega.{arith}
use kernel_travel.Base.BitLaws.{
  bit_or_digit, bit_and_digit, bit_or_zero, bit_and_mask, pow_double, pow_pos,
}

-- Low digits put into a number that has none.
pub bit_or_low : (k hi lo : ℕ) → lo < 2 ^ k → bit_or (hi * 2 ^ k) lo ≡ hi * 2 ^ k + lo
bit_or_low zero hi lo h =
    let none_low : lo ≡ 0 = omega (arith, h) in
    ap (bit_or (hi * 1)) none_low ∙ bit_or_zero (hi * 1) ∙ omega (arith, none_low)
bit_or_low (suc k) hi lo h =
    let p = pow_double k in
    let product : hi * 2 ^ suc k ≡ 2 * (hi * 2 ^ k) = rw p (omega arith) in
    let half : hi * 2 ^ suc k / 2 ≡ hi * 2 ^ k = omega (arith, product) in
    let ih = bit_or_low k hi (lo / 2) (omega (arith, h, p)) in
    let digit = bit_or_digit (hi * 2 ^ suc k) lo in
    omega (arith, digit, ap (λ t. bit_or t (lo / 2)) half, ih, product)

-- A mask of the `k` low digits.
pub bit_and_ones : (k hi lo : ℕ) → lo < 2 ^ k → bit_and (hi * 2 ^ k + lo) (2 ^ k - 1) ≡ lo
bit_and_ones zero hi lo h = omega (arith, bit_and_mask (hi * 1 + lo) 0, h)
bit_and_ones (suc k) hi lo h =
    let p = pow_double k in
    let product : hi * 2 ^ suc k ≡ 2 * (hi * 2 ^ k) = rw p (omega arith) in
    let half : (hi * 2 ^ suc k + lo) / 2 ≡ hi * 2 ^ k + lo / 2 = omega (arith, product) in
    let ones : (2 ^ suc k - 1) / 2 ≡ 2 ^ k - 1 = omega (arith, p, pow_pos k) in
    let ih = bit_and_ones k hi (lo / 2) (omega (arith, h, p)) in
    let digit = bit_and_digit (hi * 2 ^ suc k + lo) (2 ^ suc k - 1) in
    let halves =
      ap (λ t. bit_and t ((2 ^ suc k - 1) / 2)) half ∙ ap (bit_and (hi * 2 ^ k + lo / 2)) ones in
    omega (arith, digit, halves, ih, product, p, pow_pos k)

-- A mask of high digits only.
pub bit_and_high :
    (k hi lo m : ℕ) → lo < 2 ^ k → bit_and (hi * 2 ^ k + lo) (m * 2 ^ k) ≡ bit_and hi m * 2 ^ k
bit_and_high zero hi lo m h =
    let hi_only : hi * 1 + lo ≡ hi = omega (arith, h) in
    let m_only : m * 1 ≡ m = omega arith in
    let both = ap (λ t. bit_and t (m * 1)) hi_only ∙ ap (bit_and hi) m_only in omega (arith, both)
bit_and_high (suc k) hi lo m h =
    let p = pow_double k in
    let product : hi * 2 ^ suc k ≡ 2 * (hi * 2 ^ k) = rw p (omega arith) in
    let mask : m * 2 ^ suc k ≡ 2 * (m * 2 ^ k) = rw p (omega arith) in
    let scaled : bit_and hi m * 2 ^ suc k ≡ 2 * (bit_and hi m * 2 ^ k) = rw p (omega arith) in
    let half : (hi * 2 ^ suc k + lo) / 2 ≡ hi * 2 ^ k + lo / 2 = omega (arith, product) in
    let mask_half : m * 2 ^ suc k / 2 ≡ m * 2 ^ k = omega (arith, mask) in
    let ih = bit_and_high k hi (lo / 2) m (omega (arith, h, p)) in
    let digit = bit_and_digit (hi * 2 ^ suc k + lo) (m * 2 ^ suc k) in
    let halves =
      ap (λ t. bit_and t (m * 2 ^ suc k / 2)) half ∙ ap (bit_and (hi * 2 ^ k + lo / 2)) mask_half in
    omega (arith, digit, halves, ih, mask, scaled)
