-- ===== src/Base/BitLaws.antt =====
-- The digit law of `bit_or`, and what follows for masks that fill only high bits: the libraries give the
-- operations by their binary digits.
use Prim.Native.Nat.{
  ℕ, zero, suc, ◌+◌, ◌*◌, ◌/◌, ◌%◌, ◌^◌, ◌≤◌, ◌<◌, max, min, bit_or, bit_and, bit_xor, digits,
  differ, bit_or-bitwise, bit_and-bitwise, bit_xor-bitwise,
}
use mathlib.Core.Path.{◌≡◌, refl, sym, ap, ◌∙◌}
use mathlib.Core.Logic.{◌⊎◌, inl, inr}
use native.Mathlib.Omega.{arith}
use native.Mathlib.Nat.{pow-suc}

-- From as many rounds on as the first argument's size, the rounds make no difference.
enough_digits :
    (z : ℕ → ℕ) (f : ℕ → ℕ → ℕ) (a b rounds more : ℕ)
    → a ≤ rounds
    → a ≤ more
    → digits z f rounds a b ≡ digits z f more a b
enough_digits z f zero b zero zero h g = refl
enough_digits z f zero b zero (suc more) h g = refl
enough_digits z f zero b (suc rounds) zero h g = refl
enough_digits z f zero b (suc rounds) (suc more) h g = refl
enough_digits z f (suc a) b zero more h g = absurd (omega (arith, h))
enough_digits z f (suc a) b (suc rounds) zero h g = absurd (omega (arith, g))
enough_digits z f (suc a) b (suc rounds) (suc more) h g =
    ap (λ t. t * 2 + f (suc a % 2) (b % 2))
      (enough_digits z f (suc a / 2) (b / 2) rounds more (omega (arith, h)) (omega (arith, g)))

zero-bit_or : (b : ℕ) → bit_or 0 b ≡ b
zero-bit_or b = bit_or-bitwise 0 b

pub bit_or_digit : (a b : ℕ) → bit_or a b ≡ bit_or (a / 2) (b / 2) * 2 + max (a % 2) (b % 2)
bit_or_digit zero b = omega (arith, zero-bit_or b, zero-bit_or (b / 2))
bit_or_digit (suc a) b = omega (
  arith,
  bit_or-bitwise (suc a) b,
  bit_or-bitwise (suc a / 2) (b / 2),
  enough_digits (λ c. c) max (suc a / 2) (b / 2) a (suc a / 2) (omega arith) (omega arith),
)

pub pow_double : (k : ℕ) → 2 ^ suc k ≡ 2 * 2 ^ k
pow_double k = simp pow-suc (omega arith)

pub pow_pos : (k : ℕ) → 1 ≤ 2 ^ k
pow_pos zero = omega arith
pow_pos (suc k) = omega (arith, pow_double k, pow_pos k)

-- A mask of high bits leaves the `k` low ones.
pub bit_or-high :
    (k hi lo m : ℕ) → lo < 2 ^ k → bit_or (hi * 2 ^ k + lo) (m * 2 ^ k) ≡ bit_or hi m * 2 ^ k + lo
bit_or-high zero hi lo m h =
    let hi_only : hi * 1 + lo ≡ hi = omega arith in
    let m_only : m * 1 ≡ m = omega arith in rw (hi_only, m_only) (omega arith)
bit_or-high (suc k) hi lo m h =
    let p = pow_double k in
    let product : hi * 2 ^ suc k ≡ 2 * (hi * 2 ^ k) = rw p (omega arith) in
    let mask : m * 2 ^ suc k ≡ 2 * (m * 2 ^ k) = rw p (omega arith) in
    let scaled : bit_or hi m * 2 ^ suc k ≡ 2 * (bit_or hi m * 2 ^ k) = rw p (omega arith) in
    let a_half : (2 * (hi * 2 ^ k) + lo) / 2 ≡ hi * 2 ^ k + lo / 2 = omega arith in
    let b_half : 2 * (m * 2 ^ k) / 2 ≡ m * 2 ^ k = omega arith in
    let ih = bit_or-high k hi (lo / 2) m (omega arith) in
    rw (product, mask, scaled, bit_or_digit, a_half, b_half, ih) (omega arith)

pub bit_and_digit : (a b : ℕ) → bit_and a b ≡ bit_and (a / 2) (b / 2) * 2 + min (a % 2) (b % 2)
bit_and_digit zero b = omega (arith, bit_and-bitwise 0 b, bit_and-bitwise 0 (b / 2))
bit_and_digit (suc a) b = omega (
  arith,
  bit_and-bitwise (suc a) b,
  bit_and-bitwise (suc a / 2) (b / 2),
  enough_digits (λ c. zero) min (suc a / 2) (b / 2) a (suc a / 2) (omega arith) (omega arith),
)

bit_xor_digit : (a b : ℕ) → bit_xor a b ≡ bit_xor (a / 2) (b / 2) * 2 + differ (a % 2) (b % 2)
bit_xor_digit zero b = omega (arith, bit_xor-bitwise 0 b, bit_xor-bitwise 0 (b / 2))
bit_xor_digit (suc a) b =
    let fewer =
      enough_digits (λ c. c) differ (suc a / 2) (b / 2) a (suc a / 2) (omega arith) (omega arith) in
    bit_xor-bitwise (suc a) b
    ∙ ap (λ t. t * 2 + differ (suc a % 2) (b % 2))
        (fewer ∙ sym (bit_xor-bitwise (suc a / 2) (b / 2)))

digits_or_zero : (rounds a : ℕ) → a ≤ rounds → digits (λ c. c) max rounds a 0 ≡ a
digits_or_zero zero a h = omega (arith, h)
digits_or_zero (suc rounds) zero h = refl
digits_or_zero (suc rounds) (suc a) h =
    omega (arith, digits_or_zero rounds (suc a / 2) (omega (arith, h)))

pub bit_or_zero : (a : ℕ) → bit_or a 0 ≡ a
bit_or_zero a = bit_or-bitwise a 0 ∙ digits_or_zero a a (omega arith)

differ_zero : (x : ℕ) → differ x 0 ≡ x
differ_zero zero = refl
differ_zero (suc x) = refl

digits_small : (rounds a b : ℕ) → digits (λ c. zero) min rounds a b ≤ b
digits_small zero a b = omega arith
digits_small (suc rounds) zero b = omega arith
digits_small (suc rounds) (suc a) b = omega (arith, digits_small rounds (suc a / 2) (b / 2))

pub bit_and_mask : (a b : ℕ) → bit_and a b ≤ b
bit_and_mask a b = omega (arith, bit_and-bitwise a b, digits_small a a b)

digits_and_self : (rounds a : ℕ) → a ≤ rounds → digits (λ c. zero) min rounds a a ≡ a
digits_and_self zero a h = omega (arith, h)
digits_and_self (suc rounds) zero h = refl
digits_and_self (suc rounds) (suc a) h =
    omega (arith, digits_and_self rounds (suc a / 2) (omega (arith, h)))

bit_and_self : (a : ℕ) → bit_and a a ≡ a
bit_and_self a = bit_and-bitwise a a ∙ digits_and_self a a (omega arith)

digits_xor_zero : (rounds a : ℕ) → a ≤ rounds → digits (λ c. c) differ rounds a 0 ≡ a
digits_xor_zero zero a h = omega (arith, h)
digits_xor_zero (suc rounds) zero h = refl
digits_xor_zero (suc rounds) (suc a) h =
    omega (arith, differ_zero (suc a % 2), digits_xor_zero rounds (suc a / 2) (omega (arith, h)))

bit_xor_zero : (a : ℕ) → bit_xor a 0 ≡ a
bit_xor_zero a = bit_xor-bitwise a 0 ∙ digits_xor_zero a a (omega arith)

last_digit : (b : ℕ) → (b % 2 ≡ 0) ⊎ (b % 2 ≡ 1)
last_digit b = ground arith

-- What the numbers with digit 0 flipped, and digit `suc k` flipped, come to.
flip_first : (b : ℕ) → bit_xor b 1 ≡ b / 2 * 2 + differ (b % 2) 1
flip_first b = omega (arith, bit_xor_digit b 1, bit_xor_zero (b / 2))

first_half : (b : ℕ) → bit_xor b 1 / 2 ≡ b / 2
first_half b = elim (last_digit b) [
  | inl even ↦ omega (arith, flip_first b, ap (λ t. differ t 1) even)
  | inr odd ↦ omega (arith, flip_first b, ap (λ t. differ t 1) odd)
]

flip_next : (k b : ℕ) → bit_xor b (2 ^ suc k) ≡ bit_xor (b / 2) (2 ^ k) * 2 + b % 2
flip_next k b =
    let half : 2 ^ suc k / 2 ≡ 2 ^ k = omega (arith, pow_double k) in
    let rest : 2 ^ suc k % 2 ≡ 0 = omega (arith, pow_double k) in
    bit_xor_digit b (2 ^ suc k)
    ∙ ap (λ t. bit_xor (b / 2) t * 2 + differ (b % 2) (2 ^ suc k % 2)) half
    ∙ ap (λ t. bit_xor (b / 2) (2 ^ k) * 2 + t) (ap (differ (b % 2)) rest ∙ differ_zero (b % 2))

both_next : (x b c y : ℕ) → x ≡ c * 2 + b % 2 → bit_and c (b / 2) ≡ y → bit_and x b ≡ y * 2 + b % 2
both_next x b c y e h =
    let half : x / 2 ≡ c = omega (arith, e) in
    let halves = ap (λ t. bit_and t (b / 2)) half in omega (arith, bit_and_digit x b, halves, h, e)

-- To flip digit `k` of a number adds or takes away 2^k, and the digits that both numbers have are those of
-- the lesser.
pub flip_digit :
    (k b : ℕ)
    → ((bit_xor b (2 ^ k) ≡ b + 2 ^ k) × (bit_and (bit_xor b (2 ^ k)) b ≡ b))
      ⊎ ((bit_xor b (2 ^ k) + 2 ^ k ≡ b) × (bit_and (bit_xor b (2 ^ k)) b ≡ bit_xor b (2 ^ k)))
flip_digit zero b =
    let flipped = flip_first b in
    let halves : bit_xor b 1 / 2 ≡ b / 2 = first_half b in
    let both = bit_and_digit (bit_xor b 1) b in
    let same = ap (λ t. bit_and t (b / 2)) halves ∙ bit_and_self (b / 2) in
    elim (last_digit b) [
      | inl even ↦
          let flag = ap (λ t. differ t 1) even in
          inl (omega (arith, flipped, flag, even), omega (arith, both, same, even, flipped, flag))
      | inr odd ↦
          let flag = ap (λ t. differ t 1) odd in
          inr (omega (arith, flipped, flag, odd), omega (arith, both, same, odd, flipped, flag))
    ]
flip_digit (suc k) b =
    let flipped = flip_next k b in
    elim (flip_digit k (b / 2)) [
      | inl (up, both) ↦ inl (
        omega (arith, flipped, up, pow_double k),
        omega (arith, both_next (bit_xor b (2 ^ suc k)) b _ _ flipped both),
      )
      | inr (down, both) ↦ inr (
        omega (arith, flipped, down, pow_double k),
        omega (arith, flipped, both_next (bit_xor b (2 ^ suc k)) b _ _ flipped both),
      )
    ]
