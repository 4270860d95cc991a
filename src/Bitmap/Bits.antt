-- ===== src/Bitmap/Bits.antt =====
-- lib/kernel/bitmap.c: the bits of a byte under the masks of the bitmap, by a table.
use kernel_travel.Base.{
  ==_iff, sym, ◌∙◌, ◌||◌, zero, suc, ℕ, ◌^◌, ◌<◌, ◌≡◌, refl, bit_and, Bool, true, false, not, ◌&&◌,
  ltb, ◌==◌, if◌then◌else◌, all_below, all_below_sound, arith,
}
use kernel_travel.Bitmap.{put_bit}

-- Bit `k` of a byte is clear.
abbrev pub is_clear : ℕ → ℕ → Bool
is_clear b k = bit_and b (2 ^ k) == 0

abbrev bool_eq : Bool → Bool → Bool
bool_eq true b = b
bool_eq false b = not b

-- What is to hold of one byte and two bit positions.
put_ok : ℕ → ℕ → ℕ → Bool
unfolding put_bit
put_ok b k m =
    bool_eq (is_clear (put_bit b k 1) m) (if k == m then false else is_clear b m)
    && bool_eq (is_clear (put_bit b k 0) m) (if k == m then true else is_clear b m)
    && ltb (put_bit b k 0) 256
    && ltb (put_bit b k 1) 256

put_table : all_below 256 (λ b. all_below 8 (λ k. all_below 8 (put_ok b k))) ≡ true
unfolding all_below put_ok
put_table = refl

put_ok_at : (b k m : ℕ) → b < 256 → k < 8 → m < 8 → put_ok b k m ≡ true
put_ok_at b k m hb hk hm =
    all_below_sound 8 (put_ok b k) m
      (all_below_sound 8 (λ k. all_below 8 (put_ok b k)) k
        (all_below_sound 256 (λ b. all_below 8 (λ k. all_below 8 (put_ok b k))) b put_table hb) hk)
      hm

bool_eq_sound : (a b : Bool) → bool_eq a b ≡ true → a ≡ b
bool_eq_sound a b h = ground arith

pub is_clear-put_bit :
    (value b k m : ℕ)
    → b < 256
    → k < 8
    → m < 8
    → value < 2
    → is_clear (put_bit b k value) m ≡ (if k == m then value == 0 else is_clear b m)
unfolding put_ok
is_clear-put_bit zero b k m hb hk hm hv = ground (arith, put_ok_at b k m hb hk hm)
is_clear-put_bit (suc zero) b k m hb hk hm hv = ground (arith, put_ok_at b k m hb hk hm)
is_clear-put_bit (suc (suc n)) b k m hb hk hm hv = absurd (omega arith)

pub put_bit-lt : (b k value : ℕ) → b < 256 → k < 8 → value < 2 → put_bit b k value < 256
unfolding put_ok
put_bit-lt b k value hb hk hv = ground (arith, put_ok_at b k 0 hb hk)

full_table : all_below 8 (λ k. not (is_clear 0xff k)) ≡ true
unfolding all_below
full_table = refl

pub is_clear-full : (k : ℕ) → k < 8 → is_clear 0xff k ≡ false
is_clear-full k h = ground (arith, all_below_sound 8 (λ k. not (is_clear 0xff k)) k full_table h)

not_full_ok : ℕ → Bool
not_full_ok b =
    b == 0xff
    || is_clear b 0
    || is_clear b 1
    || is_clear b 2
    || is_clear b 3
    || is_clear b 4
    || is_clear b 5
    || is_clear b 6
    || is_clear b 7

not_full_table : all_below 256 not_full_ok ≡ true
unfolding all_below not_full_ok
not_full_table = refl

-- A byte that is not 0xff has a clear bit.
pub full_of_taken : (b : ℕ) → b < 256 → ((k : ℕ) → k < 8 → is_clear b k ≡ false) → b ≡ 0xff
unfolding not_full_ok
full_of_taken b hb taken =
    let t : not_full_ok b ≡ true = all_below_sound 256 not_full_ok b not_full_table hb in
    let all_taken : not_full_ok b ≡ (b == 0xff) =
      rw
        (
          taken 0 (omega arith),
          taken 1 (omega arith),
          taken 2 (omega arith),
          taken 3 (omega arith),
          taken 4 (omega arith),
          taken 5 (omega arith),
          taken 6 (omega arith),
          taken 7 (omega arith),
        )
        (ground arith) in
    (==_iff b 0xff).0 (sym all_taken ∙ t)
