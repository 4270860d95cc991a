-- ===== src/Bitmap/Valid.antt =====
-- lib/kernel/bitmap.c: when a bitmap is well formed, and what bitmap_set does to it.
use kernel_travel.Base.{
  ℕ, ◌*◌, ◌/◌, ◌%◌, ◌^◌, ◌<◌, ◌≡◌, refl, sym, ◌∙◌, ◌≢◌, inl, inr, Bool, arith, ◌==◌, if◌then◌else◌,
  Bool-cases, length, get_or, set, length-set, get_elem?-eq-get_or, get_or-set_self, get_or-set_ne,
  ok, Returns, returns,
}
use kernel_travel.Bitmap.{Bitmap, bitmap_set, put_bit}
use kernel_travel.Bitmap.Bits.{is_clear, is_clear-put_bit, put_bit-lt}

-- The array has the stated length, holds bytes, and its bits are counted without wrapping an int.
pub record IsValid (bm : Bitmap) : Type 0 where
  pub storage : length bm.bits ≡ bm.btmp_bytes_len
  pub bytes : (i : ℕ) → get_or bm.bits i 0 < 256
  pub small : bm.btmp_bytes_len * 8 < 2 ^ 31

-- The bitmap's view as a set: bit `i` is clear.
abbrev pub is_free : Bitmap → ℕ → Bool
is_free bm i = is_clear (get_or bm.bits (i / 8) 0) (i % 8)

-- What `bitmap_set bm i value` leaves behind.
pub record WasSet (bm : Bitmap) (i value : ℕ) (bm' : Bitmap) : Type 0 where
  pub valid : IsValid bm'
  pub same_len : bm'.btmp_bytes_len ≡ bm.btmp_bytes_len
  pub bits_of : (j : ℕ) → is_free bm' j ≡ (if i == j then value == 0 else is_free bm j)

module _ {bm : Bitmap} (v : IsValid bm) (i value : ℕ) (hi : i < bm.btmp_bytes_len * 8)
    (hv : value < 2) where
  abbrev written : Bitmap
  written = record bm {
    bits = set bm.bits (i / 8) (put_bit (get_or bm.bits (i / 8) 0) (i % 8) value);
  }

  bitmap_set-ok : bitmap_set bm i value ≡ ok written
  unfolding bitmap_set
  bitmap_set-ok = ground (arith, get_elem?-eq-get_or bm.bits (i / 8) 0, v.storage)

  byte_of : (j : ℕ) → j ≢ i / 8 → get_or written.bits j 0 ≡ get_or bm.bits j 0
  byte_of j h = get_or-set_ne bm.bits (i / 8) j _ 0 (λ e. h (sym e))

  byte_at : get_or written.bits (i / 8) 0 ≡ put_bit (get_or bm.bits (i / 8) 0) (i % 8) value
  byte_at = get_or-set_self bm.bits (i / 8) _ 0 (omega (arith, v.storage))

  put_bit_clear :
      (m : ℕ)
      → m < 8
      → is_clear (put_bit (get_or bm.bits (i / 8) 0) (i % 8) value) m
        ≡ (if i % 8 == m then value == 0 else is_clear (get_or bm.bits (i / 8) 0) m)
  put_bit_clear m hm = is_clear-put_bit value _ (i % 8) m (v.bytes (i / 8)) (omega arith) hm hv

  written_bytes : (j : ℕ) → get_or written.bits j 0 < 256
  written_bytes j = elim (Bool-cases (j == i / 8)) [
    | inl e ↦
        ground
          (arith, byte_at, put_bit-lt (get_or bm.bits (i / 8) 0) (i % 8) value (v.bytes (i / 8)))
    | inr ne ↦ rw (byte_of j (ground arith)) (v.bytes j)
  ]

  written_bits : (j : ℕ) → is_free written j ≡ (if i == j then value == 0 else is_free bm j)
  written_bits j = elim (Bool-cases (j / 8 == i / 8)) [
    | inl e ↦
        let same : j / 8 ≡ i / 8 = ground arith in
        rw (same, byte_at) (put_bit_clear (j % 8) (omega arith) ∙ ground arith)
    | inr ne ↦ rw (byte_of (j / 8) (ground arith)) (ground arith)
  ]

  written-WasSet : WasSet bm i value written
  written-WasSet = record {
    valid = record {
      storage = length-set bm.bits (i / 8) _ ∙ v.storage;
      bytes = written_bytes;
      small = v.small;
    };
    same_len = refl;
    bits_of = written_bits;
  }

  -- In range, bitmap_set of 0 or 1 ends well, keeps the bitmap well formed and of its length, makes
  -- bit `i` clear exactly when the value is 0, and leaves every other bit as it was.
  pub bitmap_set-WasSet : Returns (WasSet bm i value) (bitmap_set bm i value)
  bitmap_set-WasSet = rw bitmap_set-ok (returns written-WasSet)
