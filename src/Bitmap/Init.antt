-- ===== src/Bitmap/Init.antt =====
-- lib/kernel/bitmap.c, bitmap_init: every bit is free afterwards.
use kernel_travel.Base.{
  ℕ, zero, suc, ◌*◌, ◌%◌, ◌^◌, ◌<◌, ◌≡◌, refl, sym, ap, ◌∙◌, true, List, [], ◌∷◌, ◌++◌, arith, leb,
  all_below, all_below_sound, length, drop, replicate, length-replicate, get_or-replicate, Returns,
  returns,
}
use kernel_travel.Bitmap.{Bitmap, bitmap_init}
use kernel_travel.Bitmap.Bits.{is_clear}
use kernel_travel.Bitmap.Valid.{IsValid, is_free}

zero_table : all_below 8 (is_clear 0) ≡ true
unfolding all_below
zero_table = refl

drop-all : (xs : List ℕ) → drop (length xs) xs ≡ []
drop-all [] = refl
drop-all (x ∷ xs) = drop-all xs

replicate-append_nil : (n : ℕ) → replicate n 0 ++ [] ≡ replicate {A = ℕ} n 0
replicate-append_nil zero = refl
replicate-append_nil (suc n) = ap (λ xs. 0 ∷ xs) (replicate-append_nil n)

-- bitmap_init of a bitmap that has its array ends well, keeps the length, and leaves a well-formed bitmap
-- in which every bit is clear, whatever the array held.
pub bitmap_init-all_free :
    (bm : Bitmap)
    → length bm.bits ≡ bm.btmp_bytes_len
    → bm.btmp_bytes_len * 8 < 2 ^ 31
    → Returns
        (λ bm'.
          IsValid bm' × (bm'.btmp_bytes_len ≡ bm.btmp_bytes_len) × ((j : ℕ) → is_free bm' j ≡ true))
        (bitmap_init bm)
unfolding bitmap_init
bitmap_init-all_free bm size small =
    let fits : leb bm.btmp_bytes_len (length bm.bits) ≡ true = ground (arith, size) in
    let nothing_left : drop bm.btmp_bytes_len bm.bits ≡ [] =
      ap (λ n. drop n bm.bits) (sym size) ∙ drop-all bm.bits in
    rw (fits, nothing_left, replicate-append_nil bm.btmp_bytes_len)
      (returns (
        record {
          storage = length-replicate {A = ℕ} bm.btmp_bytes_len 0;
          bytes = λ i. rw get_or-replicate (omega arith);
          small = small;
        },
        refl,
        λ j. rw get_or-replicate (all_below_sound 8 (is_clear 0) (j % 8) zero_table (omega arith)),
      ))
