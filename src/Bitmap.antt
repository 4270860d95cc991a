-- ===== src/Bitmap.antt =====
-- lib/kernel/bitmap.c: the bitmap that the page pools, the pid pool and the user address spaces share.
-- `bits` holds the bytes of the array; an access past it is a `fault`. The functions return the
-- new bitmap where the source updates it in place. `-1` of bit_scan is `none`.
pub mod Bits
pub mod Valid
pub mod Runs
pub mod Scan
pub mod Init
mod Tests
use kernel_travel.Base.{
  ℕ, zero, suc, ◌+◌, ◌-◌, ◌*◌, ◌/◌, ◌%◌, ◌^◌, bit_and, bit_or, Bool, true, false, ◌&&◌, ◌||◌,
  Option, none, some, List, length, replicate, get_elem?, set, drop, ◌++◌, ltb, leb, ◌==◌,
  if◌then◌else◌, u32, Outcome, ok, panic, fault, spin, ◌>>=◌, ◌>>◌, assert, present,
}

pub record Bitmap : Type 0 where
  pub btmp_bytes_len : ℕ
  pub bits : List ℕ

-- memset(btmp->bits, 0, btmp->btmp_bytes_len)
unfoldable pub bitmap_init : Bitmap → Outcome Bitmap
bitmap_init bm =
    if leb bm.btmp_bytes_len (length bm.bits)
    then ok (record bm { bits = replicate bm.btmp_bytes_len 0 ++ drop bm.btmp_bytes_len bm.bits })
    else fault

-- The int that the source returns: the byte under the mask.
unfoldable pub bit_scan_test : Bitmap → ℕ → Outcome ℕ
bit_scan_test bm bit_idx = do
  b ← present (get_elem? bm.bits (bit_idx / 8))
  ok (bit_and b (2 ^ (bit_idx % 8)))

-- The first loop of bit_scan: the first byte that is not 0xff, or the length.
unfoldable pub skip_full : ℕ → Bitmap → ℕ → Outcome ℕ
skip_full zero bm bit_byte = spin
skip_full (suc fuel) bm bit_byte =
    let rest = skip_full fuel bm (u32 (bit_byte + 1)) in
    if ltb bit_byte bm.btmp_bytes_len
    then (do b ← present (get_elem? bm.bits bit_byte); if b == 0xff then rest else ok bit_byte)
    else ok bit_byte

-- The second loop: `count` clear bits end just before `bit_idx`.
unfoldable pub scan_run : ℕ → Bitmap → ℕ → ℕ → ℕ → Outcome (Option ℕ)
scan_run zero bm bit_cnt bit_idx count = spin
scan_run (suc fuel) bm bit_cnt bit_idx count =
    if ltb bit_idx (bm.btmp_bytes_len * 8)
    then (do
      t ← bit_scan_test bm bit_idx
      let count' = if t == 0 then u32 (count + 1) else 0
      let rest = scan_run fuel bm bit_cnt (u32 (bit_idx + 1)) count'
      if count' == bit_cnt then ok (some (u32 (bit_idx + 2 ^ 32 - count' + 1))) else rest)
    else ok none

-- The rounds given are one more than the loops can need.
unfoldable pub bit_scan : Bitmap → ℕ → Outcome (Option ℕ)
bit_scan bm bit_cnt = do
  bit_byte ← skip_full (bm.btmp_bytes_len + 1) bm 0
  assert (ltb bit_byte bm.btmp_bytes_len)
  if bit_byte == bm.btmp_bytes_len
      then ok none
      else scan_run (bm.btmp_bytes_len * 8 + 1) bm bit_cnt (u32 (bit_byte * 8)) 0

-- `|= (1 << odd)`, or `&= ~(1 << odd)` on a byte.
unfoldable pub put_bit : ℕ → ℕ → ℕ → ℕ
put_bit b k value = if value == 0 then bit_and b (2 ^ 32 - 1 - 2 ^ k) else bit_or b (2 ^ k)

unfoldable pub bitmap_set : Bitmap → ℕ → ℕ → Outcome Bitmap
bitmap_set bm bit_idx value = do
  assert (value == 0 || value == 1)
  assert (leb bit_idx (bm.btmp_bytes_len * 8))
  b ← present (get_elem? bm.bits (bit_idx / 8))
  ok (record bm { bits = set bm.bits (bit_idx / 8) (put_bit b (bit_idx % 8) value) })
