-- ===== src/Bitmap/Tests.antt =====
-- Concrete bitmaps.

use kernel_travel.Base.{ℕ, zero, suc, ◌<◌, ◌≡◌, refl, false, [], ◌∷◌, arith, get_or, Returns, panic}
use kernel_travel.Bitmap.{Bitmap, bit_scan}
use kernel_travel.Bitmap.Valid.{IsValid, is_free}
use kernel_travel.Bitmap.Runs.{IsFirstRun}
use kernel_travel.Bitmap.Scan.{bit_scan-IsFirstRun, bit_scan-panic}

-- 16 bits, of which 9 and 11 to 15 are clear
abbrev bm : Bitmap
bm = record { btmp_bytes_len = 2; bits = 0xff ∷ 5 ∷ [] }

bm-IsValid : IsValid bm
bm-IsValid = record { storage = refl; bytes = below; small = omega arith }
  where
    below : (i : ℕ) → get_or bm.bits i 0 < 256
    below zero = omega arith
    below (suc zero) = omega arith
    below (suc (suc i)) = omega arith

abbrev full : Bitmap
full = record { btmp_bytes_len = 1; bits = 0xff ∷ [] }

full-IsValid : IsValid full
full-IsValid = record { storage = refl; bytes = below; small = omega arith }
  where
    below : (i : ℕ) → get_or full.bits i 0 < 256
    below zero = omega arith
    below (suc i) = omega arith

all_taken : (j : ℕ) → j < 8 → is_free full j ≡ false
all_taken zero h = refl
all_taken (suc zero) h = refl
all_taken (suc (suc zero)) h = refl
all_taken (suc (suc (suc zero))) h = refl
all_taken (suc (suc (suc (suc zero)))) h = refl
all_taken (suc (suc (suc (suc (suc zero))))) h = refl
all_taken (suc (suc (suc (suc (suc (suc zero)))))) h = refl
all_taken (suc (suc (suc (suc (suc (suc (suc zero))))))) h = refl
all_taken (suc (suc (suc (suc (suc (suc (suc (suc j)))))))) h = absurd (omega arith)

bit_scan-panic_example : bit_scan full 2 ≡ panic
bit_scan-panic_example = bit_scan-panic full-IsValid 2 all_taken

bit_scan-IsFirstRun_example : Returns (IsFirstRun (is_free bm) 16 3) (bit_scan bm 3)
bit_scan-IsFirstRun_example = bit_scan-IsFirstRun bm-IsValid 3 9 (omega arith) (omega arith) refl
