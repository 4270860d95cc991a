-- ===== src/Pages/Tests.antt =====
-- A pool of 16 pages.
use kernel_travel.Base.{
  ℕ, zero, suc, ◌+◌, ◌≤◌, ◌<◌, ◌≡◌, refl, subst, true, [], ◌∷◌, arith, get_or, ok, panic, Returns,
  Returns-result,
}
use kernel_travel.Pages.{Memory, dmw1_base, get_page, get_pages, free_page}
use kernel_travel.Bitmap.Runs.{Run}
use kernel_travel.Pages.Alloc.{
  IsValid, pool_free, Got, get_page-Taken, free_page-get_page, free_page-panic,
}
use kernel_travel.Pages.Range.{Given, get_pages-Given}

abbrev pool_of : ℕ → ℕ → Memory
pool_of b₀ b₁ = record {
  pool = record {
    paddr_start = dmw1_base + 0x6000;
    btmp = record { btmp_bytes_len = 2; bits = b₀ ∷ b₁ ∷ [] };
  };
  bytes = λ a. 7;
}

pool-IsValid : (b₀ b₁ : ℕ) → b₀ < 256 → b₁ < 256 → IsValid ((pool_of b₀ b₁).pool)
pool-IsValid b₀ b₁ h₀ h₁ = record {
  btmp = record { storage = refl; bytes = below; small = omega arith };
  in_window = omega arith;
  end_in_window = omega arith;
}
  where
    below : (i : ℕ) → get_or (b₀ ∷ b₁ ∷ []) i 0 < 256
    below zero = h₀
    below (suc zero) = h₁
    below (suc (suc i)) = omega arith

-- page 1 is the first free one; and here page 9
abbrev low : Memory
low = pool_of 1 0

abbrev high : Memory
high = pool_of 0xff 1

low-IsValid : IsValid (low.pool)
low-IsValid = pool-IsValid 1 0 (omega arith) (omega arith)

high-IsValid : IsValid (high.pool)
high-IsValid = pool-IsValid 0xff 1 (omega arith) (omega arith)

get_page-Taken_example : Returns (Got low) (get_page low)
get_page-Taken_example = get_page-Taken low-IsValid 1 (omega arith) refl

get_pages-Given_example : Returns (Given low 3) (get_pages low 3)
get_pages-Given_example =
    get_pages-Given low-IsValid 3 1 (omega arith) (omega arith) (omega arith) refl

-- What get_page makes of the two pools.
low_got : (r : ℕ × Memory) × (get_page low ≡ ok r) × Got low r
low_got = Returns-result (get_page-Taken low-IsValid 1 (omega arith) refl)

high_got : (r : ℕ × Memory) × (get_page high ≡ ok r) × Got high r
high_got = Returns-result (get_page-Taken high-IsValid 9 (omega arith) refl)

page_1_free : Run (pool_free low) 1 1
page_1_free j lo hi =
    let same : 1 ≡ j = omega arith in subst (λ k. pool_free low k ≡ true) same refl

low_bit : (b : ℕ) → ((j : ℕ) → j < b → ¬ Run (pool_free low) j 1) → b < 2
low_bit zero first = omega arith
low_bit (suc zero) first = omega arith
low_bit (suc (suc b)) first = absurd (first 1 (omega arith) page_1_free)

high_bit : (b : ℕ) → Run (pool_free high) b 1 → 2 ≤ b
high_bit zero run = absurd (ground (arith, run 0 (omega arith) (omega arith)))
high_bit (suc zero) run = absurd (ground (arith, run 1 (omega arith) (omega arith)))
high_bit (suc (suc b)) run = omega arith

free_page-get_page_example :
    Returns
      (λ m. IsValid (m.pool) × ((j : ℕ) → pool_free m j ≡ pool_free low j))
      (free_page (low_got.0.1) (low_got.0.0))
free_page-get_page_example =
    free_page-get_page low-IsValid (low_got.2.1) (low_bit (low_got.2.0) (low_got.2.1.first))

free_page-panic_example : free_page (high_got.0.1) (high_got.0.0) ≡ panic
free_page-panic_example =
    free_page-panic high-IsValid (high_got.2.1) (high_bit (high_got.2.0) (high_got.2.1.was_free))
