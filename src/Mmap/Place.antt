-- ===== src/Mmap/Place.antt =====
-- mm/mmap.c, get_unmapped_area: the address returned.
use kernel_travel.Base.{ℕ, ◌-◌, ◌^◌, ◌≤◌, ◌≡◌, ◌⊎◌, Option, none, some, List}
use kernel_travel.Mmap.{Vma, Mm, task_unmapped_base}
use kernel_travel.Mmap.Tree.{IsMm}
use kernel_travel.Mmap.Gap.{IsGap}

-- The result of one search from `addr` on: the lowest gap, or none where there is none.
pub data Lowest (vs : List Vma) (len addr : ℕ) : Option ℕ → Type 0 where
  lowest :
      {g : ℕ}
      → addr ≤ g
      → IsGap vs len g
      → ((g' : ℕ) → addr ≤ g' → IsGap vs len g' → g ≤ g')
      → Lowest vs len addr (some g)
  no_gap : ((g : ℕ) → addr ≤ g → ¬ IsGap vs len g) → Lowest vs len addr none

-- The areas stay as they are.
pub record SameAreas (mm mm' : Mm) : Type 0 where
  pub still_valid : IsMm mm'
  pub still_same : mm'.mmap ≡ mm.mmap

-- What get_unmapped_area returns: a gap for `len` bytes; or -1 where there is none from
-- TASK_UNMAPPED_BASE on.
abbrev pub Answer : Mm → ℕ → ℕ × Mm → Type 0
Answer mm len (addr, mm') =
    (IsGap mm.mmap len addr
      ⊎ ((addr ≡ 2 ^ 64 - 1) × ((g : ℕ) → task_unmapped_base ≤ g → ¬ IsGap mm.mmap len g)))
    × SameAreas mm mm'
