-- ===== src/Mmap/Tests.antt =====
-- A process with one area.
use kernel_travel.Base.{◌≡◌, refl, none, some, List, [], ◌∷◌, ◌++◌, arith}
use kernel_travel.Mmap.{Vma, leaf, node, Mm, find_vma}
use kernel_travel.Mmap.Tree.{area, areas_end, IsMm, Found, find_vma-first_above}

abbrev code : Vma
code = record { vm_start = 0x800000000; vm_end = 0x800002000 }

abbrev mm : Mm
mm = record {
  mmap = code ∷ [];
  mm_rb = node leaf code leaf;
  mmap_cache = none;
  free_area_cache = 0x800001000;
}

none_cached : (v : Vma) → none ≡ some v → (xs ys : List Vma) × (code ∷ [] ≡ xs ++ (v ∷ ys))
none_cached v e = absurd (ground (arith, e))

mm-IsMm : IsMm mm
mm-IsMm = record {
  sorted = area (omega arith) (omega arith) areas_end;
  same = refl;
  cached = none_cached;
}

find_vma-first_above_example : Found mm 0x800001fff (find_vma mm 0x800001fff)
find_vma-first_above_example = find_vma-first_above mm-IsMm 0x800001fff
