-- ===== src/Boot/Tests.antt =====
-- A table of which the first region is in use, and a range of a few pages.
use kernel_travel.Base.{ℕ, ◌≡◌, refl, List, [], ◌∷◌, ◌++◌, arith, replicate, ok, fault, Returns}
use kernel_travel.Base.{arith}
use kernel_travel.Base.{ℕ, ◌≡◌, refl, List, [], ◌∷◌, ◌++◌, arith, replicate, ok, fault, Returns}
use kernel_travel.Base.{arith}
use kernel_travel.Boot.{
  Region, MemblockType, memblock_fit_size, memblock_add_range, memblock_end_of_dram,
  next_mem_pfn_range, free_memory_core,
}
use kernel_travel.Boot.Tiles.{Tiles, free_memory_core-Tiles}
use kernel_travel.Boot.Regions.{Used, added, memblock_add_range-first, added-unseen}

abbrev low : Region
low = record { base = 0x200000; size = 0xee00000; nid = 0 }

abbrev unused : Region
unused = record { base = 0; size = 0; nid = 0 }

abbrev table : MemblockType
table = record { cnt = 1; total_size = 0xee00000; regions = low ∷ replicate 31 unused }

memblock_add_range-first_example :
    ((xs ys : List Region) (r : Region)
      → table.regions ≡ xs ++ r ∷ ys
      → Used xs
      → r.size ≡ 0
      → memblock_add_range table 0x90000000 0x10000000
        ≡ ok (
            added table 0x90000000 0x10000000 (
              xs
              ++ record {
                base = 0x90000000;
                size = memblock_fit_size 0x90000000 0x10000000;
                nid = 0;
              }
                ∷ ys)))
    × (Used table.regions → memblock_add_range table 0x90000000 0x10000000 ≡ fault)
memblock_add_range-first_example = memblock_add_range-first table 0x90000000 0x10000000 refl refl

free_memory_core-Tiles_example :
    Returns (λ r. Tiles r.0 1 7 × (r.1 ≡ 0)) (free_memory_core 100 0x1000 0x7fff)
free_memory_core-Tiles_example =
    free_memory_core-Tiles 100 0x1000 0x7fff (omega arith) (omega arith)

added-unseen_example :
    Returns
      (λ t'.
        ((nid : ℕ)
          → next_mem_pfn_range nid t'.regions t'.cnt 0
            ≡ next_mem_pfn_range nid table.regions table.cnt 0)
        × (memblock_end_of_dram t' ≡ memblock_end_of_dram table))
      (memblock_add_range table 0x90000000 0x10000000)
added-unseen_example =
    added-unseen table 0x90000000 0x10000000 low unused [] (replicate 30 unused) refl refl refl
      (refl, tt) refl
