-- ===== src/Boot.antt =====
-- mm/memblock.c: the regions of memory that are known at start-up, and the hand-over of the free pages to
-- the page allocator in blocks of powers of two. A call of __free_pages_core is recorded as its
-- two arguments, the pointer and the order.
pub mod Regions
pub mod Tiles
mod Tests
use kernel_travel.Base.{
  ℕ, zero, suc, ◌+◌, ◌-◌, ◌*◌, ◌/◌, ◌%◌, ◌^◌, ◌≤◌, ◌<◌, min, max, bit_and, bit_or, bit_xor, ◌≡◌,
  refl, sym, ap, ◌∙◌, subst, ◌≢◌, ◌↔◌, ◌⊎◌, inl, inr, Bool, true, false, not, ◌&&◌, ◌||◌, Option,
  none, some, List, [], ◌∷◌, ◌++◌, map, arith, ltb, leb, ◌==◌, if◌then◌else◌, u32, u64, ==_iff,
  ltb→lt, lt→ltb, le→ltb, Bool-cases, Option-cases, all_below, all_below_sound, length, get_elem?,
  get_or, set, take, drop, replicate, length-append, length-set, length-replicate,
  get_elem?-eq-get_or, get_elem?-eq-none, get_or-set_self, get_or-set_ne, get_or-replicate, Outcome,
  ok, panic, fault, spin, ◌>>=◌, ◌>>◌, assert, present, Returns, returns, Returns-bind,
  Returns-mono, u32_small, u64_small, bind-eq, bit_or-high, ℤ, pos, negsuc, sub_ℕ,
  get_elem?-set_self, get_elem?-set_ne, get_elem?-in, Returns-result, Returns-assert, if-true,
  if-false, bind_assoc, Returns-ok, assert-true, Returns-after, is_ok, value_or, assert_run,
}

abbrev pub phys_addr_max : ℕ
phys_addr_max = 2 ^ 64 - 1

-- INIT_MEMBLOCK_MEMORY_REGIONS
abbrev pub init_regions : ℕ
init_regions = 32

-- struct memblock_region; the flags and the node that the callers give are 0 in all calls of the source.
pub record Region : Type 0 where
  pub base : ℕ
  pub size : ℕ
  pub nid : ℕ

pub record MemblockType : Type 0 where
  pub cnt : ℕ
  pub total_size : ℕ
  pub regions : List Region

unfoldable pub memblock_fit_size : ℕ → ℕ → ℕ
memblock_fit_size base size = min size (phys_addr_max - base)

-- The loop over the regions: the first with size 0 from index `i` on, none for -1.
unfoldable pub empty_loop : List Region → ℕ → Option ℕ
empty_loop [] i = none
empty_loop (r ∷ rs) i = let rest = empty_loop rs (i + 1) in if r.size == 0 then some i else rest

-- The writes; those at index -1 are before the array.
unfoldable pub put_region : MemblockType → Option ℕ → ℕ → ℕ → Outcome MemblockType
put_region t none base size = fault
put_region t (some i) base size = ok (record t {
  regions = set t.regions i (record { base = base; size = size; nid = 0 });
  total_size = u64 (t.total_size + size);
})

-- The ASSERT is on an empty first region.
unfoldable pub memblock_add_range : MemblockType → ℕ → ℕ → Outcome MemblockType
unfolding memblock_fit_size empty_loop put_region
memblock_add_range t base size = do
  let fit = memblock_fit_size base size
  first ← present (get_elem? t.regions 0)
  _ ← assert (not (first.size == 0) || t.cnt == 1 || t.total_size == 0)
  put_region t (empty_loop (take init_regions t.regions) 0) base fit

unfoldable pub memblock_start_of_dram : MemblockType → Outcome ℕ
memblock_start_of_dram t = do r ← present (get_elem? t.regions 0); ok r.base

unfoldable pub memblock_end_of_dram : MemblockType → Outcome ℕ
memblock_end_of_dram t = do
  r ← present (get_elem? t.regions (t.cnt - 1))
  ok (u64 (r.base + r.size))

abbrev pub pfn_up : ℕ → ℕ
pfn_up x = u64 (x + 4095) / 4096

abbrev pub pfn_down : ℕ → ℕ
pfn_down x = x / 4096

-- __next_mem_pfn_range from index `idx` on, at the regions that are left: the index, the first page and the
-- page past the last, none at the end. `nid` is the node asked for.
unfoldable pub next_mem_pfn_range : ℕ → List Region → ℕ → ℕ → Option (ℕ × ℕ × ℕ)
next_mem_pfn_range nid [] cnt idx = none
next_mem_pfn_range nid (r ∷ rs) cnt idx =
    let rest = next_mem_pfn_range nid rs cnt (idx + 1) in
    if not (ltb idx cnt)
    then none
    else if leb (pfn_down (u64 (r.base + r.size))) (pfn_up r.base)
    then rest
    else if not (nid == r.nid)
    then rest
    else some (idx, pfn_up r.base, pfn_down (u64 (r.base + r.size)))

abbrev pub max_page_order : ℕ
max_page_order = 10

-- __builtin_ffs: the place of the lowest set bit, from 1 on, and 0 for 0.
unfoldable pub ffs_loop : ℕ → ℕ → ℕ
ffs_loop zero x = 0
ffs_loop (suc fuel) x = let rest = ffs_loop fuel (x / 2) in if x % 2 == 1 then 1 else rest + 1

unfoldable pub mem_ffs : ℕ → ℕ
unfolding ffs_loop
mem_ffs x = if u32 x == 0 then 0 else ffs_loop 32 (u32 x)

-- while (start_pfn + (1UL << order) > end_pfn) order--; a shift by -1 is undefined.
unfoldable pub shrink_order : ℕ → ℕ → ℕ → Outcome ℕ
shrink_order start_pfn end_pfn zero = if ltb end_pfn (u64 (start_pfn + 1)) then fault else ok 0
shrink_order start_pfn end_pfn (suc order) =
    if ltb end_pfn (u64 (start_pfn + 2 ^ suc order))
    then shrink_order start_pfn end_pfn order
    else ok (suc order)

abbrev pub first_order : ℕ → ℕ
first_order start_pfn =
    if start_pfn == 0 then max_page_order else min max_page_order (mem_ffs start_pfn)

-- The macro of asm/page.h: the address of the page, not that of its struct page.
abbrev pub pfn_to_page : ℕ → ℕ
pfn_to_page pfn = u64 (pfn * 4096)

-- The loop within `fuel` rounds: the calls of __free_pages_core, and start_pfn after it.
unfoldable pub free_loop : ℕ → ℕ → ℕ → Outcome (List (ℕ × ℕ) × ℕ)
unfolding shrink_order
free_loop zero start_pfn end_pfn = if ltb start_pfn end_pfn then spin else ok ([], start_pfn)
free_loop (suc fuel) start_pfn end_pfn =
    if ltb start_pfn end_pfn
    then (do
      order ← shrink_order start_pfn end_pfn (first_order start_pfn)
      rest ← free_loop fuel (u64 (start_pfn + 2 ^ order)) end_pfn
      ok ((pfn_to_page start_pfn, order) ∷ rest.0, rest.1))
    else ok ([], start_pfn)

-- __free_memory_core: the calls, and what it returns.
unfoldable pub free_memory_core : ℕ → ℕ → ℕ → Outcome (List (ℕ × ℕ) × ℕ)
unfolding free_loop
free_memory_core max_low_pfn start end =
    let start_pfn = pfn_up start in
    let end_pfn = min (pfn_down end) max_low_pfn in
    if leb end_pfn start_pfn then ok ([], 0) else (do
      r ← free_loop (end_pfn - start_pfn) start_pfn end_pfn
      ok (r.0, u64 (end_pfn + 2 ^ 64 - r.1)))
