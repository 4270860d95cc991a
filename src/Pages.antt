-- ===== src/Pages.antt =====
-- mm/memory.c: the two page pools, phy_pool (get_page, get_pages, free_page, free_pages) and
-- reserve_phy_pool (get_kernel_pge, get_kernel_pages, free_kernel_pge), over the shared bitmap.
-- Addresses are 64-bit words. Memory is a function from addresses to bytes, since every allocation
-- clears what it hands out.
pub mod Alloc
pub mod Range
mod Tests
use kernel_travel.Base.{
  Option, ℕ, zero, suc, ◌+◌, ◌-◌, ◌*◌, ◌/◌, ◌%◌, ◌^◌, ◌≤◌, ◌<◌, min, max, bit_and, bit_or, bit_xor,
  ◌≡◌, refl, sym, ap, ◌∙◌, subst, ◌≢◌, ◌↔◌, ◌⊎◌, inl, inr, Bool, true, false, not, ◌&&◌, ◌||◌,
  Option, none, some, List, [], ◌∷◌, ◌++◌, map, arith, ltb, leb, ◌==◌, if◌then◌else◌, u32, u64,
  ==_iff, ltb→lt, lt→ltb, le→ltb, Bool-cases, Option-cases, all_below, all_below_sound, length,
  get_elem?, get_or, set, take, drop, replicate, length-append, length-set, length-replicate,
  get_elem?-eq-get_or, get_elem?-eq-none, get_or-set_self, get_or-set_ne, get_or-replicate, Outcome,
  ok, panic, fault, spin, ◌>>=◌, ◌>>◌, assert, present, Returns, returns, Returns-bind,
  Returns-mono, u32_small, u64_small, bind-eq, bit_or-high,
}
use kernel_travel.Bitmap.{Bitmap, bit_scan, bitmap_set}

-- `struct pool`
pub record Pool : Type 0 where
  pub paddr_start : ℕ
  pub btmp : Bitmap

pub record Memory : Type 0 where
  pub pool : Pool
  pub bytes : ℕ → ℕ

-- CSR_DMW1_BASE: the window that maps physical memory.
abbrev pub dmw1_base : ℕ
dmw1_base = 9 * 2 ^ 60

abbrev pub page_size : ℕ
page_size = 4096

-- memset(page, 0, size) of lib/string.c, whose size is a uint32_t
abbrev pub clear_bytes : ℕ → ℕ → (ℕ → ℕ) → ℕ → ℕ
clear_bytes page size bytes a = if leb page a && ltb a (page + u32 size) then 0 else bytes a

-- ((bit_off << 12) + paddr_start) | CSR_DMW1_BASE
unfoldable pub page_of : Pool → ℕ → ℕ
page_of p bit_off = bit_or (u64 (u64 (bit_off * 2 ^ 12) + p.paddr_start)) dmw1_base

-- `if (bit_off == -1) return 0;`
abbrev pub or_zero : Memory → Option ℕ → (ℕ → Outcome (ℕ × Memory)) → Outcome (ℕ × Memory)
or_zero m none rest = ok (0, m)
or_zero m (some bit_off) rest = rest bit_off

-- The pool with a new bitmap, and the memory with `size` bytes cleared from `page` on.
abbrev pub update : Memory → Bitmap → ℕ → ℕ → Memory
update m btmp page size = record {
  pool = record { paddr_start = m.pool.paddr_start; btmp = btmp };
  bytes = clear_bytes page size m.bytes;
}

-- The part of get_page after the search.
unfoldable pub take_page : Memory → ℕ → Outcome (ℕ × Memory)
take_page m bit_off = do
  btmp ← bitmap_set m.pool.btmp bit_off 1
  ok (page_of m.pool bit_off, update m btmp (page_of m.pool bit_off) page_size)

unfoldable pub get_page : Memory → Outcome (ℕ × Memory)
get_page m = do r ← bit_scan m.pool.btmp 1; or_zero m r (take_page m)

-- ((vaddr | CSR_DMW1_BASE) - paddr_start) >> 12
unfoldable pub bit_of : Pool → ℕ → ℕ
bit_of p vaddr = u64 (bit_or vaddr dmw1_base + 2 ^ 64 - p.paddr_start) / 2 ^ 12

unfoldable pub free_page : Memory → ℕ → Outcome Memory
free_page m vaddr = do
  let bit_off = bit_of m.pool vaddr
  assert (ltb bit_off m.pool.btmp.btmp_bytes_len)
  btmp ← bitmap_set m.pool.btmp (u32 bit_off) 0
  ok (record { pool = record { paddr_start = m.pool.paddr_start; btmp = btmp }; bytes = m.bytes })

-- for (i = 0, b = bit_off; i < count; i++, b++) bitmap_set(btmp, b, value);
unfoldable pub set_range : ℕ → ℕ → ℕ → Bitmap → Outcome Bitmap
set_range zero b value bm = ok bm
set_range (suc n) b value bm = do bm' ← bitmap_set bm (u32 b) value; set_range n (b + 1) value bm'

-- The part of get_pages after the search.
unfoldable pub take_pages : Memory → ℕ → ℕ → Outcome (ℕ × Memory)
take_pages m count bit_off = do
  btmp ← set_range count bit_off 1 m.pool.btmp
  ok (page_of m.pool bit_off, update m btmp (page_of m.pool bit_off) (page_size * count))

unfoldable pub get_pages : Memory → ℕ → Outcome (ℕ × Memory)
get_pages m count = do r ← bit_scan m.pool.btmp (u32 count); or_zero m r (take_pages m count)

-- `vstart&~CSR_DMW1_BASE - paddr_start`: the minus binds first.
unfoldable pub free_pages : Memory → ℕ → ℕ → Outcome Memory
free_pages m vstart count = do
  let mask = u64 (2 ^ 64 - 1 - dmw1_base + 2 ^ 64 - m.pool.paddr_start)
  btmp ← set_range count (bit_and vstart mask / 2 ^ 12) 0 m.pool.btmp
  ok (record { pool = record { paddr_start = m.pool.paddr_start; btmp = btmp }; bytes = m.bytes })

-- The part of get_kernel_pge after the search: the first page of reserve_phy_pool has number 6.
unfoldable pub take_kernel_pge : Memory → ℕ → Outcome (ℕ × Memory)
take_kernel_pge m bit_off = do
  btmp ← bitmap_set m.pool.btmp bit_off 1
  let page = bit_or (u64 ((bit_off + 6) * 2 ^ 12)) dmw1_base
  ok (page, update m btmp page page_size)

unfoldable pub get_kernel_pge : Memory → Outcome (ℕ × Memory)
get_kernel_pge m = do r ← bit_scan m.pool.btmp 1; or_zero m r (take_kernel_pge m)

-- get_kernel_pages is get_pages on the other pool.
unfoldable pub get_kernel_pages : Memory → ℕ → Outcome (ℕ × Memory)
unfolding get_pages
get_kernel_pages m count = get_pages m count

-- ((k_page & ~CSR_DMW1_BASE) >> 12) - 0x6, as a uint32_t
unfoldable pub kernel_bit : ℕ → ℕ
kernel_bit k_page = u32 (u64 (bit_and k_page (2 ^ 64 - 1 - dmw1_base) / 2 ^ 12 + 2 ^ 64 - 6))

unfoldable pub free_kernel_pge : Memory → ℕ → Outcome Memory
free_kernel_pge m k_page = do
  btmp ← bitmap_set m.pool.btmp (kernel_bit k_page) 1
  ok (update m btmp k_page page_size)

-- kmalloc gives out one page, whatever the size.
unfoldable pub kmalloc : Memory → ℕ → Outcome (ℕ × Memory)
unfolding get_kernel_pge
kmalloc m size = get_kernel_pge m
