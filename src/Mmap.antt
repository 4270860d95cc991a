-- ===== src/Mmap.antt =====
-- mm/mmap.c: the areas of a process. `mm_rb` is the search tree, `mmap` the list of the same areas that
-- vm_next links. An area is known by its addresses. How a new area enters the tree (lib/rbtree.c) is not
-- modelled.
pub mod Tree
pub mod Gap
pub mod Place
mod Tests
use kernel_travel.Base.{
  ℕ, zero, suc, ◌+◌, ◌-◌, ◌*◌, ◌/◌, ◌%◌, ◌^◌, ◌≤◌, ◌<◌, min, max, bit_and, bit_or, bit_xor, ◌≡◌,
  refl, sym, ap, ◌∙◌, subst, ◌≢◌, ◌↔◌, ◌⊎◌, inl, inr, Bool, true, false, not, ◌&&◌, ◌||◌, Option,
  none, some, List, [], ◌∷◌, ◌++◌, map, arith, ltb, leb, ◌==◌, if◌then◌else◌, u32, u64, ==_iff,
  ltb→lt, lt→ltb, le→ltb, Bool-cases, Option-cases, all_below, all_below_sound, length, get_elem?,
  get_or, set, take, drop, replicate, length-append, length-set, length-replicate,
  get_elem?-eq-get_or, get_elem?-eq-none, get_or-set_self, get_or-set_ne, get_or-replicate, Outcome,
  ok, panic, fault, spin, ◌>>=◌, ◌>>◌, assert, present, Returns, returns, Returns-bind,
  Returns-mono, u32_small, u64_small, bind-eq, bit_or-high, ℤ, pos, negsuc, sub_ℕ,
  get_elem?-set_self, get_elem?-set_ne, get_elem?-in,
}

pub record Vma : Type 0 where
  pub vm_start : ℕ
  pub vm_end : ℕ

pub data Rb : Type 0 where
  leaf : Rb
  node : (rb_left : Rb) (vma : Vma) (rb_right : Rb) → Rb

-- the fields of `struct mm_struct` that the search for an area uses
pub record Mm : Type 0 where
  pub mmap : List Vma
  pub mm_rb : Rb
  pub mmap_cache : Option Vma
  pub free_area_cache : ℕ

abbrev pub task_size : ℕ
task_size = 0x00007fffffffffff

abbrev pub mmap_min_addr : ℕ
mmap_min_addr = task_size / 3

abbrev pub max_address_space_size : ℕ
max_address_space_size = 0xffffffffffffffff

abbrev pub task_unmapped_base : ℕ
task_unmapped_base = 0x800000000

abbrev pub map_fixed : ℕ
map_fixed = 0x10

unfoldable pub page_align : ℕ → ℕ
page_align addr = u64 (addr + 4095) / 4096 * 4096

-- The loop of find_vma, from a node on, with the area found so far.
unfoldable pub find_loop : Rb → ℕ → Option Vma → Option Vma
find_loop leaf addr vma = vma
find_loop (node left v right) addr vma =
    let in_left = find_loop left addr (some v) in
    let in_right = find_loop right addr vma in
    if ltb addr v.vm_end then (if leb v.vm_start addr then some v else in_left) else in_right

abbrev pub contains : Vma → ℕ → Bool
contains v addr = ltb addr v.vm_end && leb v.vm_start addr

-- What find_vma found in the tree is kept in the cache.
abbrev pub remember : Mm → Option Vma → Option Vma × Mm
remember mm none = (none, mm)
remember mm (some v) = (some v, record mm { mmap_cache = some v })

unfoldable pub search_tree : Mm → ℕ → Option Vma × Mm
unfolding find_loop
search_tree mm addr = remember mm (find_loop mm.mm_rb addr none)

-- The memory descriptor is there; the cache is tried before the tree.
unfoldable pub find_cached : Mm → Option Vma → ℕ → Option Vma × Mm
unfolding search_tree
find_cached mm none addr = search_tree mm addr
find_cached mm (some v) addr = if contains v addr then (some v, mm) else search_tree mm addr

unfoldable pub find_vma : Mm → ℕ → Option Vma × Mm
unfolding find_cached
find_vma mm addr = find_cached mm mm.mmap_cache addr

-- What find_vma_prepare sets: the area, and where it does not return early the area before. The place
-- in the tree (rb_link, rb_parent) is not shown. An early return leaves `prev` as it was, which
-- is `unset`.
pub data Prev : Type 0 where
  unset : Prev
  set_to : Option Vma → Prev

unfoldable pub prepare_loop : Rb → ℕ → Option Vma → Option Vma → Option Vma × Prev
prepare_loop leaf addr vma prev = (vma, set_to prev)
prepare_loop (node left v right) addr vma prev =
    let in_left = prepare_loop left addr (some v) prev in
    let in_right = prepare_loop right addr vma (some v) in
    if ltb addr v.vm_end
    then (if leb v.vm_start addr then (some v, unset) else in_left)
    else in_right

unfoldable pub find_vma_prepare : Mm → ℕ → Option Vma × Prev
unfolding prepare_loop
find_vma_prepare mm addr = prepare_loop mm.mm_rb addr none none

-- The areas from `vma` on along vm_next.
unfoldable pub areas_from : List Vma → Option Vma → List Vma
areas_from areas none = []
areas_from [] (some v) = []
areas_from (a ∷ areas) (some v) =
    if a.vm_start == v.vm_start then a ∷ areas else areas_from areas (some v)

-- One pass of the loop under full_search: the address of the gap, or none where an address is too high.
unfoldable pub gap_loop : List Vma → ℕ → ℕ → Option ℕ
gap_loop [] len addr = if ltb (max_address_space_size - len) addr then none else some addr
gap_loop (v ∷ areas) len addr =
    let rest = gap_loop areas len v.vm_end in
    if ltb (max_address_space_size - len) addr
    then none
    else if leb (u64 (addr + len)) v.vm_start
    then some addr
    else rest

-- The gap found moves free_area_cache.
abbrev pub keep_gap : Mm → ℕ → Option ℕ → Option ℕ × Mm
keep_gap mm len none = (none, mm)
keep_gap mm len (some gap) = (some gap, record mm { free_area_cache = u64 (gap + len) })

unfoldable pub full_search : Mm → ℕ → ℕ → Option ℕ × Mm
unfolding find_vma areas_from gap_loop
full_search mm len addr =
    let (vma, mm') = find_vma mm addr in
    keep_gap mm' len (gap_loop (areas_from mm'.mmap vma) len addr)

-- The address returned: -1 where there is none.
abbrev pub address_of : Option ℕ × Mm → ℕ × Mm
address_of (none, mm) = (2 ^ 64 - 1, mm)
address_of (some addr, mm) = (addr, mm)

-- A search that failed is done once more from TASK_UNMAPPED_BASE, unless it began there.
abbrev pub search_again : ℕ → ℕ → Option ℕ × Mm → ℕ × Mm
unfolding full_search
search_again start_addr len (some addr, mm) = (addr, mm)
search_again start_addr len (none, mm) =
    if start_addr == task_unmapped_base
    then (2 ^ 64 - 1, mm)
    else address_of (full_search mm len task_unmapped_base)

unfoldable pub search_gap : Mm → ℕ → ℕ × Mm
unfolding full_search
search_gap mm len = search_again mm.free_area_cache len (full_search mm len mm.free_area_cache)

abbrev pub below_next : Option Vma → ℕ → Bool
below_next none last = true
below_next (some v) last = leb last v.vm_start

-- The wish for an address: taken if it is free.
unfoldable pub try_hint : Mm → ℕ → ℕ → ℕ × Mm
unfolding find_vma search_gap
try_hint mm hint len =
    let (vma, mm') = find_vma mm hint in
    if leb hint (max_address_space_size - len) && below_next vma (u64 (hint + len))
    then (hint, mm')
    else search_gap mm' len

-- -ENOMEM is 2 ^ 64 - 12.
unfoldable pub get_unmapped_area : Mm → ℕ → ℕ → ℕ → ℕ × Mm
unfolding page_align search_gap try_hint
get_unmapped_area mm addr len flags =
    if ltb (task_size - mmap_min_addr) len
    then (2 ^ 64 - 12, mm)
    else if not (bit_and flags map_fixed == 0)
    then (addr, mm)
    else if addr == 0
    then search_gap mm len
    else try_hint mm (page_align addr) len
