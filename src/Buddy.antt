-- ===== src/Buddy.antt =====
-- mm/memory.c and include/xkernel/memory.h: the buddy allocator of a zone. A page is its page frame number,
-- the entry of mem_map at ARCH_PFN_OFFSET less; mem_map is taken to have an entry for every number.
-- Every caller asks for MIGRATE_UNMOVABLE, so a free area has one list.
pub mod Cover
pub mod Valid
pub mod Change
pub mod Alloc
pub mod Take
pub mod Free
pub mod RoundTrip
mod Tests
use kernel_travel.Base.{
  ℕ, zero, suc, ◌+◌, ◌-◌, ◌*◌, ◌/◌, ◌%◌, ◌^◌, ◌≤◌, ◌<◌, min, max, bit_and, bit_or, bit_xor, ◌≡◌,
  refl, sym, ap, ◌∙◌, subst, ◌≢◌, ◌↔◌, ◌⊎◌, inl, inr, Bool, true, false, not, ◌&&◌, ◌||◌, Option,
  none, some, List, [], ◌∷◌, ◌++◌, map, arith, ltb, leb, ◌==◌, if◌then◌else◌, u32, u64, ==_iff,
  ltb→lt, lt→ltb, le→ltb, Bool-cases, Option-cases, all_below, all_below_sound, length, get_elem?,
  get_or, set, take, drop, replicate, length-append, length-set, length-replicate,
  get_elem?-eq-get_or, get_elem?-eq-none, get_or-set_self, get_or-set_ne, get_or-replicate, Outcome,
  ok, panic, fault, spin, ◌>>=◌, ◌>>◌, assert, present, Returns, returns, Returns-bind,
  Returns-mono, u32_small, u64_small, bind-eq, bit_or-high, ℤ, pos, negsuc, sub_ℕ,
  get_elem?-set_self, get_elem?-set_ne, get_elem?-in, Returns-result, Returns-assert, if-true,
  if-false, bind_assoc, Returns-ok, assert-true, Returns-after, is_ok, value_or, assert_run,
  bind_ok,
}
use kernel_travel.Boot.{max_page_order}
use kernel_travel.LinkedList.Chain.{elem}

-- MAX_ORDER + 1, the number of free areas
abbrev pub free_areas : ℕ
free_areas = 11

abbrev pub migrate_unmovable : ℕ
migrate_unmovable = 0

-- The parts of `struct zone` and `struct page` that the allocator uses: the pages in each free list, in
-- order, nr_free of each area, and the pages' private and index.
pub record Zone : Type 0 where
  pub initialized : Bool
  pub free_list : ℕ → List ℕ
  pub nr_free : ℕ → ℕ
  pub private : ℕ → ℕ
  pub index : ℕ → ℕ

abbrev pub put {ℓ} : {A : Type ℓ} → (ℕ → A) → ℕ → A → ℕ → A
put f k v q = if q == k then v else f q

abbrev pub remove : ℕ → List ℕ → List ℕ
remove page [] = []
remove page (x ∷ xs) = if x == page then xs else x ∷ remove page xs

-- The page is in one of the first `n` lists.
abbrev pub listed_in : ℕ → (ℕ → List ℕ) → ℕ → Bool
listed_in zero free_list page = false
listed_in (suc n) free_list page = elem page (free_list n) || listed_in n free_list page

abbrev pub is_listed : Zone → ℕ → Bool
is_listed z page = listed_in free_areas z.free_list page

-- The loop of zone_init_free_lists over the first `n` orders.
abbrev pub init_lists : ℕ → Zone → Zone
init_lists zero z = z
init_lists (suc n) z =
    let before = init_lists n z in
    record before { free_list = put before.free_list n []; nr_free = put before.nr_free n 0 }

unfoldable pub zone_init_free_lists : Zone → Zone
zone_init_free_lists z = init_lists free_areas z

unfoldable pub set_page_private : Zone → ℕ → ℕ → Zone
set_page_private z page value = record z { private = put z.private page value }

-- A test of a pointer for NULL.
abbrev pub or_null {ℓ} : {A : Type ℓ} → Option ℕ → A → (ℕ → A) → A
or_null none missing there = missing
or_null (some page) missing there = there page

-- list_del takes the page out of the list that it is in. The links of a page in no list are NULL or poison.
unfoldable pub list_del : Zone → ℕ → Outcome Zone
list_del z page =
    if is_listed z page
    then ok (record z { free_list = λ o. remove page (z.free_list o) })
    else fault

unfoldable pub del_page_from_free_list : Zone → ℕ → ℕ → Outcome Zone
unfolding list_del set_page_private
del_page_from_free_list z page order = do
  unlinked ← list_del z page
  let cleared = set_page_private unlinked page 0
  ok (record cleared {
    nr_free = put cleared.nr_free order (u64 (cleared.nr_free order + 2 ^ 64 - 1));
  })

-- list_add and list_add_tail at the list of an order. To add a page that is in a list breaks that list.
abbrev pub link_in : Zone → ℕ → ℕ → List ℕ → Outcome Zone
link_in z page order longer =
    if is_listed z page
    then fault
    else ok (record z {
      free_list = put z.free_list order longer;
      nr_free = put z.nr_free order (u64 (z.nr_free order + 1));
    })

unfoldable pub add_to_free_list_tail : Zone → ℕ → ℕ → Outcome Zone
add_to_free_list_tail z page order = link_in z page order (z.free_list order ++ page ∷ [])

unfoldable pub add_to_free_list : Zone → ℕ → ℕ → Outcome Zone
add_to_free_list z page order = link_in z page order (page ∷ z.free_list order)

unfoldable pub find_buddy_pfn : ℕ → ℕ → ℕ
find_buddy_pfn page_pfn order = bit_xor page_pfn (2 ^ order)

unfoldable pub buddy_order : Zone → ℕ → ℕ
buddy_order z page = u32 (z.private page)

unfoldable pub page_is_buddy : Zone → ℕ → ℕ → Bool
unfolding buddy_order
page_is_buddy z buddy order = if not (buddy_order z buddy == order) then false else true

unfoldable pub find_buddy_page_pfn : Zone → ℕ → ℕ → Option ℕ
unfolding find_buddy_pfn page_is_buddy
find_buddy_page_pfn z pfn order =
    let buddy = find_buddy_pfn pfn order in if page_is_buddy z buddy order then some buddy else none

unfoldable pub buddy_merge_likely : Zone → ℕ → ℕ → ℕ → Bool
unfolding find_buddy_page_pfn
buddy_merge_likely z pfn buddy_pfn order =
    if leb (max_page_order - 1) order
    then false
    else (let higher_page_pfn = bit_and buddy_pfn pfn in
        or_null (find_buddy_page_pfn z higher_page_pfn (order + 1)) false (λ buddy. true))

-- What the loop of free_one_page leaves: the zone, pfn, order and buddy_pfn.
pub record Merge : Type 0 where
  pub zone : Zone
  pub pfn : ℕ
  pub order : ℕ
  pub buddy_pfn : ℕ

-- The loop of free_one_page, for at most `left` rounds: MAX_PAGE_ORDER - order are enough.
unfoldable pub merge_loop : ℕ → Merge → Outcome Merge
unfolding find_buddy_page_pfn del_page_from_free_list
merge_loop zero m = if ltb m.order max_page_order then spin else ok m
merge_loop (suc left) m =
    if not (ltb m.order max_page_order)
    then ok m
    else (let tried = record m { buddy_pfn = find_buddy_pfn m.pfn m.order } in
        or_null (find_buddy_page_pfn m.zone m.pfn m.order) (ok tried) (λ buddy. do
          z ← del_page_from_free_list m.zone buddy m.order
          merge_loop left (record tried {
            zone = z;
            pfn = bit_and tried.buddy_pfn m.pfn;
            order = suc m.order;
          })))

-- `to_tail` is fpi_flags == FPI_TO_TAIL.
unfoldable pub free_one_page : Zone → ℕ → ℕ → Bool → Outcome Zone
unfolding merge_loop set_page_private buddy_merge_likely add_to_free_list_tail add_to_free_list
free_one_page zone pfn order fpi_to_tail = do
  assert zone.initialized
  m ←
      merge_loop (max_page_order - order)
        (record { zone = zone; pfn = pfn; order = order; buddy_pfn = 0 })
  let z = set_page_private m.zone m.pfn m.order
  (if fpi_to_tail || buddy_merge_likely z m.pfn m.buddy_pfn m.order
      then add_to_free_list_tail z m.pfn m.order
      else add_to_free_list z m.pfn m.order)

unfoldable pub free_pages_core : Zone → ℕ → ℕ → Outcome Zone
unfolding free_one_page
free_pages_core z page order = free_one_page z page order true

-- list_first_entry_or_null
unfoldable pub get_page_from_free_area : List ℕ → Option ℕ
get_page_from_free_area [] = none
get_page_from_free_area (page ∷ pages) = some page

-- `size` is 1 << high.
unfoldable pub expand_loop : Zone → ℕ → ℕ → ℕ → ℕ → Outcome Zone
unfolding add_to_free_list set_page_private
expand_loop z page low zero size = ok z
expand_loop z page low (suc high) size = if not (ltb low (suc high)) then ok z else (do
  added ← add_to_free_list z (page + size / 2) high
  expand_loop (set_page_private added (page + size / 2) high) page low high (size / 2))

unfoldable pub expand : Zone → ℕ → ℕ → ℕ → Outcome Zone
unfolding expand_loop
expand z page low high = expand_loop z page low high (2 ^ high)

-- The loop of __rmqueue_smallest with `left` areas to go, the next being `current_order`.
unfoldable pub smallest_loop : ℕ → Zone → ℕ → ℕ → Outcome (Option ℕ × Zone)
unfolding get_page_from_free_area del_page_from_free_list expand
smallest_loop zero z order current_order = ok (none, z)
smallest_loop (suc left) z order current_order =
    or_null (get_page_from_free_area (z.free_list current_order))
      (smallest_loop left z order (current_order + 1))
      (λ page. do
        deleted ← del_page_from_free_list z page current_order
        expanded ← expand deleted page order current_order
        ok (some page, record expanded { index = put expanded.index page migrate_unmovable }))

unfoldable pub rmqueue_smallest : Zone → ℕ → Outcome (Option ℕ × Zone)
unfolding smallest_loop
rmqueue_smallest z order = smallest_loop (free_areas - order) z order order

-- __rmqueue: `goto retry` for at most `fuel` rounds.
unfoldable pub rmqueue_retry : ℕ → Zone → ℕ → Outcome (ℕ × Zone)
unfolding rmqueue_smallest
rmqueue_retry zero z order = spin
rmqueue_retry (suc fuel) z order = do
  r ← rmqueue_smallest z order
  or_null r.0 (rmqueue_retry fuel r.1 order) (λ page. ok (page, r.1))

-- __alloc_pages, with the zone that get_page_from_freelist takes; rmqueue is a call of __rmqueue, which
-- never returns NULL.
unfoldable pub alloc_pages : ℕ → Zone → ℕ → Outcome (Option ℕ × Zone)
unfolding rmqueue_retry
alloc_pages fuel z order =
    if ltb max_page_order order
    then ok (none, z)
    else (do r ← rmqueue_retry fuel z order; ok (some r.0, r.1))
