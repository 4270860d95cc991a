-- ===== src/LinkedList.antt =====
-- lib/kernel/list.c: the intrusive doubly linked list of the kernel, on a store of `prev` and `next`
-- pointers. Addresses are numbers and NULL is 0; following NULL is a `fault`. The interrupt state that
-- the updates save and restore is left out: each of them is one step here.
pub mod Chain
pub mod Distinct
pub mod Update
pub mod Walk
mod Tests
use kernel_travel.Base.{
  ℕ, zero, suc, ◌+◌, ◌-◌, ◌*◌, ◌/◌, ◌%◌, ◌^◌, ◌≤◌, ◌<◌, min, max, bit_and, bit_or, bit_xor, ◌≡◌,
  refl, sym, ap, ◌∙◌, subst, ◌≢◌, ◌↔◌, ◌⊎◌, inl, inr, Bool, true, false, not, ◌&&◌, ◌||◌, Option,
  none, some, List, [], ◌∷◌, ◌++◌, map, arith, ltb, leb, ◌==◌, if◌then◌else◌, u32, u64, ==_iff,
  ltb→lt, lt→ltb, le→ltb, Bool-cases, Option-cases, all_below, all_below_sound, length, get_elem?,
  get_or, set, take, drop, replicate, length-append, length-set, length-replicate,
  get_elem?-eq-get_or, get_elem?-eq-none, get_or-set_self, get_or-set_ne, get_or-replicate, Outcome,
  ok, panic, fault, spin, ◌>>=◌, ◌>>◌, assert, present, Returns, returns, Returns-bind,
  Returns-mono, u32_small, u64_small, bind-eq, bit_or-high,
}

-- The two fields of the `struct list_elem` at each address.
pub record Store : Type 0 where
  pub prev : ℕ → ℕ
  pub next : ℕ → ℕ

-- `struct list`: the addresses of its two sentinels.
pub record Queue : Type 0 where
  pub head : ℕ
  pub tail : ℕ

abbrev pub update : (ℕ → ℕ) → ℕ → ℕ → ℕ → ℕ
update f p v q = if q == p then v else f q

-- p->next, p->prev, and writes through them
abbrev pub get_next : Store → ℕ → Outcome ℕ
get_next s p = if p == 0 then fault else ok (s.next p)

abbrev pub get_prev : Store → ℕ → Outcome ℕ
get_prev s p = if p == 0 then fault else ok (s.prev p)

abbrev pub set_next : Store → ℕ → ℕ → Outcome Store
set_next s p v = if p == 0 then fault else ok (record s { next = update s.next p v })

abbrev pub set_prev : Store → ℕ → ℕ → Outcome Store
set_prev s p v = if p == 0 then fault else ok (record s { prev = update s.prev p v })

unfoldable pub list_init : Store → Queue → Outcome Store
list_init s l = do
  s ← set_prev s l.head 0
  s ← set_next s l.head l.tail
  s ← set_prev s l.tail l.head
  set_next s l.tail 0

unfoldable pub list_insert_before : Store → ℕ → ℕ → Outcome Store
list_insert_before s before elm = do
  p ← get_prev s before
  s ← set_next s p elm
  p ← get_prev s before
  s ← set_prev s elm p
  s ← set_next s elm before
  set_prev s before elm

unfoldable pub list_push : Store → Queue → ℕ → Outcome Store
unfolding list_insert_before
list_push s plist elm = do first ← get_next s plist.head; list_insert_before s first elm

unfoldable pub list_append : Store → Queue → ℕ → Outcome Store
unfolding list_insert_before
list_append s plist elm = list_insert_before s plist.tail elm

unfoldable pub list_remove : Store → ℕ → Outcome Store
list_remove s elm = do
  p ← get_prev s elm
  q ← get_next s elm
  s ← set_next s p q
  q ← get_next s elm
  p ← get_prev s elm
  set_prev s q p

unfoldable pub list_pop : Store → Queue → Outcome (ℕ × Store)
unfolding list_remove
list_pop s plist = do
  ret ← get_next s plist.head
  first ← get_next s plist.head
  s ← list_remove s first
  ok (ret, s)

unfoldable pub list_tail : Store → Queue → Outcome (ℕ × Store)
unfolding list_remove
list_tail s plist = do
  ret ← get_prev s plist.tail
  last ← get_prev s plist.tail
  s ← list_remove s last
  ok (ret, s)

unfoldable pub list_empty : Store → Queue → Outcome Bool
list_empty s plist = do first ← get_next s plist.head; ok (first == plist.tail)

-- The walks take as many rounds as the caller gives; `spin` says that these were too few.
unfoldable pub len_loop : ℕ → Store → ℕ → ℕ → ℕ → Outcome ℕ
len_loop zero s elm stop len = spin
len_loop (suc fuel) s elm stop len = elim (elm == stop) [
  | true ↦ ok len
  | false ↦ do elm' ← get_next s elm; len_loop fuel s elm' stop (u32 (len + 1))
]

unfoldable pub list_len : ℕ → Store → Queue → Outcome ℕ
unfolding len_loop
list_len fuel s plist = do first ← get_next s plist.head; len_loop fuel s first plist.tail 0

-- `func` with its argument is a test on the element.
unfoldable pub traversal_loop : ℕ → Store → (ℕ → Bool) → ℕ → ℕ → Outcome (Option ℕ)
traversal_loop zero s func ret stop = spin
traversal_loop (suc fuel) s func ret stop = elim (ret == stop) [
  | true ↦ ok none
  | false ↦ elim (func ret) [
    | true ↦ ok (some ret)
    | false ↦ do ret' ← get_next s ret; traversal_loop fuel s func ret' stop
  ]
]

unfoldable pub list_traversal : ℕ → Store → Queue → (ℕ → Bool) → Outcome (Option ℕ)
unfolding traversal_loop
list_traversal fuel s plist func = do
  first ← get_next s plist.head
  traversal_loop fuel s func first plist.tail

unfoldable pub reverse_loop : ℕ → Store → (ℕ → Bool) → ℕ → ℕ → Outcome (Option ℕ)
reverse_loop zero s func ret stop = spin
reverse_loop (suc fuel) s func ret stop = elim (ret == stop) [
  | true ↦ ok none
  | false ↦ elim (func ret) [
    | true ↦ ok (some ret)
    | false ↦ do ret' ← get_prev s ret; reverse_loop fuel s func ret' stop
  ]
]

unfoldable pub list_reverse : ℕ → Store → Queue → (ℕ → Bool) → Outcome (Option ℕ)
unfolding reverse_loop
list_reverse fuel s plist func = do
  last ← get_prev s plist.tail
  reverse_loop fuel s func last plist.head

unfoldable pub find_loop : ℕ → Store → ℕ → ℕ → ℕ → Outcome Bool
find_loop zero s obj_elem ret stop = spin
find_loop (suc fuel) s obj_elem ret stop = elim (ret == stop) [
  | true ↦ ok false
  | false ↦ elim (ret == obj_elem) [
    | true ↦ ok true
    | false ↦ do ret' ← get_next s ret; find_loop fuel s obj_elem ret' stop
  ]
]

unfoldable pub elem_find : ℕ → Store → Queue → ℕ → Outcome Bool
unfolding find_loop
elem_find fuel s plist obj_elem = do
  first ← get_next s plist.head
  find_loop fuel s obj_elem first plist.tail
