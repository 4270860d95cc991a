-- ===== src/PageTable.antt =====
-- mm/memory.c: the page tables, three levels of 512 entries. A table is a page of the pool, read and written
-- in memory as 64-bit words, the lowest byte first. The flush of the TLB is not shown.
pub mod Words
pub mod Walk
pub mod Mapping
pub mod Add
mod Tests
use kernel_travel.Base.{
  ℕ, zero, suc, ◌+◌, ◌-◌, ◌*◌, ◌/◌, ◌%◌, ◌^◌, ◌≤◌, ◌<◌, min, max, bit_and, bit_or, bit_xor, ◌≡◌,
  refl, sym, ap, ◌∙◌, subst, ◌≢◌, ◌↔◌, ◌⊎◌, inl, inr, Bool, true, false, not, ◌&&◌, ◌||◌, Option,
  none, some, List, [], ◌∷◌, ◌++◌, map, arith, ltb, leb, ◌==◌, if◌then◌else◌, u32, u64, ==_iff,
  ltb→lt, lt→ltb, le→ltb, Bool-cases, Option-cases, all_below, all_below_sound, length, get_elem?,
  get_or, set, take, drop, replicate, length-append, length-set, length-replicate,
  get_elem?-eq-get_or, get_elem?-eq-none, get_or-set_self, get_or-set_ne, get_or-replicate, Outcome,
  ok, panic, fault, spin, ◌>>=◌, ◌>>◌, assert, present, Returns, returns, Returns-bind,
  Returns-mono, u32_small, u64_small, bind-eq, bit_or-high, ℤ, pos, negsuc, sub_ℕ,
  get_elem?-set_self, get_elem?-set_ne, get_elem?-in, Returns-result, Returns-assert, if-true,
  if-false, bind_assoc, Returns-ok, assert-true, Returns-after, is_ok, value_or, assert_run,
  bind_ok, flip_digit, pow_double, pow_pos,
}
use kernel_travel.Bitmap.{Bitmap, bitmap_set}
use kernel_travel.Pages.{Memory, dmw1_base, page_size, get_page}

-- Reads and writes through a u64 pointer.
abbrev pub load : Memory → ℕ → ℕ
load m a =
    m.bytes a
    + (2 ^ 8 * m.bytes (a + 1)
        + (2 ^ 16 * m.bytes (a + 2)
            + (2 ^ 24 * m.bytes (a + 3)
                + (2 ^ 32 * m.bytes (a + 4)
                    + (2 ^ 40 * m.bytes (a + 5)
                        + (2 ^ 48 * m.bytes (a + 6) + 2 ^ 56 * m.bytes (a + 7)))))))

-- Byte `i` of a word.
abbrev pub byte_of : ℕ → ℕ → ℕ
byte_of v i = v / 2 ^ (8 * i) % 2 ^ 8

abbrev pub store : Memory → ℕ → ℕ → Memory
store m a v = record m {
  bytes = λ q. if leb a q && ltb q (a + 8) then byte_of v (q - a) else m.bytes q;
}

abbrev pub entry_size : ℕ
entry_size = 8

abbrev pub pgd_idx : ℕ → ℕ
pgd_idx addr = bit_and addr 0x7fc0000000 / 2 ^ 30

abbrev pub pmd_idx : ℕ → ℕ
pmd_idx addr = bit_and addr 0x003fe00000 / 2 ^ 21

abbrev pub pte_idx : ℕ → ℕ
pte_idx addr = bit_and addr 0x00001ff000 / 2 ^ 12

abbrev pub page_offset : ℕ → ℕ
page_offset addr = bit_and addr 0xfff

-- PTE_V | PTE_PLV | PTE_D
abbrev pub usr_attr : ℕ
usr_attr = 15

unfoldable pub pgd_ptr : ℕ → ℕ → ℕ
pgd_ptr pd vaddr = u64 (pd + pgd_idx vaddr * entry_size)

-- The table that the entry at `slot` leads to; where there is none, a new page, entered there.
unfoldable pub next_table : Memory → ℕ → Outcome (ℕ × Memory)
unfolding get_page
next_table m slot =
    if not (load m slot == 0)
    then ok (bit_or (load m slot) dmw1_base, m)
    else (do r ← get_page m; ok (r.0, store r.1 slot r.0))

unfoldable pub pmd_ptr : Memory → ℕ → ℕ → Outcome (ℕ × Memory)
unfolding pgd_ptr next_table
pmd_ptr m pd vaddr = do
  r ← next_table m (pgd_ptr pd vaddr)
  ok (u64 (r.0 + pmd_idx vaddr * entry_size), r.1)

unfoldable pub pte_ptr : Memory → ℕ → ℕ → Outcome (ℕ × Memory)
unfolding pmd_ptr next_table
pte_ptr m pd vaddr = do
  pmd ← pmd_ptr m pd vaddr
  r ← next_table pmd.1 pmd.0
  ok (u64 (r.0 + pte_idx vaddr * entry_size), r.1)

unfoldable pub page_table_add : Memory → ℕ → ℕ → ℕ → ℕ → Outcome Memory
unfolding pte_ptr
page_table_add m pd vaddr paddr attr = do
  pte ← pte_ptr m pd vaddr
  (if not (load pte.1 pte.0 == 0) then panic else ok (store pte.1 pte.0 (bit_or paddr attr)))

unfoldable pub reverse_pmd_ptr : Memory → ℕ → ℕ → ℕ
unfolding pgd_ptr
reverse_pmd_ptr m pd vaddr =
    let pgd = pgd_ptr pd vaddr in
    if load m pgd == 0 then 0 else u64 (load m pgd + pmd_idx vaddr * entry_size)

unfoldable pub reverse_pte_ptr : Memory → ℕ → ℕ → ℕ
unfolding reverse_pmd_ptr
reverse_pte_ptr m pd vaddr =
    let pmd = reverse_pmd_ptr m pd vaddr in
    if pmd == 0 || load m pmd == 0 then 0 else u64 (load m pmd + pte_idx vaddr * entry_size)

-- (*pte & ~0xfff) | PAGE_OFFSET(vaddr), or 0 where there is no entry
unfoldable pub vaddr_to_paddr : Memory → ℕ → ℕ → ℕ
unfolding reverse_pte_ptr
vaddr_to_paddr m pd vaddr =
    let pte = reverse_pte_ptr m pd vaddr in
    if pte == 0 || load m pte == 0
    then 0
    else bit_or (bit_and (load m pte) (2 ^ 64 - 2 ^ 12)) (page_offset vaddr)

unfoldable pub free_usrpage : Memory → ℕ → ℕ → Outcome Memory
unfolding reverse_pte_ptr
free_usrpage m pd vaddr = do
  assert (not (reverse_pte_ptr m pd vaddr == 0))
  ok (store m (reverse_pte_ptr m pd vaddr) 0)

unfoldable pub malloc_usrpage_withoutopmap : Memory → ℕ → ℕ → Outcome Memory
unfolding get_page page_table_add
malloc_usrpage_withoutopmap m pd vaddr = do r ← get_page m; page_table_add r.1 pd vaddr r.0 usr_attr

-- `struct virt_addr`
pub record VirtAddr : Type 0 where
  pub vaddr_start : ℕ
  pub btmp : Bitmap

-- `usrprog_vaddr` is that of the running thread.
unfoldable pub malloc_usrpage : Memory → VirtAddr → ℕ → ℕ → Outcome (VirtAddr × Memory)
unfolding get_page page_table_add
malloc_usrpage m usrprog_vaddr pd vaddr = do
  r ← get_page m
  m' ← page_table_add r.1 pd vaddr r.0 usr_attr
  let bit_idx = u64 (vaddr + 2 ^ 64 - usrprog_vaddr.vaddr_start) / page_size
  btmp ← bitmap_set usrprog_vaddr.btmp (u32 bit_idx) 1
  ok (record usrprog_vaddr { btmp = btmp }, m')
