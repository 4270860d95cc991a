-- ===== src/PageTable/Mapping.antt =====
-- mm/memory.c: page_table_add, vaddr_to_paddr and free_usrpage on the three levels.
use kernel_travel.Base.{
  ℕ, ◌+◌, ◌-◌, ◌*◌, ◌/◌, ◌%◌, ◌^◌, ◌≤◌, ◌<◌, bit_and, bit_or, ◌≡◌, refl, sym, ap, ◌∙◌, subst, ◌≢◌,
  true, false, not, ◌||◌, arith, ◌==◌, if◌then◌else◌, u64, ok, panic, ◌>>=◌, Returns, returns,
  if-true, if-false, assert_run, bit_and_mask, bit_or_low, bit_and_high, bit_and_ones,
}
use kernel_travel.Pages.{Memory, dmw1_base}
use kernel_travel.Pages.Alloc.{or_window}
use kernel_travel.PageTable.{
  load, store, next_table, pgd_ptr, pmd_ptr, pte_ptr, pmd_idx, pte_idx, page_table_add,
  reverse_pmd_ptr, reverse_pte_ptr, vaddr_to_paddr, free_usrpage, page_offset,
}
use kernel_travel.PageTable.Words.{Far, Far_sym, load-store, load-store_far}
use kernel_travel.PageTable.Walk.{InWindow}

-- The three levels lead from `pd` to the entry `e` for `vaddr`, along entries with no byte in common.
pub record Mapped (m : Memory) (pd vaddr e t₁ t₂ : ℕ) : Type 0 where
  pub first : load m (pgd_ptr pd vaddr) ≡ t₁
  pub second : load m (t₁ + pmd_idx vaddr * 8) ≡ t₂
  pub entry : load m (t₂ + pte_idx vaddr * 8) ≡ e
  pub window₁ : InWindow t₁
  pub window₂ : InWindow t₂
  pub far_first : Far (t₂ + pte_idx vaddr * 8) (pgd_ptr pd vaddr)
  pub far_second : Far (t₂ + pte_idx vaddr * 8) (t₁ + pmd_idx vaddr * 8)

-- The indexes are below 512.
pub pmd_small : (v : ℕ) → pmd_idx v < 512
pmd_small v = omega (arith, bit_and_mask v 0x003fe00000)

pub pte_small : (v : ℕ) → pte_idx v < 512
pte_small v = omega (arith, bit_and_mask v 0x00001ff000)

pub no_wrap : (t i : ℕ) → InWindow t → i < 512 → u64 (t + i * 8) ≡ t + i * 8
no_wrap t i w l = omega (arith, w.1, l)

pub not_zero : (a t : ℕ) → a ≡ t → t ≢ 0 → (a == 0) ≡ false
not_zero a t same ne = ground (arith, same, ne)

pub window-ne : (t : ℕ) → InWindow t → t ≢ 0
window-ne t w e = omega (arith, w.0, e)

next_table-there :
    (m : Memory) (slot t : ℕ) → load m slot ≡ t → InWindow t → next_table m slot ≡ ok (t, m)
unfolding next_table
next_table-there m slot t e w =
    if-true _ _ (ap not (not_zero (load m slot) t e (window-ne t w)))
    ∙ ap (λ x. ok (bit_or x dmw1_base, m)) e
    ∙ ap (λ x. ok (x, m)) (or_window t w.0 (omega (arith, w.1)))

module _ (m : Memory) (pd v e t₁ t₂ : ℕ) (mapped : Mapped m pd v e t₁ t₂) where
  reverse_pmd : reverse_pmd_ptr m pd v ≡ t₁ + pmd_idx v * 8
  unfolding reverse_pmd_ptr
  reverse_pmd =
      if-false _ _ (not_zero _ t₁ mapped.first (window-ne t₁ mapped.window₁))
      ∙ ap (λ t. u64 (t + pmd_idx v * 8)) mapped.first
      ∙ no_wrap t₁ (pmd_idx v) mapped.window₁ (pmd_small v)

  entry_there : (a x t : ℕ) → dmw1_base ≤ a → x ≡ t → t ≢ 0 → (a == 0 || x == 0) ≡ false
  entry_there a x t w same ne = ground (arith, w, same, ne)

  reverse_pte : reverse_pte_ptr m pd v ≡ t₂ + pte_idx v * 8
  unfolding reverse_pte_ptr
  reverse_pte =
      ap (λ q. if q == 0 || load m q == 0 then 0 else u64 (load m q + pte_idx v * 8)) reverse_pmd
      ∙ if-false _ _ (
          entry_there (t₁ + pmd_idx v * 8) _ t₂ (omega (arith, mapped.window₁.0)) mapped.second
            (window-ne t₂ mapped.window₂))
      ∙ ap (λ t. u64 (t + pte_idx v * 8)) mapped.second
      ∙ no_wrap t₂ (pte_idx v) mapped.window₂ (pte_small v)

  pub vaddr_to_paddr-entry :
      e ≢ 0 → vaddr_to_paddr m pd v ≡ bit_or (bit_and e (2 ^ 64 - 2 ^ 12)) (page_offset v)
  unfolding vaddr_to_paddr
  vaddr_to_paddr-entry ne =
      ap
        (λ q.
          if q == 0 || load m q == 0
          then 0
          else bit_or (bit_and (load m q) (2 ^ 64 - 2 ^ 12)) (page_offset v))
        reverse_pte
      ∙ if-false _ _
          (entry_there (t₂ + pte_idx v * 8) _ e (omega (arith, mapped.window₂.0)) mapped.entry ne)
      ∙ ap (λ t. bit_or (bit_and t (2 ^ 64 - 2 ^ 12)) (page_offset v)) mapped.entry

  vaddr_to_paddr-none : e ≡ 0 → vaddr_to_paddr m pd v ≡ 0
  unfolding vaddr_to_paddr
  vaddr_to_paddr-none z =
      ap
        (λ q.
          if q == 0 || load m q == 0
          then 0
          else bit_or (bit_and (load m q) (2 ^ 64 - 2 ^ 12)) (page_offset v))
        reverse_pte
      ∙ if-true _ _ (none_there (t₂ + pte_idx v * 8) _ (mapped.entry ∙ z))
    where
      none_there : (a x : ℕ) → x ≡ 0 → (a == 0 || x == 0) ≡ true
      none_there a x e = ground (arith, e)

  pmd_ptr-there : pmd_ptr m pd v ≡ ok (t₁ + pmd_idx v * 8, m)
  unfolding pmd_ptr
  pmd_ptr-there =
      ap (λ o. do r ← o; ok (u64 (r.0 + pmd_idx v * 8), r.1))
        (next_table-there m (pgd_ptr pd v) t₁ mapped.first mapped.window₁)
      ∙ ap (λ a. ok (a, m)) (no_wrap t₁ (pmd_idx v) mapped.window₁ (pmd_small v))

  pte_ptr-there : pte_ptr m pd v ≡ ok (t₂ + pte_idx v * 8, m)
  unfolding pte_ptr
  pte_ptr-there =
      ap (λ o. do pmd ← o; r ← next_table pmd.1 pmd.0; ok (u64 (r.0 + pte_idx v * 8), r.1))
        pmd_ptr-there
      ∙ ap (λ o. do r ← o; ok (u64 (r.0 + pte_idx v * 8), r.1))
          (next_table-there m (t₁ + pmd_idx v * 8) t₂ mapped.second mapped.window₂)
      ∙ ap (λ a. ok (a, m)) (no_wrap t₂ (pte_idx v) mapped.window₂ (pte_small v))

  -- A page that is mapped is not mapped again.
  pub page_table_add-panic : e ≢ 0 → (paddr attr : ℕ) → page_table_add m pd v paddr attr ≡ panic
  unfolding page_table_add
  page_table_add-panic ne paddr attr =
      ap
        (λ o. do
          p ← o
          (if not (load p.1 p.0 == 0) then panic else ok (store p.1 p.0 (bit_or paddr attr))))
        pte_ptr-there
      ∙ if-true _ _ (ap not (not_zero _ e mapped.entry ne))

-- The entry of a mapped page is written.
pub store-Mapped :
    (m : Memory) (pd v e t₁ t₂ e' : ℕ)
    → Mapped m pd v e t₁ t₂
    → e' < 2 ^ 64
    → Mapped (store m (t₂ + pte_idx v * 8) e') pd v e' t₁ t₂
store-Mapped m pd v e t₁ t₂ e' p small =
    let pte = t₂ + pte_idx v * 8 in
    record {
      first = load-store_far m pte (pgd_ptr pd v) e' (Far_sym p.far_first) ∙ p.first;
      second = load-store_far m pte (t₁ + pmd_idx v * 8) e' (Far_sym p.far_second) ∙ p.second;
      entry = load-store m pte e' small;
      window₁ = p.window₁;
      window₂ = p.window₂;
      far_first = p.far_first;
      far_second = p.far_second;
    }

-- free_usrpage of a mapped page unmaps it.
pub free_usrpage-unmapped :
    (m : Memory) (pd v e t₁ t₂ : ℕ)
    → Mapped m pd v e t₁ t₂
    → Returns (λ m'. vaddr_to_paddr m' pd v ≡ 0) (free_usrpage m pd v)
unfolding free_usrpage
free_usrpage-unmapped m pd v e t₁ t₂ p =
    let at = reverse_pte m pd v e t₁ t₂ p in
    let there = ap not (not_zero _ (t₂ + pte_idx v * 8) at (λ z. omega (arith, p.window₂.0, z))) in
    subst (Returns _) (sym (assert_run _ there)) (
      returns (
        ap (λ q. vaddr_to_paddr (store m q 0) pd v) at
        ∙ vaddr_to_paddr-none (store m (t₂ + pte_idx v * 8) 0) pd v 0 t₁ t₂
            (store-Mapped m pd v e t₁ t₂ 0 p (omega arith)) refl))

-- What an entry of a page's address and attributes is translated to.
pub translated :
    (hi attr v : ℕ)
    → hi < 2 ^ 52
    → attr < 2 ^ 12
    → bit_or (bit_and (bit_or (hi * 2 ^ 12) attr) (2 ^ 64 - 2 ^ 12)) (page_offset v)
      ≡ hi * 2 ^ 12 + v % 2 ^ 12
translated hi attr v h l =
    let entry = bit_or_low 12 hi attr l in
    let high = bit_and_high 12 hi attr (2 ^ 52 - 1) l in
    let whole : 0 * 2 ^ 52 + hi ≡ hi = omega arith in
    let kept = ap (λ t. bit_and t (2 ^ 52 - 1)) (sym whole) ∙ bit_and_ones 52 0 hi h in
    let split : v / 2 ^ 12 * 2 ^ 12 + v % 2 ^ 12 ≡ v = omega arith in
    let offset =
      ap (λ t. bit_and t (2 ^ 12 - 1)) (sym split)
      ∙ bit_and_ones 12 (v / 2 ^ 12) (v % 2 ^ 12) (omega arith) in
    ap (λ t. bit_or (bit_and t (2 ^ 64 - 2 ^ 12)) (page_offset v)) entry
    ∙ ap (λ t. bit_or t (page_offset v)) (high ∙ ap (λ t. t * 2 ^ 12) kept)
    ∙ ap (bit_or (hi * 2 ^ 12)) offset
    ∙ bit_or_low 12 hi (v % 2 ^ 12) (omega arith)
