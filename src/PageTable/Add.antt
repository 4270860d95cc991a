-- ===== src/PageTable/Add.antt =====
-- mm/memory.c: page_table_add, with the tables that it makes.
use kernel_travel.Base.{
  ℕ, ◌+◌, ◌*◌, ◌%◌, ◌^◌, ◌≤◌, ◌<◌, bit_or, ◌≡◌, sym, ap, ◌∙◌, subst, ◌≢◌, inl, inr, false, not,
  arith, ◌==◌, if◌then◌else◌, u64, ok, panic, ◌>>=◌, Returns, returns, Returns-bind, if-false,
  bit_or_low,
}
use kernel_travel.Pages.{Memory}
use kernel_travel.Pages.Alloc.{IsValid}
use kernel_travel.PageTable.{
  load, store, next_table, pgd_ptr, pmd_ptr, pte_ptr, pmd_idx, pte_idx, page_table_add,
  vaddr_to_paddr, free_usrpage,
}
use kernel_travel.PageTable.Words.{Far, Far_sym}
use kernel_travel.PageTable.Walk.{Apart, InWindow, TwoFree, Next, next_table-Next}
use kernel_travel.PageTable.Mapping.{
  Mapped, vaddr_to_paddr-entry, page_table_add-panic, free_usrpage-unmapped, translated,
  store-Mapped, no_wrap, pmd_small, pte_small,
}

-- The last level, where a table of it is there at `t`: the table is a page in use, and the entry is free
-- and no part of the entries before.
abbrev pub LastLevel : Memory → ℕ → ℕ → ℕ → ℕ → Type 0
LastLevel m first second vaddr t =
    InWindow t
    × Apart m (t + pte_idx vaddr * 8)
    × Far (t + pte_idx vaddr * 8) first
    × Far (t + pte_idx vaddr * 8) second
    × (load m (t + pte_idx vaddr * 8) ≡ 0)

-- The level before, where a table of it is there at `t`.
abbrev pub MiddleLevel : Memory → ℕ → ℕ → ℕ → Type 0
MiddleLevel m first vaddr t =
    InWindow t
    × Apart m (t + pmd_idx vaddr * 8)
    × Far (t + pmd_idx vaddr * 8) first
    × (load m (t + pmd_idx vaddr * 8) ≢ 0
        → LastLevel m first (t + pmd_idx vaddr * 8) vaddr (load m (t + pmd_idx vaddr * 8)))

-- `vaddr` is not mapped, and the tables on the way to its entry are pages in use.
pub record Unmapped (m : Memory) (pd vaddr : ℕ) : Type 0 where
  pub valid : IsValid m.pool
  pub root : Apart m (pgd_ptr pd vaddr)
  pub levels :
      load m (pgd_ptr pd vaddr) ≢ 0
      → MiddleLevel m (pgd_ptr pd vaddr) vaddr (load m (pgd_ptr pd vaddr))

-- What is known of the table that the first level leads to.
middle :
    (m : Memory) (pd v t₁ : ℕ) (m₁ : Memory)
    → Unmapped m pd v
    → Next m (pgd_ptr pd v) (pmd_idx v) t₁ m₁
    → Far (t₁ + pmd_idx v * 8) (pgd_ptr pd v)
      × (load m₁ (t₁ + pmd_idx v * 8) ≢ 0
          → LastLevel m₁ (pgd_ptr pd v) (t₁ + pmd_idx v * 8) v (load m₁ (t₁ + pmd_idx v * 8)))
middle m pd v t₁ m₁ u n = elim (n.child) [
  | inl (fresh, far) ↦ (far (pgd_ptr pd v) u.root, λ there. absurd (there fresh))
  | inr (same, at, there) ↦
      let known = u.levels there in
      subst
        (λ w.
          Far (t₁ + pmd_idx v * 8) (pgd_ptr pd v)
          × (load w (t₁ + pmd_idx v * 8) ≢ 0
              → LastLevel w (pgd_ptr pd v) (t₁ + pmd_idx v * 8) v (load w (t₁ + pmd_idx v * 8))))
        (sym same)
        (subst
          (λ t.
            Far (t + pmd_idx v * 8) (pgd_ptr pd v)
            × (load m (t + pmd_idx v * 8) ≢ 0
                → LastLevel m (pgd_ptr pd v) (t + pmd_idx v * 8) v (load m (t + pmd_idx v * 8))))
          (sym at) (known.2, known.3))
]

-- What is known of the entry, once there is a table for it.
last :
    (m : Memory) (first second v t₂ : ℕ) (m₂ : Memory)
    → Apart m first
    → Apart m second
    → (load m second ≢ 0 → LastLevel m first second v (load m second))
    → Next m second (pte_idx v) t₂ m₂
    → Far (t₂ + pte_idx v * 8) first
      × Far (t₂ + pte_idx v * 8) second
      × (load m₂ (t₂ + pte_idx v * 8) ≡ 0)
last m first second v t₂ m₂ a b known n = elim (n.child) [
  | inl (fresh, far) ↦ (far first a, far second b, fresh)
  | inr (same, at, there) ↦
      let (window, apart, far₁, far₂, free) = known there in
      subst
        (λ t.
          Far (t + pte_idx v * 8) first
          × Far (t + pte_idx v * 8) second
          × (load m₂ (t + pte_idx v * 8) ≡ 0))
        (sym at) (far₁, far₂, ap (λ w. load w (load m second + pte_idx v * 8)) same ∙ free)
]

pmd_ptr-Next :
    (m : Memory) (pd v j k : ℕ)
    → Unmapped m pd v
    → TwoFree m j k
    → Returns
        (λ r. (t₁ : ℕ) × Next m (pgd_ptr pd v) (pmd_idx v) t₁ r.1 × (r.0 ≡ t₁ + pmd_idx v * 8))
        (pmd_ptr m pd v)
unfolding pmd_ptr
pmd_ptr-Next m pd v j k u (below, inside, free, more) =
    Returns-bind
      (next_table-Next u.valid u.root (pmd_small v)
        (λ there. let known = u.levels there in (known.0, known.1)) j (omega (arith, below, inside))
        free)
      (λ r n. returns (r.0, n, no_wrap r.0 (pmd_idx v) n.window (pmd_small v)))

-- The entry at the address is on the way for `vaddr`, and 0.
abbrev Walked : ℕ → ℕ → ℕ × Memory → Type 0
Walked pd v r = (t₁ : ℕ) × (t₂ : ℕ) × Mapped r.1 pd v 0 t₁ t₂ × (r.0 ≡ t₂ + pte_idx v * 8)

-- The walk to the entry ends well: the way to it is there then, and it is 0.
pte_ptr-Mapped :
    (m : Memory) (pd v j k : ℕ)
    → Unmapped m pd v
    → TwoFree m j k
    → Returns (Walked pd v) (pte_ptr m pd v)
unfolding pte_ptr
pte_ptr-Mapped m pd v j k u two = Returns-bind (pmd_ptr-Next m pd v j k u two) (λ p (t₁, n, at).
    let slot = t₁ + pmd_idx v * 8 in
    let root = n.stays (pgd_ptr pd v) u.root in
    let (far, known) = middle m pd v t₁ p.1 u n in
    let (free, inside) = n.left_free j k two in
    subst
      (λ a. Returns (Walked pd v) (do r ← next_table p.1 a; ok (u64 (r.0 + pte_idx v * 8), r.1)))
      (sym at)
      (Returns-bind
        (next_table-Next n.valid n.apart (pte_small v) (λ there. let l = known there in (l.0, l.1))
          k inside free)
        (λ r n₂.
          let (far₁, far₂, zeroth) = last p.1 (pgd_ptr pd v) slot v r.0 r.1 root n.apart known n₂ in
          returns (
            t₁,
            r.0,
            record {
              first = n₂.keeps (pgd_ptr pd v) root (Far_sym far) ∙ n.linked;
              second = n₂.linked;
              entry = zeroth;
              window₁ = n.window;
              window₂ = n₂.window;
              far_first = far₁;
              far_second = far₂;
            },
            no_wrap r.0 (pte_idx v) n₂.window (pte_small v),
          ))))

-- The address is mapped to a page, once, until it is unmapped.
abbrev pub MappedTo : ℕ → ℕ → ℕ → Memory → Type 0
MappedTo pd v page m' =
    (vaddr_to_paddr m' pd v ≡ page + v % 2 ^ 12)
    × ((paddr' attr' : ℕ) → page_table_add m' pd v paddr' attr' ≡ panic)
    × Returns (λ m''. vaddr_to_paddr m'' pd v ≡ 0) (free_usrpage m' pd v)

-- page_table_add at an address that is not mapped, with two free pages for the tables that may be missing,
-- the address of a page that is not 0, and attributes of 12 bits: it ends well; vaddr_to_paddr gives
-- the page with the offset of the address then, whatever level of the tables was missing; to map the
-- address again is a panic; and after a free_usrpage of it vaddr_to_paddr gives 0.
pub page_table_add-vaddr_to_paddr :
    (m : Memory) (pd v hi attr j k : ℕ)
    → Unmapped m pd v
    → TwoFree m j k
    → 1 ≤ hi
    → hi < 2 ^ 52
    → attr < 2 ^ 12
    → Returns (MappedTo pd v (hi * 2 ^ 12)) (page_table_add m pd v (hi * 2 ^ 12) attr)
unfolding page_table_add
page_table_add-vaddr_to_paddr m pd v hi attr j k u two low small l =
    let e = bit_or (hi * 2 ^ 12) attr in
    let value = bit_or_low 12 hi attr l in
    Returns-bind (pte_ptr-Mapped m pd v j k u two) (λ p (t₁, t₂, mapped, at).
      let m' = store p.1 (t₂ + pte_idx v * 8) e in
      let done = store-Mapped p.1 pd v 0 t₁ t₂ e mapped (omega (arith, value, small, l)) in
      let there : e ≢ 0 = λ z. omega (arith, value, low, z) in
      subst
        (λ a.
          Returns (MappedTo pd v (hi * 2 ^ 12))
            (if not (load p.1 a == 0) then panic else ok (store p.1 a e)))
        (sym at)
        (subst (Returns (MappedTo pd v (hi * 2 ^ 12)))
          (sym (if-false _ _ (unset (load p.1 (t₂ + pte_idx v * 8)) mapped.entry)))
          (returns (
            vaddr_to_paddr-entry m' pd v e t₁ t₂ done there ∙ translated hi attr v small l,
            page_table_add-panic m' pd v e t₁ t₂ done there,
            free_usrpage-unmapped m' pd v e t₁ t₂ done,
          ))))
  where
    unset : (x : ℕ) → x ≡ 0 → not (x == 0) ≡ false
    unset x z = ground (arith, z)
