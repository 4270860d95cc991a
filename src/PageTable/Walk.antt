-- ===== src/PageTable/Walk.antt =====
-- mm/memory.c: one level of the walk that pmd_ptr and pte_ptr do.
use kernel_travel.Base.{
  ℕ, ◌+◌, ◌*◌, ◌^◌, ◌≤◌, ◌<◌, ◌≡◌, refl, sym, ap, ◌∙◌, subst, ◌≢◌, ◌⊎◌, inl, inr, true, false, not,
  arith, ltb, ◌==◌, ltb→lt, le→ltb, Bool-cases, Returns, returns, Returns-bind, if-true, if-false,
}
use kernel_travel.Bitmap.Scan.{total}
use kernel_travel.Pages.{Memory, dmw1_base}
use kernel_travel.Pages.Alloc.{IsValid, pool_free, Taken, get_page-Taken, or_window}
use kernel_travel.PageTable.{load, store, next_table}
use kernel_travel.PageTable.Words.{Far, load-store, load-store_far, load-same, load-zero}

-- The word at `y` is in no free page of the pool.
abbrev pub Apart : Memory → ℕ → Type 0
Apart m y =
    (b : ℕ)
    → b < total m.pool.btmp
    → pool_free m b ≡ true
    → (y + 8 ≤ m.pool.paddr_start + b * 4096) ⊎ (m.pool.paddr_start + b * 4096 + 4096 ≤ y)

-- A page in the window of CSR_DMW1_BASE.
abbrev pub InWindow : ℕ → Type 0
InWindow t = (dmw1_base ≤ t) × (t + 4096 ≤ 10 * 2 ^ 60)

-- Two free pages, the second behind the first.
abbrev pub TwoFree : Memory → ℕ → ℕ → Type 0
TwoFree m j k = (j < k) × (k < total m.pool.btmp) × (pool_free m j ≡ true) × (pool_free m k ≡ true)

-- The table that `slot` leads to and the memory then. The entry of number `idx` is either one of a new table,
-- and then 0 and far from all that was in use, or one of a table that was there, and nothing has changed.
pub record Next (m : Memory) (slot idx t : ℕ) (m' : Memory) : Type 0 where
  pub valid : IsValid m'.pool
  pub linked : load m' slot ≡ t
  pub window : InWindow t
  pub keeps : (y : ℕ) → Apart m y → Far y slot → load m' y ≡ load m y
  pub stays : (y : ℕ) → Apart m y → Apart m' y
  pub apart : Apart m' (t + idx * 8)
  pub child :
      ((load m' (t + idx * 8) ≡ 0) × ((y : ℕ) → Apart m y → Far (t + idx * 8) y))
      ⊎ ((m' ≡ m) × (t ≡ load m slot) × (load m slot ≢ 0))
  pub left_free : (j k : ℕ) → TwoFree m j k → (pool_free m' k ≡ true) × (k < total m'.pool.btmp)

module _ {m m₁ : Memory} {slot idx page b : ℕ} (t : Taken m b 1 page m₁) (v : IsValid m.pool)
    (here : Apart m slot) (l : idx < 512) where
  free_b : pool_free m b ≡ true
  free_b = t.was_free b (omega arith) (omega arith)

  outside : (y : ℕ) → Apart m y → (y + 8 ≤ page) ⊎ (page + 4096 ≤ y)
  outside y out = elim (out b (omega (arith, t.inside)) free_b) [
    | inl below ↦ inl (omega (arith, below, t.page_addr))
    | inr above ↦ inr (omega (arith, above, t.page_addr))
  ]

  page-window : InWindow page
  page-window = (
    omega (arith, t.page_addr, v.in_window),
    omega (arith, t.page_addr, v.end_in_window, t.inside),
  )

  still_free : (j : ℕ) → pool_free m₁ j ≡ true → (pool_free m j ≡ true) × (j ≢ b)
  still_free j h = (ground (arith, t.used j, h), λ e. ground (arith, t.used j, h, e))

  child_far : (y : ℕ) → Apart m y → Far (page + idx * 8) y
  child_far y out = elim (outside y out) [
    | inl below ↦ inr (omega (arith, below))
    | inr above ↦ inl (omega (arith, above, l))
  ]

  child_zero : load m₁ (page + idx * 8) ≡ 0
  child_zero =
      load-zero m₁ (page + idx * 8) (λ i h. ground (arith, t.cleared (page + idx * 8 + i), h, l))

  unchanged : (y : ℕ) → Apart m y → load m₁ y ≡ load m y
  unchanged y out = load-same m m₁ y (λ i h. elim (outside y out) [
    | inl below ↦ ground (arith, t.cleared (y + i), h, below)
    | inr above ↦ ground (arith, t.cleared (y + i), h, above)
  ])

  same_total : total m₁.pool.btmp ≡ total m.pool.btmp
  same_total = ap (λ n. n * 8) t.same_pool.1

  stays_apart : (y : ℕ) → Apart m y → Apart m₁ y
  stays_apart y out k h free = elim (out k (omega (arith, h, same_total)) (still_free k free).0) [
    | inl below ↦ inl (omega (arith, below, t.same_pool.0))
    | inr above ↦ inr (omega (arith, above, t.same_pool.0))
  ]

  child_apart : Apart m₁ (page + idx * 8)
  child_apart k h free =
      let other = (still_free k free).1 in
      elim (Bool-cases (ltb k b)) [
        | inl below ↦ inr (omega (arith, ltb→lt k b below, t.page_addr, t.same_pool.0))
        | inr above ↦
            let l' : b < k = ground (arith, above, other) in
            inl (omega (arith, l', l, t.page_addr, t.same_pool.0))
      ]

  not_before : (j : ℕ) → pool_free m j ≡ true → b ≤ j
  not_before j free = elim (Bool-cases (ltb j b)) [
    | inl before ↦ absurd (
        t.first j (ltb→lt j b before) (λ i lo hi.
          let same : j ≡ i = omega (arith, lo, hi) in subst (λ i. pool_free m i ≡ true) same free))
    | inr after ↦ ground (arith, after)
  ]

  still_left : (j k : ℕ) → TwoFree m j k → (pool_free m₁ k ≡ true) × (k < total m₁.pool.btmp)
  still_left j k (below, inside, j_free, k_free) =
      let first = not_before j j_free in
      let beyond : ltb k (b + 1) ≡ false = le→ltb k (b + 1) (omega (arith, first, below)) in
      (ground (arith, t.used k, beyond, k_free), omega (arith, inside, same_total))

  Next-fresh : Next m slot idx page (store m₁ slot page)
  Next-fresh = record {
    valid = t.valid;
    linked = load-store m₁ slot page (omega (arith, page-window.1));
    window = page-window;
    keeps = λ y out far. load-store_far m₁ slot y page far ∙ unchanged y out;
    stays = stays_apart;
    apart = child_apart;
    child = inl (
      load-store_far m₁ slot (page + idx * 8) page (child_far slot here) ∙ child_zero,
      child_far,
    );
    left_free = still_left;
  }

module _ {m : Memory} {slot idx : ℕ} (v : IsValid m.pool) (here : Apart m slot) (l : idx < 512)
    (known : load m slot ≢ 0 → InWindow (load m slot) × Apart m (load m slot + idx * 8)) where
  -- The table is there.
  Next-known : load m slot ≢ 0 → Next m slot idx (load m slot) m
  Next-known there = record {
    valid = v;
    linked = refl;
    window = (known there).0;
    keeps = λ y out far. refl;
    stays = λ y out. out;
    apart = (known there).1;
    child = inr (refl, refl, there);
    left_free = λ j k two. (two.3, two.1);
  }

  -- One level of the walk ends well.
  pub next_table-Next :
      (j : ℕ)
      → j < total m.pool.btmp
      → pool_free m j ≡ true
      → Returns (λ r. Next m slot idx r.0 r.1) (next_table m slot)
  unfolding next_table
  next_table-Next j h free = elim (Bool-cases (load m slot == 0)) [
    | inr there ↦
        let some_table : load m slot ≢ 0 = ground (arith, there) in
        let w = (known some_table).0 in
        subst (Returns _) (sym (if-true _ _ (ap not there))) (
          returns (
            subst (λ t. Next m slot idx t m)
              (sym (or_window (load m slot) w.0 (omega (arith, w.1)))) (Next-known some_table)))
    | inl absent ↦
        subst (Returns _) (sym (if-false _ _ (ap not absent)))
          (Returns-bind (get_page-Taken v j h free) (λ r got. returns (Next-fresh got.1 v here l)))
  ]
