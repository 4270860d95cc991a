-- ===== src/Pages/Alloc.antt =====
-- mm/memory.c: what get_page, free_page and get_pages do to a well-formed pool.
use kernel_travel.Base.{
  ℕ, ◌+◌, ◌-◌, ◌*◌, ◌^◌, ◌≤◌, ◌<◌, bit_or, ◌≡◌, refl, sym, ap, ◌∙◌, Bool, true, false, ◌&&◌, Option,
  none, some, arith, ltb, leb, ◌==◌, if◌then◌else◌, u64, lt→ltb, le→ltb, panic, Returns, returns,
  Returns-bind, u32_small, bit_or-high,
}
use kernel_travel.Bitmap.{Bitmap}
use kernel_travel.Bitmap.Valid.{is_free, WasSet, bitmap_set-WasSet}
use kernel_travel.Bitmap.Valid
use kernel_travel.Bitmap.Scan.{total, bit_scan-IsFirstRun}
use kernel_travel.Bitmap.Runs.{Run, IsFirstRun}
use kernel_travel.Pages.{
  Pool, Memory, dmw1_base, page_size, clear_bytes, update, or_zero, take_page, page_of, bit_of,
  get_page, free_page,
}

-- The bitmap is well formed, and the pages lie in the window of CSR_DMW1_BASE.
pub record IsValid (p : Pool) : Type 0 where
  pub btmp : Valid.IsValid p.btmp
  pub in_window : dmw1_base ≤ p.paddr_start
  pub end_in_window : p.paddr_start + total p.btmp * 4096 ≤ 10 * 2 ^ 60

abbrev pub pool_free : Memory → ℕ → Bool
pool_free m = is_free m.pool.btmp

pub or_window : (x : ℕ) → dmw1_base ≤ x → x < 10 * 2 ^ 60 → bit_or x dmw1_base ≡ x
or_window x lo hi =
    let e : 9 * 2 ^ 60 + (x - dmw1_base) ≡ x = omega arith in
    let h : bit_or (9 * 2 ^ 60 + (x - dmw1_base)) (9 * 2 ^ 60)
        ≡ bit_or 9 9 * 2 ^ 60 + (x - dmw1_base) =
      bit_or-high 60 9 (x - dmw1_base) 9 (omega arith) in
    rw e at h

module _ {p : Pool} (v : IsValid p) (b : ℕ) (hb : b < total p.btmp) where
  -- The page of a bit of the pool, with no wrap and no carry into the window's prefix.
  pub page_of-eq : page_of p b ≡ p.paddr_start + b * 4096
  unfolding page_of
  page_of-eq =
      let e : u64 (u64 (b * 2 ^ 12) + p.paddr_start) ≡ p.paddr_start + b * 4096 =
        omega (arith, v.in_window, v.end_in_window) in
      rw e (or_window _ (omega (arith, v.in_window)) (omega (arith, v.end_in_window)))

  -- free_page computes the bit back from the page's address.
  pub bit_of-page_of : bit_of p (page_of p b) ≡ b
  unfolding bit_of
  bit_of-page_of =
      rw
        (
          page_of-eq,
          or_window (p.paddr_start + b * 4096) (omega (arith, v.in_window))
              (omega (arith, v.end_in_window)),
        )
        (omega (arith, v.in_window, v.end_in_window))

-- What an allocation of the `n` bits from `b` on leaves: a well-formed pool in which exactly these
-- have become used, and memory that is cleared on these pages and nowhere else.
pub record Taken (m : Memory) (b n page : ℕ) (m' : Memory) : Type 0 where
  pub valid : IsValid m'.pool
  pub inside : b + n ≤ total m.pool.btmp
  pub same_pool :
      (m'.pool.paddr_start ≡ m.pool.paddr_start)
      × (m'.pool.btmp.btmp_bytes_len ≡ m.pool.btmp.btmp_bytes_len)
  pub was_free : Run (pool_free m) b n
  pub first : (j : ℕ) → j < b → ¬ Run (pool_free m) j n
  pub used : (j : ℕ) → pool_free m' j ≡ (if leb b j && ltb j (b + n) then false else pool_free m j)
  pub page_addr : page ≡ m.pool.paddr_start + b * 4096
  pub cleared : (a : ℕ) → m'.bytes a ≡ clear_bytes page (page_size * n) m.bytes a

-- The page that get_page gives out.
abbrev pub Got : Memory → ℕ × Memory → Type 0
Got m (page, m') = (b : ℕ) × Taken m b 1 page m'

le_antisymm : (a b : ℕ) → b ≤ a → a < b + 1 → a ≡ b
le_antisymm a b h l = omega arith

module _ {m : Memory} (v : IsValid m.pool) where
  Taken-set :
      {b : ℕ} {bm : Bitmap}
      → IsFirstRun (pool_free m) (total m.pool.btmp) 1 (some b)
      → WasSet m.pool.btmp b 1 bm
      → Taken m b 1 (page_of m.pool b) (update m bm (page_of m.pool b) page_size)
  Taken-set {b} {bm} (inside, run, first) w = record {
    valid = record {
      btmp = w.valid;
      in_window = v.in_window;
      end_in_window = rw w.same_len v.end_in_window;
    };
    inside = inside;
    same_pool = (refl, w.same_len);
    was_free = run;
    first = first;
    used = λ j. rw (w.bits_of j) (ground arith);
    page_addr = page_of-eq v b (omega arith);
    cleared = λ a. refl;
  }

  take_page-Got :
      (j : ℕ)
      → j < total m.pool.btmp
      → pool_free m j ≡ true
      → (r : Option ℕ) → IsFirstRun (pool_free m) (total m.pool.btmp) 1 r
      → Returns (Got m) (or_zero m r (take_page m))
  unfolding take_page
  take_page-Got j hj free none nothing =
      absurd (nothing j (omega arith) (λ k l h. rw (le_antisymm k j l h) free))
  take_page-Got j hj free (some b) first =
      Returns-bind (bitmap_set-WasSet v.btmp b 1 (omega (arith, first.0)) (omega arith))
        λ bm w. returns (b, Taken-set first w)

  -- get_page of a pool with a free page: it returns the address of the first free page, which is then used
  -- and cleared; nothing else of the pool or of memory changes.
  pub get_page-Taken :
      (j : ℕ) → j < total m.pool.btmp → pool_free m j ≡ true → Returns (Got m) (get_page m)
  unfolding get_page
  get_page-Taken j hj free =
      Returns-bind (bit_scan-IsFirstRun v.btmp 1 j (omega arith) hj free) (take_page-Got j hj free)

module _ {m m' : Memory} (v : IsValid m.pool) {b page : ℕ} (t : Taken m b 1 page m') where
  bit_of-page : bit_of m'.pool page ≡ b
  bit_of-page =
      let inside : b < total m'.pool.btmp = ground (arith, t.inside, t.same_pool) in
      let addr : page ≡ page_of m'.pool b =
        t.page_addr ∙ sym (page_of-eq t.valid b inside ∙ ap (λ s. s + b * 4096) t.same_pool.0) in
      rw addr (bit_of-page_of t.valid b inside)

  free_again : (j : ℕ) → (if b == j then true else pool_free m' j) ≡ pool_free m j
  free_again j = ground (arith, t.used j, t.was_free j)

  restored :
      (bm : Bitmap)
      → WasSet m'.pool.btmp b 0 bm
      → IsValid (record { paddr_start = m'.pool.paddr_start; btmp = bm })
        × ((j : ℕ) → is_free bm j ≡ pool_free m j)
  restored bm w = (
    record {
      btmp = w.valid;
      in_window = t.valid.in_window;
      end_in_window = rw w.same_len t.valid.end_in_window;
    },
    λ j. w.bits_of j ∙ free_again j,
  )

  -- free_page of a page that get_page gave out puts the pool back as it was, if the page's number is below
  -- the number of bytes of the bitmap.
  pub free_page-get_page :
      b < m.pool.btmp.btmp_bytes_len
      → Returns
          (λ m''. IsValid m''.pool × ((j : ℕ) → pool_free m'' j ≡ pool_free m j))
          (free_page m' page)
  unfolding free_page
  free_page-get_page h =
      let below : ltb b m'.pool.btmp.btmp_bytes_len ≡ true = lt→ltb _ _ (rw t.same_pool.1 h) in
      rw (bit_of-page, below, u32_small b (omega (arith, v.btmp.small)))
        (Returns-bind
          (bitmap_set-WasSet t.valid.btmp b 0 (ground (arith, t.inside, t.same_pool)) (omega arith))
          λ bm w. returns (restored bm w))

  -- free_page of a page that get_page gave out fails its ASSERT, if the page's number is not below the
  -- number of bytes of the bitmap, though the bitmap has eight bits for each of its bytes.
  pub free_page-panic : m.pool.btmp.btmp_bytes_len ≤ b → free_page m' page ≡ panic
  unfolding free_page
  free_page-panic h =
      let above : ltb b m'.pool.btmp.btmp_bytes_len ≡ false = le→ltb _ _ (rw t.same_pool.1 h) in
      rw (bit_of-page, above)
