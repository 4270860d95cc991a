-- ===== src/Pages/Range.antt =====
-- mm/memory.c: get_pages, which takes a run of pages, and free_kernel_pge.
use kernel_travel.Base.{
  ℕ, zero, suc, ◌+◌, ◌*◌, ◌^◌, ◌≤◌, ◌<◌, ◌≡◌, refl, ◌∙◌, ◌⊎◌, inl, inr, true, ◌&&◌, Option, none,
  some, arith, ltb, leb, ◌==◌, if◌then◌else◌, Returns, returns, Returns-bind, Returns-mono,
  u32_small, u32,
}
use kernel_travel.Bitmap.{Bitmap}
use kernel_travel.Bitmap.Valid.{is_free, WasSet, bitmap_set-WasSet}
use kernel_travel.Bitmap.Valid
use kernel_travel.Bitmap.Scan.{total, bit_scan-IsFirstRun}
use kernel_travel.Bitmap.Runs.{Run, IsFirstRun}
use kernel_travel.Pages.{
  Memory, page_size, update, or_zero, page_of, set_range, take_pages, get_pages,
}
use kernel_travel.Pages.Alloc.{IsValid, pool_free, Taken, page_of-eq}

-- `set_range n b value` writes the bits from `b` up to `b + n`, and no other.
record RangeSet (bm : Bitmap) (b n value : ℕ) (bm' : Bitmap) : Type 0 where
  valid : Valid.IsValid bm'
  same_len : bm'.btmp_bytes_len ≡ bm.btmp_bytes_len
  bits_of :
      (j : ℕ) → is_free bm' j ≡ (if leb b j && ltb j (b + n) then value == 0 else is_free bm j)

RangeSet-step :
    {bm bm₁ bm₂ : Bitmap} {b n value : ℕ}
    → WasSet bm b value bm₁
    → RangeSet bm₁ (b + 1) n value bm₂
    → RangeSet bm b (suc n) value bm₂
RangeSet-step {b} {n} w r = record {
  valid = r.valid;
  same_len = r.same_len ∙ w.same_len;
  bits_of = λ j. ground (arith, r.bits_of j, w.bits_of j);
}

set_range-RangeSet :
    (n b value : ℕ) {bm : Bitmap}
    → Valid.IsValid bm
    → b + n ≤ total bm
    → value < 2
    → Returns (RangeSet bm b n value) (set_range n b value bm)
unfolding set_range
set_range-RangeSet zero b value v h hv =
    returns (record { valid = v; same_len = refl; bits_of = λ j. ground arith })
set_range-RangeSet (suc n) b value {bm} v h hv = rw (u32_small b (omega (arith, v.small))) (
    Returns-bind (bitmap_set-WasSet v b value (omega arith) hv) λ bm₁ w.
      Returns-mono (set_range-RangeSet n (b + 1) value w.valid (rw w.same_len (omega arith)) hv)
        λ bm₂ r. RangeSet-step w r)

-- The bytes of the `count` pages from `page` on are 0.
abbrev pub Cleared : Memory → ℕ → ℕ → Type 0
Cleared m page count = (a : ℕ) → page ≤ a → a < page + page_size * count → m.bytes a ≡ 0

-- What get_pages returns: the address of the first run of `count` free pages, taken and cleared; or 0, with
-- nothing changed, where no run is long enough.
abbrev pub Given : Memory → ℕ → ℕ × Memory → Type 0
Given m count (page, m') =
    ((b : ℕ) × Taken m b count page m' × Cleared m' page count)
    ⊎ ((page ≡ 0)
        × (m' ≡ m)
        × ((b : ℕ) → b + count ≤ total m.pool.btmp → ¬ Run (pool_free m) b count))

module _ {m : Memory} (v : IsValid m.pool) (count : ℕ) where
  RangeSet-Taken :
      {b : ℕ} {bm : Bitmap}
      → 0 < count
      → IsFirstRun (pool_free m) (total m.pool.btmp) count (some b)
      → RangeSet m.pool.btmp b count 1 bm
      → Taken m b count (page_of m.pool b) (update m bm (page_of m.pool b) (page_size * count))
  RangeSet-Taken {b} pos (inside, run, first) r = record {
    valid = record {
      btmp = r.valid;
      in_window = v.in_window;
      end_in_window = rw r.same_len v.end_in_window;
    };
    inside = inside;
    same_pool = (refl, r.same_len);
    was_free = run;
    first = first;
    used = r.bits_of;
    page_addr = page_of-eq v b (omega arith);
    cleared = λ a. refl;
  }

  take_pages-Given :
      0 < count
      → count < 2 ^ 20
      → (r : Option ℕ) → IsFirstRun (pool_free m) (total m.pool.btmp) count r
      → Returns (Given m count) (or_zero m r (take_pages m count))
  unfolding take_pages
  take_pages-Given pos small none nothing = returns (inr (refl, refl, nothing))
  take_pages-Given pos small (some b) first =
      Returns-bind (set_range-RangeSet count b 1 v.btmp first.0 (omega arith)) λ bm r.
        let whole : u32 (page_size * count) ≡ page_size * count =
          u32_small (page_size * count) (omega (arith, small)) in
        returns (inl (b, RangeSet-Taken pos first r, λ a lo hi. ground (arith, whole, lo, hi)))

  -- get_pages, for 0 < count < 2 ^ 20, of a pool with some free page: it either takes the first run of
  -- `count` free pages, clears every byte of them and returns their address, or finds that there is no such
  -- run, returns 0 and changes nothing.
  pub get_pages-Given :
      (j : ℕ)
      → 0 < count
      → count < 2 ^ 20
      → j < total m.pool.btmp
      → pool_free m j ≡ true
      → Returns (Given m count) (get_pages m count)
  unfolding get_pages
  get_pages-Given j pos small hj free =
      rw (u32_small count (omega (arith, small)))
        (Returns-bind (bit_scan-IsFirstRun v.btmp count j pos hj free) (take_pages-Given pos small))
