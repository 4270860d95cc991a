-- ===== src/Buddy/RoundTrip.antt =====
-- mm/memory.c: __alloc_pages followed by __free_pages_core.
use kernel_travel.Base.{
  ℕ, suc, ◌≤◌, ◌<◌, ◌≡◌, refl, sym, ◌∙◌, ◌≢◌, inl, inr, true, Option, none, some, [], arith,
  Outcome, ok, ◌>>=◌, Returns, Returns-bind, Returns-mono,
}
use kernel_travel.Boot.{max_page_order}
use kernel_travel.Buddy.{Zone, or_null, free_areas, alloc_pages, free_pages_core}
use kernel_travel.Buddy.Cover.{cover}
use kernel_travel.Buddy.Valid.{IsValid}
use kernel_travel.Buddy.Alloc.{Taken}
use kernel_travel.Buddy.Take.{alloc_pages-cases}
use kernel_travel.Buddy.Free.{free_one_page-Added}

-- The block is given back as soon as it is taken.
abbrev pub give_back : ℕ → Option ℕ × Zone → Outcome Zone
give_back order r = or_null r.0 (ok r.1) (λ page. free_pages_core r.1 page order)

given_back :
    (z : Zone) (order : ℕ) (r : Option ℕ × Zone)
    → 1 ≤ order
    → order ≤ max_page_order
    → IsValid z
    → Taken z order r
    → r.0 ≢ none
    → Returns (λ w. IsValid w × ((p : ℕ) → cover w p ≡ cover z p)) (give_back order r)
unfolding free_pages_core
given_back z order (none, z') low l v t there = absurd (there refl)
given_back z order (some page, z') low l v t there =
    Returns-mono
      (free_one_page-Added z' page order true t.0 l (λ p. omega (arith, t.1 p, v.single p))
        (λ zeroth. absurd (omega (arith, zeroth, low))))
      (λ w a. (a.0, λ p. a.1 p ∙ sym (t.1 p)))

-- From a valid zone with a block in some list from the order on, for an order from 1 to MAX_PAGE_ORDER,
-- __alloc_pages and then __free_pages_core of what it gives end well; the zone is valid then, and the same
-- pages are free as before.
pub alloc_pages-free_pages_core :
    (z : Zone) (order o fuel : ℕ)
    → IsValid z
    → 1 ≤ order
    → order ≤ max_page_order
    → (order ≤ o) × (o < free_areas) × (z.free_list o ≢ [])
    → Returns
        (λ w. IsValid w × ((p : ℕ) → cover w p ≡ cover z p))
        (alloc_pages (suc fuel) z order >>= give_back order)
alloc_pages-free_pages_core z order o fuel v low l there = elim (alloc_pages-cases z order v l) [
  | inl takes ↦ Returns-bind (takes fuel) (λ r t. given_back z order r low l v t.0 t.1)
  | inr (empty, spins) ↦ absurd (there.2 (empty o there.0 there.1))
]
