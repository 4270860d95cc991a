-- ===== src/Buddy/Take.antt =====
-- mm/memory.c: __rmqueue_smallest, __rmqueue and __alloc_pages as a whole.
use kernel_travel.Base.{
  ℕ, zero, suc, ◌+◌, ◌-◌, ◌≤◌, ◌<◌, ◌≡◌, refl, sym, ap, ◌∙◌, subst, ◌≢◌, ◌⊎◌, inl, inr, false,
  Option, none, some, [], arith, ltb, ◌==◌, ==_iff, le→ltb, Bool-cases, Option-cases, Outcome, ok,
  spin, ◌>>=◌, Returns, returns, Returns-bind, Returns-result, if-false, bind_assoc,
}
use kernel_travel.Boot.{max_page_order}
use kernel_travel.Buddy.{
  Zone, or_null, buddy_order, free_areas, put, expand, smallest_loop, rmqueue_smallest,
  rmqueue_retry, alloc_pages, get_page_from_free_area, del_page_from_free_list, migrate_unmovable,
}
use kernel_travel.Buddy.Valid.{IsValid}
use kernel_travel.Buddy.Alloc.{Taken, cut, none-empty, first-elem}

IsValid-index : (w : Zone) (f : ℕ → ℕ) → IsValid w → IsValid (record w { index = f })
unfolding buddy_order
IsValid-index w f v = record {
  initialized = v.initialized;
  single = v.single;
  tagged = v.tagged;
  found = v.found;
  counted = v.counted;
}

-- A round of the loop that finds a page.
abbrev taken : Zone → ℕ → ℕ → ℕ → Outcome (Option ℕ × Zone)
taken z order current page = do
  d ← del_page_from_free_list z page current
  w ← expand d page order current
  ok (some page, record w { index = put w.index page migrate_unmovable })

smallest_none :
    (left : ℕ) (z : Zone) (order current : ℕ)
    → get_page_from_free_area (z.free_list current) ≡ none
    → smallest_loop (suc left) z order current ≡ smallest_loop left z order (current + 1)
unfolding smallest_loop
smallest_none left z order current e =
    ap (λ r. or_null r (smallest_loop left z order (current + 1)) (taken z order current)) e

smallest_some :
    (left : ℕ) (z : Zone) (order current page : ℕ)
    → get_page_from_free_area (z.free_list current) ≡ some page
    → smallest_loop (suc left) z order current ≡ (
        del_page_from_free_list z page current
        >>= (λ d. expand d page order current)
        >>= (λ w. ok (some page, record w { index = put w.index page migrate_unmovable })))
unfolding smallest_loop
smallest_some left z order current page e =
    ap (λ r. or_null r (smallest_loop left z order (current + 1)) (taken z order current)) e
    ∙ sym (bind_assoc (del_page_from_free_list z page current) _ _)

smallest_loop-Taken :
    (left : ℕ) (z : Zone) (order current : ℕ)
    → IsValid z
    → order ≤ current
    → current + left ≡ free_areas
    → ((o : ℕ) → order ≤ o → o < current → z.free_list o ≡ [])
    → Returns (Taken z order) (smallest_loop left z order current)
unfolding smallest_loop
smallest_loop-Taken zero z order current v above reach empty =
    returns (refl, λ o a b. empty o a (omega (arith, b, reach)))
smallest_loop-Taken (suc left) z order current v above reach empty =
    elim (Option-cases (get_page_from_free_area (z.free_list current))) [
      | inl e ↦ subst (Returns _) (sym (smallest_none left z order current e)) (
          smallest_loop-Taken left z order (current + 1) v (omega (arith, above))
            (omega (arith, reach))
            (λ o a b. elim (Bool-cases (o == current)) [
              | inl at ↦
                  subst (λ t. z.free_list t ≡ []) (sym ((==_iff o current).0 at))
                    (none-empty (z.free_list current) e)
              | inr other ↦ empty o a (ground (arith, other, b))
            ]))
      | inr (page, e) ↦
          let l : current < free_areas = omega (arith, reach) in
          subst (Returns _) (sym (smallest_some left z order current page e)) (
            Returns-bind
              (cut z page order current v l above (first-elem page (z.free_list current) e))
              (λ w c. returns (
                IsValid-index w (put w.index page migrate_unmovable) c.0,
                c.1,
                ground arith,
                (current, above, l, e, empty),
              )))
    ]

-- __rmqueue_smallest of a valid zone ends well: it takes the first block of the first list from the order on
-- that has one, cuts it to size, and leaves a valid zone in which exactly the pages of the returned block
-- are no longer free; if all these lists are empty, it returns NULL and changes nothing.
pub rmqueue_smallest-Taken :
    (z : Zone) (order : ℕ)
    → IsValid z
    → order ≤ max_page_order
    → Returns (Taken z order) (rmqueue_smallest z order)
unfolding rmqueue_smallest
rmqueue_smallest-Taken z order v l =
    smallest_loop-Taken (free_areas - order) z order order v (omega arith) (omega (arith, l))
      (λ o a b. absurd (omega (arith, a, b)))

-- From `order` on no list has a block.
abbrev pub NoneLeft : Zone → ℕ → Type 0
NoneLeft z order = (o : ℕ) → order ≤ o → o < free_areas → z.free_list o ≡ []

module _ (z : Zone) (order : ℕ) where
  retry-spins :
      rmqueue_smallest z order ≡ ok (none, z) → (fuel : ℕ) → rmqueue_retry fuel z order ≡ spin
  unfolding rmqueue_retry
  retry-spins e zero = refl
  retry-spins e (suc fuel) =
      ap (λ m. do r ← m; or_null r.0 (rmqueue_retry fuel r.1 order) (λ page. ok (page, r.1))) e
      ∙ retry-spins e fuel

  retry-cases :
      (r : Option ℕ × Zone)
      → rmqueue_smallest z order ≡ ok r
      → Taken z order r
      → ((fuel : ℕ)
          → Returns (λ q. Taken z order (some q.0, q.1)) (rmqueue_retry (suc fuel) z order))
        ⊎ (NoneLeft z order × ((fuel : ℕ) → rmqueue_retry fuel z order ≡ spin))
  unfolding rmqueue_retry
  retry-cases (none, z') e (same, empty) =
      inr (empty, retry-spins (e ∙ ap (λ w. ok (none, w)) same))
  retry-cases (some page, z') e t = inl (λ fuel.
      subst (Returns _)
        (sym (ap (λ m. do r ← m; or_null r.0 (rmqueue_retry fuel r.1 order) (λ p. ok (p, r.1))) e))
        (returns t))

-- __alloc_pages of a valid zone, for any order up to MAX_PAGE_ORDER: where some list from the order on has a
-- block, it takes one in the first round, as __rmqueue_smallest does; where none has, no number of rounds is
-- enough, since the search starts again with the same lists.
pub alloc_pages-cases :
    (z : Zone) (order : ℕ)
    → IsValid z
    → order ≤ max_page_order
    → ((fuel : ℕ) → Returns (λ r. Taken z order r × (r.0 ≢ none)) (alloc_pages (suc fuel) z order))
      ⊎ (NoneLeft z order × ((fuel : ℕ) → alloc_pages fuel z order ≡ spin))
unfolding alloc_pages
alloc_pages-cases z order v l =
    let (r, e, t) = Returns-result (rmqueue_smallest-Taken z order v l) in
    let inside : ltb max_page_order order ≡ false = le→ltb max_page_order order l in
    elim (retry-cases z order r e t) [
      | inl takes ↦ inl (λ fuel.
          subst (Returns _) (sym (if-false _ _ inside))
            (Returns-bind (takes fuel) (λ q t. returns (t, λ e. ground (arith, e)))))
      | inr (empty, spins) ↦
          inr (
            empty,
            λ fuel. if-false _ _ inside ∙ ap (λ m. do r ← m; ok (some r.0, r.1)) (spins fuel),
          )
    ]
