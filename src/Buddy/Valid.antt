-- ===== src/Buddy/Valid.antt =====
-- mm/memory.c: what holds of a zone between the operations on its free lists, and that putting a block in
-- a list and taking one out keep it.
use kernel_travel.Base.{
  ℕ, suc, ◌+◌, ◌≤◌, ◌<◌, ◌≡◌, refl, ap, ◌⊎◌, inl, inr, true, false, ◌||◌, List, [], ◌∷◌, arith,
  ◌==◌, u32, u64, ==_iff, Bool-cases, length,
}
use kernel_travel.LinkedList.Chain.{elem}
use kernel_travel.Buddy.{
  Zone, free_areas, put, remove, is_listed, buddy_order, zone_init_free_lists,
}
use kernel_travel.Buddy.Cover.{
  in_block, in_block-own, covered, cover, total-change, listed-elem, uncovered-listed,
}

-- No page is in two free blocks, the pages in a list have its order as their private, a page whose private
-- is 1 or more is in the list of that order, and nr_free counts the blocks.
pub record IsValid (z : Zone) : Type 0 where
  pub initialized : z.initialized ≡ true
  pub single : (p : ℕ) → cover z p ≤ 1
  pub tagged : (o p : ℕ) → o < free_areas → elem p (z.free_list o) ≡ true → buddy_order z p ≡ o
  pub found :
      (o p : ℕ) → suc o < free_areas → buddy_order z p ≡ suc o → elem p (z.free_list (suc o)) ≡ true
  pub counted : (o : ℕ) → o < free_areas → z.nr_free o ≡ u64 (length (z.free_list o))

-- No page of the block is in a free block.
abbrev pub Fits : Zone → ℕ → ℕ → Type 0
Fits z page order = (p : ℕ) → cover z p + in_block page order p ≤ 1

pub elem-remove_ne : (x p : ℕ) (bs : List ℕ) → (x == p) ≡ false → elem x (remove p bs) ≡ elem x bs
elem-remove_ne x p [] ne = refl
elem-remove_ne x p (y ∷ ys) ne = ground (arith, ne, elem-remove_ne x p ys ne)

pub length-remove : (p : ℕ) (bs : List ℕ) → elem p bs ≡ true → length bs ≡ length (remove p bs) + 1
length-remove p [] h = absurd (ground (arith, h))
length-remove p (y ∷ ys) h = elim (Bool-cases (y == p)) [
  | inl same ↦ ground (arith, same)
  | inr other ↦ ground (arith, other, length-remove p ys (ground (arith, h, other)))
]

-- A list with the block added, at one end or the other.
pub record Longer (page order : ℕ) (bs longer : List ℕ) : Type 0 where
  pub covers : (p : ℕ) → covered order longer p ≡ covered order bs p + in_block page order p
  pub holds : (x : ℕ) → elem x longer ≡ (x == page || elem x bs)
  pub counts : length longer ≡ length bs + 1

-- The zone with the block in the list of its order.
abbrev pub inserted : Zone → ℕ → ℕ → List ℕ → Zone
inserted z page order longer = record {
  initialized = z.initialized;
  free_list = put z.free_list order longer;
  nr_free = put z.nr_free order (u64 (z.nr_free order + 1));
  private = put z.private page order;
  index = z.index;
}

module _ (z : Zone) (page order : ℕ) (longer : List ℕ) (v : IsValid z) (l : order < free_areas)
    (fits : Fits z page order) (more : Longer page order (z.free_list order) longer) where
  pub cover-inserted :
      (p : ℕ) → cover (inserted z page order longer) p ≡ cover z p + in_block page order p
  cover-inserted p =
      total-change free_areas order (put z.free_list order longer) z.free_list p
        (in_block page order p) l (λ o below ne. ground (arith, ne)) (ground (arith, more.covers p))

  page-unlisted : is_listed z page ≡ false
  page-unlisted = uncovered-listed z page (omega (arith, fits page, in_block-own page order))

  unlisted_in : (o : ℕ) → o < free_areas → elem page (z.free_list o) ≡ false
  unlisted_in o h = elim (Bool-cases (elem page (z.free_list o))) [
    | inl there ↦
        absurd (ground (arith, page-unlisted, listed-elem free_areas z.free_list o page h there))
    | inr absent ↦ absent
  ]

  -- Where a page of the new lists was in the old ones.
  was_listed :
      (o p : ℕ)
      → elem p (put z.free_list order longer o) ≡ true
      → ((p ≡ page) × (o ≡ order)) ⊎ (elem p (z.free_list o) ≡ true)
  was_listed o p there = elim (Bool-cases (o == order)) [
    | inl at ↦
        let here : elem p longer ≡ true = ground (arith, at, there) in
        let old = ap (λ k. elem p (z.free_list k)) ((==_iff o order).0 at) in
        ground (arith, here, more.holds p, old, at)
    | inr other ↦ inr (ground (arith, other, there))
  ]

  stays_listed :
      (o p : ℕ) → elem p (z.free_list o) ≡ true → elem p (put z.free_list order longer o) ≡ true
  stays_listed o p there = elim (Bool-cases (o == order)) [
    | inl at ↦
        let old = ap (λ k. elem p (z.free_list k)) ((==_iff o order).0 at) in
        ground (arith, at, there, old, more.holds p)
    | inr other ↦ ground (arith, other, there)
  ]

  inserted-tagged :
      (o p : ℕ)
      → o < free_areas
      → elem p (put z.free_list order longer o) ≡ true
      → u32 (put z.private page order p) ≡ o
  unfolding buddy_order
  inserted-tagged o p h there = elim (was_listed o p there) [
    | inl (same, at) ↦ ground (arith, same, at, l)
    | inr old ↦ elim (Bool-cases (p == page)) [
      | inl same ↦
          let eq = ap (λ t. elem t (z.free_list o)) ((==_iff p page).0 same) in
          absurd (ground (arith, old, eq, unlisted_in o h))
      | inr other ↦ ground (arith, other, v.tagged o p h old)
    ]
  ]

  inserted-found :
      (o p : ℕ)
      → suc o < free_areas
      → u32 (put z.private page order p) ≡ suc o
      → elem p (put z.free_list order longer (suc o)) ≡ true
  unfolding buddy_order
  inserted-found o p h is = elim (Bool-cases (p == page)) [
    | inl same ↦
        let at : suc o ≡ order = ground (arith, same, is, l) in
        ground (arith, at, same, more.holds p)
    | inr other ↦ stays_listed (suc o) p (v.found o p h (ground (arith, other, is)))
  ]

  inserted-counted :
      (o : ℕ)
      → o < free_areas
      → put z.nr_free order (u64 (z.nr_free order + 1)) o
        ≡ u64 (length (put z.free_list order longer o))
  inserted-counted o h = elim (Bool-cases (o == order)) [
    | inl at ↦ ground (arith, at, v.counted order l, more.counts)
    | inr other ↦ ground (arith, other, v.counted o h)
  ]

  pub inserted-IsValid : IsValid (inserted z page order longer)
  unfolding buddy_order
  inserted-IsValid = record {
    initialized = v.initialized;
    single = λ p. omega (arith, cover-inserted p, fits p);
    tagged = inserted-tagged;
    found = inserted-found;
    counted = inserted-counted;
  }

-- zone_init_free_lists of a zone that is initialized makes it valid, whatever its lists held, where no page has
-- an order yet.
pub zone_init_free_lists-IsValid :
    (z : Zone)
    → z.initialized ≡ true
    → ((p : ℕ) → z.private p ≡ 0)
    → IsValid (zone_init_free_lists z)
unfolding zone_init_free_lists buddy_order
zone_init_free_lists-IsValid z i untagged = record {
  initialized = i;
  single = λ p. omega arith;
  tagged = λ o p l h. absurd (ground (arith, h, l));
  found = λ o p l h. absurd (ground (arith, h, untagged p));
  counted = λ o l. ground (arith, l);
}
