-- ===== src/Buddy/Change.antt =====
-- mm/memory.c: what add_to_free_list, add_to_free_list_tail and del_page_from_free_list do to a zone.
use kernel_travel.Base.{
  ℕ, suc, ◌+◌, ◌-◌, ◌^◌, ◌<◌, ◌≡◌, refl, sym, ap, ◌∙◌, ◌≢◌, inl, inr, Bool, true, false, List, [],
  ◌∷◌, ◌++◌, arith, ◌==◌, if◌then◌else◌, u32, u64, ==_iff, Bool-cases, length, length-append, ok,
  Returns, returns,
}
use kernel_travel.LinkedList.Chain.{elem, elem-append}
use kernel_travel.Buddy.{
  Zone, free_areas, put, remove, is_listed, buddy_order, del_page_from_free_list, list_del,
  set_page_private, add_to_free_list, add_to_free_list_tail,
}
use kernel_travel.Buddy.Cover.{
  in_block, in_block-own, cover, covered-remove, covered-append, remove-absent, total-change,
  listed-elem, uncovered-listed,
}
use kernel_travel.Buddy.Valid.{
  IsValid, Fits, Longer, inserted, inserted-IsValid, cover-inserted, elem-remove_ne, length-remove,
}

-- The zone with the block out of the list of its order.
abbrev pub deleted : Zone → ℕ → ℕ → Zone
deleted z page order = record {
  initialized = z.initialized;
  free_list = λ o. remove page (z.free_list o);
  nr_free = put z.nr_free order (u64 (z.nr_free order + 2 ^ 64 - 1));
  private = put z.private page 0;
  index = z.index;
}

module _ (z : Zone) (page order : ℕ) (v : IsValid z) (l : order < free_areas)
    (there : elem page (z.free_list order) ≡ true) where
  elsewhere : (o : ℕ) → o < free_areas → o ≢ order → elem page (z.free_list o) ≡ false
  elsewhere o h ne = elim (Bool-cases (elem page (z.free_list o))) [
    | inl also ↦ absurd (ne (sym (v.tagged o page h also) ∙ v.tagged order page l there))
    | inr absent ↦ absent
  ]

  pub cover-deleted : (p : ℕ) → cover z p ≡ cover (deleted z page order) p + in_block page order p
  cover-deleted p =
      total-change free_areas order z.free_list (λ o. remove page (z.free_list o)) p
        (in_block page order p) l
        (λ o below ne. sym (remove-absent page (z.free_list o) (elsewhere o below ne)))
        (covered-remove order page (z.free_list order) p there)

  gone : (o : ℕ) → o < free_areas → elem page (remove page (z.free_list o)) ≡ false
  gone o h = elim (Bool-cases (elem page (remove page (z.free_list o)))) [
    | inl still ↦
        let nowhere : is_listed (deleted z page order) page ≡ false =
          uncovered-listed (deleted z page order) page
            (omega (arith, cover-deleted page, v.single page, in_block-own page order)) in
        absurd (
          ground (
            arith,
            nowhere,
            listed-elem free_areas (λ o. remove page (z.free_list o)) o page h still,
          ))
    | inr absent ↦ absent
  ]

  deleted-tagged :
      (o p : ℕ)
      → o < free_areas
      → elem p (remove page (z.free_list o)) ≡ true
      → u32 (put z.private page 0 p) ≡ o
  unfolding buddy_order
  deleted-tagged o p h still = elim (Bool-cases (p == page)) [
    | inl same ↦
        let eq = ap (λ t. elem t (remove page (z.free_list o))) ((==_iff p page).0 same) in
        absurd (ground (arith, gone o h, eq, still))
    | inr other ↦
        let before : elem p (z.free_list o) ≡ true =
          sym (elem-remove_ne p page (z.free_list o) other) ∙ still in
        ground (arith, other, v.tagged o p h before)
  ]

  deleted-found :
      (o p : ℕ)
      → suc o < free_areas
      → u32 (put z.private page 0 p) ≡ suc o
      → elem p (remove page (z.free_list (suc o))) ≡ true
  unfolding buddy_order
  deleted-found o p h is = elim (Bool-cases (p == page)) [
    | inl same ↦ absurd (ground (arith, same, is))
    | inr other ↦
        elem-remove_ne p page (z.free_list (suc o)) other
        ∙ v.found o p h (ground (arith, other, is))
  ]

  deleted-counted :
      (o : ℕ)
      → o < free_areas
      → put z.nr_free order (u64 (z.nr_free order + 2 ^ 64 - 1)) o
        ≡ u64 (length (remove page (z.free_list o)))
  deleted-counted o h = elim (Bool-cases (o == order)) [
    | inl at ↦
        let same = ap (λ k. length (remove page (z.free_list k))) ((==_iff o order).0 at) in
        let shorter = length-remove page (z.free_list order) there in
        ground (arith, at, same, v.counted order l, shorter)
    | inr other ↦
        let same =
          ap length (remove-absent page (z.free_list o) (elsewhere o h (ground (arith, other)))) in
        ground (arith, other, same, v.counted o h)
  ]

  deleted-IsValid : IsValid (deleted z page order)
  unfolding buddy_order
  deleted-IsValid = record {
    initialized = v.initialized;
    single = λ p. omega (arith, cover-deleted p, v.single p);
    tagged = deleted-tagged;
    found = deleted-found;
    counted = deleted-counted;
  }

  pub del_page_from_free_list-deleted :
      (del_page_from_free_list z page order ≡ ok (deleted z page order))
      × IsValid (deleted z page order)
  unfolding del_page_from_free_list list_del set_page_private
  del_page_from_free_list-deleted =
      (rw (listed-elem free_areas z.free_list order page l there) refl, deleted-IsValid)

head-Longer : (page order : ℕ) (bs : List ℕ) → Longer page order bs (page ∷ bs)
head-Longer page order bs = record {
  covers = λ p. omega arith;
  holds = λ x. refl;
  counts = ground arith;
}

tail-Longer : (page order : ℕ) (bs : List ℕ) → Longer page order bs (bs ++ page ∷ [])
tail-Longer page order bs = record {
  covers = covered-append order page bs;
  holds = λ x. ground (arith, elem-append x bs (page ∷ []));
  counts = ground (arith, length-append bs (page ∷ []));
}

-- The zone holds the block in addition.
abbrev pub Added : Zone → ℕ → ℕ → Zone → Type 0
Added z page order z' = IsValid z' × ((p : ℕ) → cover z' p ≡ cover z p + in_block page order p)

-- The zone after the list operation alone.
abbrev pub linked : Zone → ℕ → ℕ → List ℕ → Zone
linked z page order longer = record z {
  free_list = put z.free_list order longer;
  nr_free = put z.nr_free order (u64 (z.nr_free order + 1));
}

module _ (z : Zone) (page order : ℕ) (v : IsValid z) (l : order < free_areas)
    (fits : Fits z page order) where
  unlisted : is_listed z page ≡ false
  unlisted = uncovered-listed z page (omega (arith, fits page, in_block-own page order))

  inserted-Added :
      (longer : List ℕ)
      → Longer page order (z.free_list order) longer
      → Added z page order (inserted z page order longer)
  inserted-Added longer more = (
    inserted-IsValid z page order longer v l fits more,
    cover-inserted z page order longer v l fits more,
  )

  -- The block is put at the head of its list, and given its order after that, as expand does.
  pub add_to_free_list-linked :
      add_to_free_list z page order ≡ ok (linked z page order (page ∷ z.free_list order))
  unfolding add_to_free_list
  add_to_free_list-linked = rw unlisted refl

  pub head-Added : Added z page order (inserted z page order (page ∷ z.free_list order))
  head-Added =
      inserted-Added (page ∷ z.free_list order) (head-Longer page order (z.free_list order))

  -- The block is given its order and then put at either end of its list, as free_one_page does.
  pub tagged-Added :
      (to_tail : Bool)
      → Returns (Added z page order) (
          if to_tail
          then add_to_free_list_tail (set_page_private z page order) page order
          else add_to_free_list (set_page_private z page order) page order)
  unfolding add_to_free_list add_to_free_list_tail set_page_private
  tagged-Added true = rw unlisted (
      returns (
        inserted-Added (z.free_list order ++ page ∷ [])
          (tail-Longer page order (z.free_list order))))
  tagged-Added false = rw unlisted (returns head-Added)
