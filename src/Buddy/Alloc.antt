-- ===== src/Buddy/Alloc.antt =====
-- mm/memory.c: allocation from the free lists.
use kernel_travel.Base.{
  ℕ, zero, suc, ◌+◌, ◌/◌, ◌^◌, ◌≤◌, ◌<◌, ◌≡◌, refl, sym, ap, subst, inl, inr, true, Option, none,
  some, List, [], ◌∷◌, arith, ltb, ltb→lt, lt→ltb, Bool-cases, ◌>>=◌, Returns, returns,
  Returns-mono, pow_double,
}
use kernel_travel.LinkedList.Chain.{elem}
use kernel_travel.Buddy.{
  Zone, free_areas, expand, expand_loop, get_page_from_free_area, del_page_from_free_list,
  set_page_private, migrate_unmovable,
}
use kernel_travel.Buddy.Cover.{in_block, in_block-halves, cover}
use kernel_travel.Buddy.Valid.{IsValid, Fits, inserted}
use kernel_travel.Buddy.Change.{
  deleted, head-Added, add_to_free_list-linked, cover-deleted, del_page_from_free_list-deleted,
}

-- The block of order `high` becomes free but for the first 2^low pages.
abbrev pub Expanded : Zone → ℕ → ℕ → ℕ → Zone → Type 0
Expanded z page low high z' =
    IsValid z' × ((p : ℕ) → cover z' p + in_block page low p ≡ cover z p + in_block page high p)

abbrev upper_half : Zone → ℕ → ℕ → Zone
upper_half z page high = inserted z (page + 2 ^ high) high ((page + 2 ^ high) ∷ z.free_list high)

expand_step :
    (z : Zone) (page low high : ℕ)
    → IsValid z
    → high < free_areas
    → Fits z (page + 2 ^ high) high
    → low < suc high
    → expand_loop z page low (suc high) (2 ^ suc high)
      ≡ expand_loop (upper_half z page high) page low high (2 ^ high)
unfolding expand_loop set_page_private
expand_step z page low high v l fits below =
    let half : 2 ^ suc high / 2 ≡ 2 ^ high = omega (arith, pow_double high) in
    let inner : ltb low (suc high) ≡ true = lt→ltb low (suc high) below in
    rw (inner, half, add_to_free_list-linked z (page + 2 ^ high) high v l fits) refl

expand_loop-Expanded :
    (high : ℕ) (z : Zone) (page low : ℕ)
    → IsValid z
    → high ≤ free_areas
    → low ≤ high
    → Fits z page high
    → Returns (Expanded z page low high) (expand_loop z page low high (2 ^ high))
unfolding expand_loop
expand_loop-Expanded zero z page low v l below fits =
    let at : low ≡ 0 = omega (arith, below) in
    returns (v, λ p. ap (λ t. cover z p + in_block page t p) at)
expand_loop-Expanded (suc high) z page low v l below fits = elim (Bool-cases (ltb low (suc high))) [
  | inr out ↦
      let at : low ≡ suc high = ground (arith, below, out) in
      rw out (returns (v, λ p. ap (λ t. cover z p + in_block page t p) at))
  | inl inner ↦
      let lower = ltb→lt low (suc high) inner in
      let halves = λ (p : ℕ). in_block-halves page high p in
      let upper : Fits z (page + 2 ^ high) high = λ p. omega (arith, fits p, halves p) in
      let l' : high < free_areas = omega (arith, l) in
      let z' = upper_half z page high in
      let (v', more) = head-Added z (page + 2 ^ high) high v l' upper in
      subst (Returns _) (sym (expand_step z page low high v l' upper lower)) (
        Returns-mono
          (expand_loop-Expanded high z' page low v' (omega (arith, l)) (omega (arith, lower))
            (λ p. omega (arith, fits p, halves p, more p)))
          (λ w e. (e.0, λ p. omega (arith, e.1 p, halves p, more p))))
]

-- The page that is the first of the first list from `order` on with a page, if there is one.
abbrev pub FirstFit : Zone → ℕ → ℕ → Type 0
FirstFit z order page =
    (k : ℕ) × (order ≤ k)
    × (k < free_areas)
    × (get_page_from_free_area (z.free_list k) ≡ some page)
    × ((o : ℕ) → order ≤ o → o < k → z.free_list o ≡ [])

-- What an allocation of 2^order pages gives: the first fitting block, none of whose pages is free any more,
-- or NULL with no change where all lists from `order` on are empty.
abbrev pub Taken : Zone → ℕ → Option ℕ × Zone → Type 0
Taken z order (none, z') = (z' ≡ z) × ((o : ℕ) → order ≤ o → o < free_areas → z.free_list o ≡ [])
Taken z order (some page, z') =
    IsValid z'
    × ((p : ℕ) → cover z p ≡ cover z' p + in_block page order p)
    × (z'.index page ≡ migrate_unmovable)
    × FirstFit z order page

pub none-empty : (bs : List ℕ) → get_page_from_free_area bs ≡ none → bs ≡ []
unfolding get_page_from_free_area
none-empty [] e = refl
none-empty (b ∷ bs) e = absurd (ground (arith, e))

pub first-elem : (b : ℕ) (bs : List ℕ) → get_page_from_free_area bs ≡ some b → elem b bs ≡ true
unfolding get_page_from_free_area
first-elem b [] e = absurd (ground (arith, e))
first-elem b (x ∷ bs) e = ground (arith, e)

-- The block that is found is cut to size.
pub cut :
    (z : Zone) (page order k : ℕ)
    → IsValid z
    → k < free_areas
    → order ≤ k
    → elem page (z.free_list k) ≡ true
    → Returns
        (λ z'. IsValid z' × ((p : ℕ) → cover z p ≡ cover z' p + in_block page order p))
        (del_page_from_free_list z page k >>= λ d. expand d page order k)
unfolding expand
cut z page order k v l below there =
    let (run, v') = del_page_from_free_list-deleted z page k v l there in
    let less = cover-deleted z page k v l there in
    let d = deleted z page k in
    subst (Returns _) (sym (ap (λ r. r >>= λ d. expand d page order k) run)) (
      Returns-mono
        (expand_loop-Expanded k d page order v' (omega (arith, l)) below
          (λ p. omega (arith, less p, v.single p)))
        (λ w e. (e.0, λ p. omega (arith, e.1 p, less p))))
