-- ===== src/Buddy/Free.antt =====
-- mm/memory.c: free_one_page and the merging of buddies.
use kernel_travel.Base.{
  ℕ, zero, suc, ◌+◌, ◌-◌, ◌≤◌, ◌<◌, bit_and, ◌≡◌, refl, sym, ap, ◌∙◌, subst, inl, inr, Bool, true,
  false, not, ◌||◌, Option, none, some, arith, ◌==◌, ==_iff, lt→ltb, le→ltb, Bool-cases,
  Option-cases, Outcome, ok, fault, ◌>>=◌, Returns, returns, Returns-bind, Returns-mono, if-false,
  assert_run, flip_digit,
}
use kernel_travel.Boot.{max_page_order}
use kernel_travel.LinkedList.Chain.{elem}
use kernel_travel.Buddy.{
  Zone, Merge, or_null, buddy_order, free_areas, merge_loop, free_one_page, find_buddy_pfn,
  page_is_buddy, find_buddy_page_pfn, del_page_from_free_list, set_page_private, is_listed,
  buddy_merge_likely, list_del,
}
use kernel_travel.Buddy.Cover.{in_block, in_block-halves, cover}
use kernel_travel.Buddy.Valid.{IsValid, Fits}
use kernel_travel.Buddy.Change.{
  Added, deleted, cover-deleted, del_page_from_free_list-deleted, tagged-Added,
}

-- A page of order 0 whose buddy has private 0 is merged with it, so the buddy must be free then.
abbrev pub Unmistaken : Zone → ℕ → ℕ → Type 0
Unmistaken z pfn order =
    order ≡ 0
    → buddy_order z (find_buddy_pfn pfn 0) ≡ 0
    → elem (find_buddy_pfn pfn 0) (z.free_list 0) ≡ true

-- A block and its buddy are the block of the next order.
in_block-merged :
    (pfn order p : ℕ)
    → in_block (bit_and (find_buddy_pfn pfn order) pfn) (suc order) p
      ≡ in_block pfn order p + in_block (find_buddy_pfn pfn order) order p
unfolding find_buddy_pfn
in_block-merged pfn order p =
    let buddy = find_buddy_pfn pfn order in
    elim (flip_digit order pfn) [
      | inl (up, both) ↦
          ap (λ b. in_block b (suc order) p) both
          ∙ in_block-halves pfn order p
          ∙ ap (λ b. in_block pfn order p + in_block b order p) (sym up)
      | inr (down, both) ↦
          let split = ap (λ b. in_block b (suc order) p) both ∙ in_block-halves buddy order p in
          let upper = ap (λ b. in_block b order p) down in omega (arith, split, upper)
    ]

-- What the loop of free_one_page keeps: the pages that are free, or in the block to be freed.
record Merging (z : Zone) (pfn order : ℕ) (m : Merge) : Type 0 where
  valid : IsValid m.zone
  small : m.order < free_areas
  fits : Fits m.zone m.pfn m.order
  keeps : (p : ℕ) → cover m.zone p + in_block m.pfn m.order p ≡ cover z p + in_block pfn order p

buddy_tagged :
    (z : Zone) (pfn order b : ℕ)
    → find_buddy_page_pfn z pfn order ≡ some b
    → (b ≡ find_buddy_pfn pfn order) × (buddy_order z b ≡ order)
unfolding find_buddy_page_pfn page_is_buddy
buddy_tagged z pfn order b e =
    let found = find_buddy_pfn pfn order in
    elim (Bool-cases (buddy_order z found == order)) [
      | inl same ↦
          let at : found ≡ b = ground (arith, same, e) in
          (sym at, ap (buddy_order z) (sym at) ∙ (==_iff (buddy_order z found) order).0 same)
      | inr other ↦ absurd (ground (arith, other, e))
    ]

buddy-listed :
    (z : Zone) (pfn order b : ℕ)
    → IsValid z
    → order < max_page_order
    → Unmistaken z pfn order
    → b ≡ find_buddy_pfn pfn order
    → buddy_order z b ≡ order
    → elem b (z.free_list order) ≡ true
buddy-listed z pfn zero b v l known at tag =
    subst (λ t. elem t (z.free_list 0) ≡ true) (sym at)
      (known refl (ap (buddy_order z) (sym at) ∙ tag))
buddy-listed z pfn (suc order) b v l known at tag = v.found order b (omega (arith, l)) tag

abbrev start : Zone → ℕ → ℕ → ℕ → Merge
start z pfn order buddy_pfn = record { zone = z; pfn = pfn; order = order; buddy_pfn = buddy_pfn }

module _ (z : Zone) (pfn order b : ℕ) (v : IsValid z) (l : order < max_page_order)
    (fits : Fits z pfn order) (listed : elem b (z.free_list order) ≡ true)
    (at : b ≡ find_buddy_pfn pfn order) where
  less : (p : ℕ) → cover z p ≡ cover (deleted z b order) p + in_block b order p
  less = cover-deleted z b order v (omega (arith, l)) listed

  merged :
      (p : ℕ)
      → in_block (bit_and (find_buddy_pfn pfn order) pfn) (suc order) p
        ≡ in_block pfn order p + in_block b order p
  merged p =
      in_block-merged pfn order p ∙ ap (λ t. in_block pfn order p + in_block t order p) (sym at)

  -- A round of the loop that merges.
  next-keeps :
      (p : ℕ)
      → cover (deleted z b order) p
          + in_block (bit_and (find_buddy_pfn pfn order) pfn) (suc order) p
        ≡ cover z p + in_block pfn order p
  next-keeps p = omega (arith, less p, merged p)

-- A round of the loop that merges with `buddy`.
abbrev merge_round : ℕ → Zone → ℕ → ℕ → ℕ → Outcome Merge
merge_round left z pfn order buddy = do
  z' ← del_page_from_free_list z buddy order
  merge_loop left
      (start z' (bit_and (find_buddy_pfn pfn order) pfn) (suc order) (find_buddy_pfn pfn order))

merge_step :
    (left : ℕ) (z : Zone) (pfn order buddy_pfn : ℕ) (r : Option ℕ)
    → order < max_page_order
    → find_buddy_page_pfn z pfn order ≡ r
    → merge_loop (suc left) (start z pfn order buddy_pfn)
      ≡ or_null r (ok (start z pfn order (find_buddy_pfn pfn order))) (merge_round left z pfn order)
unfolding merge_loop
merge_step left z pfn order buddy_pfn r l e =
    if-false _ _ (ap not (lt→ltb order max_page_order l))
    ∙ ap
        (λ o.
          or_null o (ok (start z pfn order (find_buddy_pfn pfn order)))
            (merge_round left z pfn order))
        e

merge_loop-Merging :
    (left : ℕ) (z : Zone) (pfn order buddy_pfn : ℕ)
    → IsValid z
    → order + left ≡ max_page_order
    → Fits z pfn order
    → Unmistaken z pfn order
    → Returns (Merging z pfn order) (merge_loop left (start z pfn order buddy_pfn))
unfolding merge_loop
merge_loop-Merging zero z pfn order buddy_pfn v reach fits known =
    subst (Returns _) (sym (if-false _ _ (le→ltb order max_page_order (omega (arith, reach)))))
      (returns (record { valid = v; small = omega (arith, reach); fits = fits; keeps = λ p. refl }))
merge_loop-Merging (suc left) z pfn order buddy_pfn v reach fits known =
    let l : order < max_page_order = omega (arith, reach) in
    elim (Option-cases (find_buddy_page_pfn z pfn order)) [
      | inl e ↦
          subst (Returns _) (sym (merge_step left z pfn order buddy_pfn none l e)) (
            returns
              (record { valid = v; small = omega (arith, l); fits = fits; keeps = λ p. refl }))
      | inr (b, e) ↦
          let (at, tag) = buddy_tagged z pfn order b e in
          let listed = buddy-listed z pfn order b v l known at tag in
          let (run, v') = del_page_from_free_list-deleted z b order v (omega (arith, l)) listed in
          let kept = next-keeps z pfn order b v l fits listed at in
          let pfn' = bit_and (find_buddy_pfn pfn order) pfn in
          subst (Returns _)
            (sym (
              merge_step left z pfn order buddy_pfn (some b) l e
              ∙ ap
                  (λ m. do
                    z' ← m
                    merge_loop left (start z' pfn' (suc order) (find_buddy_pfn pfn order)))
                  run))
            (Returns-mono
              (merge_loop-Merging left (deleted z b order) pfn' (suc order)
                (find_buddy_pfn pfn order) v' (omega (arith, reach))
                (λ p. omega (arith, kept p, fits p)) (λ zeroth. absurd (omega (arith, zeroth))))
              (λ m k. record {
                valid = k.valid;
                small = k.small;
                fits = k.fits;
                keeps = λ p. k.keeps p ∙ kept p;
              }))
    ]

-- free_one_page of a block, none of whose pages is free, in a valid zone: for an order from 1 on, and for
-- order 0 where the buddy's private is not 0 or the buddy is a free page, it ends well, the zone is valid then
-- and exactly the pages of the block are free in addition.
pub free_one_page-Added :
    (z : Zone) (pfn order : ℕ) (to_tail : Bool)
    → IsValid z
    → order ≤ max_page_order
    → Fits z pfn order
    → Unmistaken z pfn order
    → Returns (Added z pfn order) (free_one_page z pfn order to_tail)
unfolding free_one_page
free_one_page-Added z pfn order to_tail v l fits known =
    subst (Returns _) (sym (assert_run _ v.initialized)) (
      Returns-bind
        (merge_loop-Merging (max_page_order - order) z pfn order 0 v (omega (arith, l)) fits known)
        (λ m k.
          Returns-mono
            (tagged-Added m.zone m.pfn m.order k.valid k.small k.fits (
              to_tail
              || buddy_merge_likely (set_page_private m.zone m.pfn m.order) m.pfn m.buddy_pfn
                  m.order))
            (λ w a. (a.0, λ p. a.1 p ∙ k.keeps p))))

find_mistaken :
    (z : Zone) (pfn : ℕ)
    → buddy_order z (find_buddy_pfn pfn 0) ≡ 0
    → find_buddy_page_pfn z pfn 0 ≡ some (find_buddy_pfn pfn 0)
unfolding find_buddy_page_pfn page_is_buddy
find_mistaken z pfn tag = ground (arith, tag)

del_unlisted :
    (z : Zone) (page order : ℕ)
    → is_listed z page ≡ false
    → del_page_from_free_list z page order ≡ fault
unfolding del_page_from_free_list list_del
del_unlisted z page order absent = rw absent refl

faults : {A B : Type 0} {m : Outcome A} (f : A → Outcome B) → m ≡ fault → (m >>= f) ≡ fault
faults f e = ap (λ m. m >>= f) e

-- free_one_page of a single page whose buddy is in no list and has private 0, as an allocated page has: the
-- buddy is taken for a free page, and list_del of it follows links that are NULL or poison.
pub free_one_page-fault :
    (z : Zone) (pfn : ℕ) (to_tail : Bool)
    → z.initialized ≡ true
    → buddy_order z (find_buddy_pfn pfn 0) ≡ 0
    → is_listed z (find_buddy_pfn pfn 0) ≡ false
    → free_one_page z pfn 0 to_tail ≡ fault
unfolding free_one_page
free_one_page-fault z pfn to_tail i tag absent =
    let buddy = find_buddy_pfn pfn 0 in
    assert_run _ i
    ∙ faults _ (
        merge_step 9 z pfn 0 0 (some buddy) (omega arith) (find_mistaken z pfn tag)
        ∙ faults _ (del_unlisted z buddy 0 absent))
