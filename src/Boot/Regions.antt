-- ===== src/Boot/Regions.antt =====
-- mm/memblock.c: memblock_add_range, and what of it the loops over the regions see.
use kernel_travel.Base.{
  ℕ, zero, suc, ◌+◌, ◌-◌, ◌≤◌, ◌≡◌, refl, sym, ap, ◌∙◌, subst, true, false, not, ◌||◌, Option, none,
  some, List, [], ◌∷◌, ◌++◌, arith, ◌==◌, u64, length, get_elem?, set, take, ok, fault, assert,
  present, Returns, returns, get_elem?-in, if-true, if-false, bind_ok,
}
use kernel_travel.Boot.{
  Region, MemblockType, init_regions, memblock_fit_size, empty_loop, put_region, memblock_add_range,
  memblock_end_of_dram, next_mem_pfn_range,
}

-- Regions that are all in use.
abbrev pub Used : List Region → Type 0
Used [] = Unit
Used (r ∷ rs) = ((r.size == 0) ≡ false) × Used rs

take_all : (rs : List Region) (n : ℕ) → length rs ≤ n → take n rs ≡ rs
take_all [] zero h = refl
take_all [] (suc n) h = refl
take_all (r ∷ rs) zero h = absurd (omega (arith, h))
take_all (r ∷ rs) (suc n) h = ap (λ q. r ∷ q) (take_all rs n (omega (arith, h)))

empty_loop-first :
    (xs : List Region) (r : Region) (ys : List Region) (i : ℕ)
    → Used xs
    → r.size ≡ 0
    → empty_loop (xs ++ r ∷ ys) i ≡ some (i + length xs)
unfolding empty_loop
empty_loop-first [] r ys i u e =
    let there : (r.size == 0) ≡ true = ground (arith, e) in
    if-true _ _ there ∙ ap some (omega arith)
empty_loop-first (x ∷ xs) r ys i u e =
    if-false _ _ u.0 ∙ empty_loop-first xs r ys (i + 1) u.1 e ∙ ap some (omega arith)

empty_loop-none : (xs : List Region) (i : ℕ) → Used xs → empty_loop xs i ≡ none
unfolding empty_loop
empty_loop-none [] i u = refl
empty_loop-none (x ∷ xs) i u = if-false _ _ u.0 ∙ empty_loop-none xs (i + 1) u.1

set_at :
    (xs : List Region) (r q : Region) (ys : List Region)
    → set (xs ++ r ∷ ys) (length xs) q ≡ xs ++ q ∷ ys
set_at [] r q ys = refl
set_at (x ∷ xs) r q ys = ap (λ v. x ∷ v) (set_at xs r q ys)

-- What memblock_add_range makes of a table.
abbrev pub added : MemblockType → ℕ → ℕ → List Region → MemblockType
added t base size regions = record t {
  regions = regions;
  total_size = u64 (t.total_size + memblock_fit_size base size);
}

module _ (t : MemblockType) (base size : ℕ) (whole : length t.regions ≡ init_regions)
    (one : t.cnt ≡ 1) where
  first_read :
      (first : Region) → assert (not (first.size == 0) || t.cnt == 1 || t.total_size == 0) ≡ ok tt
  first_read first =
      let holds : (not (first.size == 0) || t.cnt == 1 || t.total_size == 0) ≡ true =
        ground (arith, one) in
      rw holds refl

  add_with :
      (o : Option ℕ)
      → empty_loop t.regions 0 ≡ o
      → memblock_add_range t base size ≡ put_region t o base (memblock_fit_size base size)
  unfolding memblock_add_range
  add_with o e =
      let head = get_elem?-in t.regions 0 (omega (arith, whole)) in
      bind_ok _ (ap present head.1)
      ∙ bind_ok _ (first_read head.0)
      ∙ ap (λ p. put_region t p base (memblock_fit_size base size))
          (ap (λ q. empty_loop q 0) (take_all t.regions init_regions (omega (arith, whole))) ∙ e)

  -- Where `cnt` is 1 and the table has an empty place, memblock_add_range puts the range, cut off at the
  -- highest address, in the first such place, and changes no other region and not `cnt`; where every place
  -- is in use it writes before the array.
  pub memblock_add_range-first :
      ((xs ys : List Region) (r : Region)
        → t.regions ≡ xs ++ r ∷ ys
        → Used xs
        → r.size ≡ 0
        → memblock_add_range t base size
          ≡ ok (
              added t base size
                (xs ++ record { base = base; size = memblock_fit_size base size; nid = 0 } ∷ ys)))
      × (Used t.regions → memblock_add_range t base size ≡ fault)
  unfolding put_region
  memblock_add_range-first = (
    λ xs ys r e u z.
        let q : Region = record { base = base; size = memblock_fit_size base size; nid = 0 } in
        let place : 0 + length xs ≡ length xs = omega arith in
        add_with (some (length xs))
          (ap (λ v. empty_loop v 0) e ∙ empty_loop-first xs r ys 0 u z ∙ ap some place)
        ∙ ap (λ v. ok (added t base size v)) (ap (λ v. set v (length xs) q) e ∙ set_at xs r q ys),
    λ u. add_with none (empty_loop-none t.regions 0 u),
  )

none_beyond : (nid : ℕ) (rs : List Region) → next_mem_pfn_range nid rs 1 1 ≡ none
unfolding next_mem_pfn_range
none_beyond nid [] = refl
none_beyond nid (r ∷ rs) = refl

one_seen :
    (nid : ℕ) (x : Region) (rs rs' : List Region)
    → next_mem_pfn_range nid (x ∷ rs) 1 0 ≡ next_mem_pfn_range nid (x ∷ rs') 1 0
unfolding next_mem_pfn_range
one_seen nid x rs rs' = rw (none_beyond nid rs, none_beyond nid rs') refl

end_at :
    (t : MemblockType) (x : Region) (rs : List Region)
    → t.cnt ≡ 1
    → t.regions ≡ x ∷ rs
    → memblock_end_of_dram t ≡ ok (u64 (x.base + x.size))
unfolding memblock_end_of_dram
end_at t x rs one e =
    bind_ok _ (ap present (ap (λ c. get_elem? t.regions (c - 1)) one ∙ ap (λ v. get_elem? v 0) e))

-- A region behind the first does not show in the loop over the regions and in the end of the memory, where
-- `cnt` is 1.
pub added-unseen :
    (t : MemblockType) (base size : ℕ) (x r : Region) (xs ys : List Region)
    → length t.regions ≡ init_regions
    → t.cnt ≡ 1
    → t.regions ≡ (x ∷ xs) ++ r ∷ ys
    → Used (x ∷ xs)
    → r.size ≡ 0
    → Returns
        (λ t'.
          ((nid : ℕ)
            → next_mem_pfn_range nid t'.regions t'.cnt 0 ≡ next_mem_pfn_range nid t.regions t.cnt 0)
          × (memblock_end_of_dram t' ≡ memblock_end_of_dram t))
        (memblock_add_range t base size)
unfolding next_mem_pfn_range memblock_end_of_dram
added-unseen t base size x r xs ys whole one e u z =
    let q : Region = record { base = base; size = memblock_fit_size base size; nid = 0 } in
    let t' = added t base size (x ∷ (xs ++ q ∷ ys)) in
    let made : memblock_add_range t base size ≡ ok t' =
      (memblock_add_range-first t base size whole one).0 (x ∷ xs) ys r e u z in
    let loops : (nid : ℕ)
        → next_mem_pfn_range nid t'.regions t'.cnt 0 ≡ next_mem_pfn_range nid t.regions t.cnt 0 =
      λ nid.
        ap (λ c. next_mem_pfn_range nid t'.regions c 0) one
        ∙ one_seen nid x (xs ++ q ∷ ys) (xs ++ r ∷ ys)
        ∙ sym (ap (λ v. next_mem_pfn_range nid v 1 0) e)
        ∙ sym (ap (λ c. next_mem_pfn_range nid t.regions c 0) one) in
    let ends : memblock_end_of_dram t' ≡ memblock_end_of_dram t =
      end_at t' x (xs ++ q ∷ ys) one refl ∙ sym (end_at t x (xs ++ r ∷ ys) one e) in
    subst (Returns _) (sym made) (returns (loops, ends))
