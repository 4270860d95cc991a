-- ===== src/Mmap/Tree.antt =====
-- mm/mmap.c, find_vma: the descent in the tree finds the first area that ends after the address.
use kernel_travel.Base.{
  ℕ, ◌≤◌, ◌<◌, ◌≡◌, refl, sym, ap, ◌∙◌, subst, inl, inr, true, Option, none, some, List, [], ◌∷◌,
  ◌++◌, arith, ltb, leb, if◌then◌else◌, lt→ltb, le→ltb, Bool-cases,
}
use kernel_travel.Mmap.{
  Vma, Rb, leaf, node, Mm, find_loop, contains, remember, search_tree, find_cached, find_vma,
}

-- The areas do not overlap, rise, and start at `lo` at least.
pub data Areas : ℕ → List Vma → Type 0 where
  areas_end : {lo : ℕ} → Areas lo []
  area :
      {lo : ℕ} {v : Vma} {vs : List Vma}
      → lo ≤ v.vm_start
      → v.vm_start < v.vm_end
      → Areas v.vm_end vs
      → Areas lo (v ∷ vs)

abbrev pub inorder : Rb → List Vma
inorder leaf = []
inorder (node left v right) = inorder left ++ (v ∷ inorder right)

-- The first area that ends after `addr`.
abbrev pub first_above : List Vma → ℕ → Option Vma
first_above [] addr = none
first_above (v ∷ vs) addr = if ltb addr v.vm_end then some v else first_above vs addr

abbrev or_else : Option Vma → Option Vma → Option Vma
or_else none b = b
or_else (some a) b = some a

pub Areas-weaken : {lo lo' : ℕ} {vs : List Vma} → lo' ≤ lo → Areas lo vs → Areas lo' vs
Areas-weaken h areas_end = areas_end
Areas-weaken h (area a b c) = area (omega (arith, h, a)) b c

Areas-left : {lo : ℕ} (xs ys : List Vma) → Areas lo (xs ++ ys) → Areas lo xs
Areas-left [] ys a = areas_end
Areas-left (x ∷ xs) ys (area a b c) = area a b (Areas-left xs ys c)

Areas-right : {lo : ℕ} (xs ys : List Vma) → Areas lo (xs ++ ys) → Areas lo ys
Areas-right [] ys a = a
Areas-right (x ∷ xs) ys (area a b c) = Areas-weaken (omega (arith, a, b)) (Areas-right xs ys c)

Areas-start : {lo : ℕ} {v : Vma} {vs : List Vma} → Areas lo (v ∷ vs) → lo ≤ v.vm_start
Areas-start (area a b c) = a

Areas-tail : {lo : ℕ} {v : Vma} {vs : List Vma} → Areas lo (v ∷ vs) → Areas 0 vs
Areas-tail (area a b c) = Areas-weaken (omega arith) c

Areas-nonempty : {lo : ℕ} {v : Vma} {vs : List Vma} → Areas lo (v ∷ vs) → v.vm_start < v.vm_end
Areas-nonempty (area a b c) = b

first_above-append :
    (xs ys : List Vma) (addr : ℕ)
    → first_above (xs ++ ys) addr ≡ or_else (first_above xs addr) (first_above ys addr)
first_above-append [] ys addr = refl
first_above-append (x ∷ xs) ys addr = ground (arith, first_above-append xs ys addr)

-- No area before one that starts at or below `addr` ends after it.
none_before :
    {lo : ℕ} (xs : List Vma) (v : Vma) (ys : List Vma) (addr : ℕ)
    → Areas lo (xs ++ (v ∷ ys))
    → v.vm_start ≤ addr
    → first_above xs addr ≡ none
none_before [] v ys addr a h = refl
none_before (x ∷ xs) v ys addr (area a b c) h =
    let above : x.vm_end ≤ v.vm_start = Areas-start (Areas-right xs (v ∷ ys) c) in
    rw (le→ltb addr x.vm_end (omega (arith, above, h))) (none_before xs v ys addr c h)

first_above-here :
    {lo : ℕ} (xs : List Vma) (v : Vma) (ys : List Vma) (addr : ℕ)
    → Areas lo (xs ++ (v ∷ ys))
    → contains v addr ≡ true
    → first_above (xs ++ (v ∷ ys)) addr ≡ some v
first_above-here xs v ys addr a h =
    let inside : (v.vm_start ≤ addr) × (addr < v.vm_end) = (ground (arith, h), ground (arith, h)) in
    rw
      (
        first_above-append xs (v ∷ ys) addr,
        none_before xs v ys addr a inside.0,
        lt→ltb addr v.vm_end inside.1,
      )
      refl

or_else-some :
    (a : Option Vma) (v : Vma) (acc : Option Vma)
    → or_else a (some v) ≡ or_else (or_else a (some v)) acc
or_else-some none v acc = refl
or_else-some (some a) v acc = refl

find_loop-first_above :
    {lo : ℕ} (t : Rb) (addr : ℕ) (acc : Option Vma)
    → Areas lo (inorder t)
    → find_loop t addr acc ≡ or_else (first_above (inorder t) addr) acc
unfolding find_loop
find_loop-first_above leaf addr acc a = refl
find_loop-first_above (node l v r) addr acc a =
    let ih_left =
      find_loop-first_above l addr (some v) (Areas-left (inorder l) (v ∷ inorder r) a) in
    let ih_right =
      find_loop-first_above r addr acc (Areas-tail (Areas-right (inorder l) (v ∷ inorder r) a)) in
    let nonempty = Areas-nonempty (Areas-right (inorder l) (v ∷ inorder r) a) in
    let before = none_before (inorder l) v (inorder r) addr a in
    rw (first_above-append (inorder l) (v ∷ inorder r) addr)
      (elim (Bool-cases (ltb addr v.vm_end)) [
        | inl e ↦ elim (Bool-cases (leb v.vm_start addr)) [
          | inl e' ↦ rw (e, e', before (ground (arith, e'))) refl
          | inr e' ↦ rw (e, e', ih_left) (or_else-some (first_above (inorder l) addr) v acc)
        ]
        | inr e ↦ rw (e, ih_right, before (ground (arith, e, nonempty))) refl
      ])

-- The list has the areas of the tree in order, and the cache, if set, is one of them.
pub record IsMm (mm : Mm) : Type 0 where
  pub sorted : Areas 0 mm.mmap
  pub same : inorder mm.mm_rb ≡ mm.mmap
  pub cached : (v : Vma) → mm.mmap_cache ≡ some v → (xs ys : List Vma) × (mm.mmap ≡ xs ++ (v ∷ ys))

pub some_inj : {A : Type 0} {a b : A} → some a ≡ some b → a ≡ b
some_inj {A} {a} e = ap (λ o. elim o [ none ↦ a | some x ↦ x ]) e

first_above-split :
    (vs : List Vma) (addr : ℕ) (v : Vma)
    → first_above vs addr ≡ some v
    → (xs ys : List Vma) × (vs ≡ xs ++ (v ∷ ys))
first_above-split [] addr v e = absurd (ground (arith, e))
first_above-split (w ∷ vs) addr v e = elim (Bool-cases (ltb addr w.vm_end)) [
  | inl b ↦ let here : w ≡ v = some_inj (rw b at e) in ([], vs, ap (λ x. x ∷ vs) here)
  | inr b ↦
      let (xs, ys, later) = first_above-split vs addr v (rw b at e) in
      (w ∷ xs, ys, ap (λ rest. w ∷ rest) later)
]

or_else-none : (a : Option Vma) → or_else a none ≡ a
or_else-none none = refl
or_else-none (some a) = refl

-- What a search for an area leaves: the areas, the cache at most changed.
pub record Searched (mm mm' : Mm) : Type 0 where
  pub valid : IsMm mm'
  pub same_areas : mm'.mmap ≡ mm.mmap
  pub same_free : mm'.free_area_cache ≡ mm.free_area_cache

abbrev pub Found : Mm → ℕ → Option Vma × Mm → Type 0
Found mm addr (vma, mm') = (vma ≡ first_above mm.mmap addr) × Searched mm mm'

module _ {mm : Mm} (v : IsMm mm) (addr : ℕ) where
  Searched-same : Searched mm mm
  Searched-same = record { valid = v; same_areas = refl; same_free = refl }

  remember-Found : (r : Option Vma) → r ≡ first_above mm.mmap addr → Found mm addr (remember mm r)
  remember-Found none e = (e, Searched-same)
  remember-Found (some w) e = (
    e,
    record {
      valid = record {
        sorted = v.sorted;
        same = v.same;
        cached = λ u eu.
            subst (λ x. (xs ys : List Vma) × (mm.mmap ≡ xs ++ (x ∷ ys))) (some_inj eu)
              (first_above-split mm.mmap addr w (sym e));
      };
      same_areas = refl;
      same_free = refl;
    },
  )

  search_tree-Found : Found mm addr (search_tree mm addr)
  unfolding search_tree
  search_tree-Found = remember-Found (find_loop mm.mm_rb addr none) (
      find_loop-first_above mm.mm_rb addr none (subst (Areas 0) (sym v.same) v.sorted)
      ∙ or_else-none (first_above (inorder mm.mm_rb) addr)
      ∙ ap (λ vs. first_above vs addr) v.same)

  cached_area-first :
      (w : Vma)
      → mm.mmap_cache ≡ some w
      → contains w addr ≡ true
      → some w ≡ first_above mm.mmap addr
  cached_area-first w e h =
      let (xs, ys, split) = v.cached w e in
      sym (first_above-here xs w ys addr (subst (Areas 0) split v.sorted) h)
      ∙ ap (λ vs. first_above vs addr) (sym split)

  find_cached-Found :
      (cache : Option Vma) → mm.mmap_cache ≡ cache → Found mm addr (find_cached mm cache addr)
  unfolding find_cached
  find_cached-Found none e = search_tree-Found
  find_cached-Found (some w) e = elim (Bool-cases (contains w addr)) [
    | inl h ↦ rw h (cached_area-first w e h, Searched-same)
    | inr h ↦ rw h search_tree-Found
  ]

  -- find_vma finds the first area, in the order of addresses, that ends after `addr`, or none if none does;
  -- the areas stay as they are, and the cache holds an area of the process.
  pub find_vma-first_above : Found mm addr (find_vma mm addr)
  unfolding find_vma
  find_vma-first_above = find_cached-Found mm.mmap_cache refl
