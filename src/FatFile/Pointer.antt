-- ===== src/FatFile/Pointer.antt =====
-- fs/fat32/filepnt.c: the table of clusters is an array.
use kernel_travel.Base.{
  ℕ, zero, suc, ◌+◌, ◌-◌, ◌*◌, ◌/◌, ◌%◌, ◌≤◌, ◌<◌, ◌≡◌, refl, sym, ap, ◌∙◌, subst, ◌≢◌, inl, inr,
  true, false, Option, none, some, arith, ltb, leb, ◌==◌, u32, Bool-cases, ok, Returns, returns,
  Returns-bind, if-true, if-false, assert-true, is_ok, assert_run,
}
use kernel_travel.Base.{Returns-bind}
use kernel_travel.FatFile.{
  DirentPointer, Clusters, or_pointers, put_pointer, entered, cluster_at, third_at, filepnt_setval,
  filepnt_getclusbyno, page_nclusno, ndirent_secpointer, third_pointers, page_for,
}

-- The number of clusters that the table has room for.
abbrev pub table_size : ℕ
table_size = (ndirent_secpointer + third_pointers) * page_nclusno

-- What a table answers at each index after an entry.
pub record IsEntered (p p' : DirentPointer) (i value : ℕ) : Type 0 where
  pub here : filepnt_getclusbyno p' i ≡ ok (u32 value)
  pub others : (j v : ℕ) → j ≢ i → filepnt_getclusbyno p j ≡ ok v → filepnt_getclusbyno p' j ≡ ok v
  pub same_valid : p'.valid ≡ p.valid

same_of : (a b : ℕ) → (a == b) ≡ true → a ≡ b
same_of a b e = ground (arith, e)

self_same : (a : ℕ) → (a == a) ≡ true
self_same a = ground arith

entered-other :
    (t : Option Clusters) (index k value v : ℕ)
    → k ≢ index
    → cluster_at t k ≡ ok v
    → cluster_at (some (entered t index value)) k ≡ ok v
entered-other none index k value v ne e = absurd (ground (arith, ap is_ok e))
entered-other (some t) index k value v ne e =
    ap ok (if-false {b = k == index} _ _ (ground (arith, ne))) ∙ e

-- The entry in the page at `at`, as the pages at `a` show it.
put_pointer-other :
    (t : ℕ → Option Clusters) (at index a k value v : ℕ)
    → ((a == at) ≡ true → k ≢ index)
    → cluster_at (t a) k ≡ ok v
    → cluster_at (put_pointer t at (entered (t at) index value) a) k ≡ ok v
put_pointer-other t at index a k value v ne e = elim (Bool-cases (a == at)) [
  | inl h ↦
      ap (λ o. cluster_at o k) (if-true _ _ h)
      ∙ entered-other (t at) index k value v (ne h)
          (ap (λ b. cluster_at (t b) k) (sym (same_of a at h)) ∙ e)
  | inr h ↦ ap (λ o. cluster_at o k) (if-false _ _ h) ∙ e
]

put_pointer-here :
    (t : ℕ → Option Clusters) (at index value : ℕ)
    → cluster_at (put_pointer t at (entered (t at) index value) at) index ≡ ok (u32 value)
put_pointer-here t at index value =
    ap (λ o. cluster_at o index) (if-true _ _ (self_same at))
    ∙ ap ok (if-true _ _ (self_same index))

or_pointers-at :
    (t : Option (ℕ → Option Clusters)) (a k v : ℕ)
    → third_at t a k ≡ ok v
    → cluster_at (or_pointers t a) k ≡ ok v
or_pointers-at none a k v e = absurd (ground (arith, ap is_ok e))
or_pointers-at (some t) a k v e = e

module _ (p : DirentPointer) (i value : ℕ) (h : i < table_size) where
  abbrev index1 : ℕ
  index1 = i / page_nclusno

  abbrev index2 : ℕ
  index2 = i % page_nclusno

  low-IsEntered :
      ltb index1 ndirent_secpointer ≡ true
      → IsEntered p
          (record p {
            second = put_pointer p.second index1 (entered (p.second index1) index2 value);
          })
          i
          value
  unfolding filepnt_getclusbyno
  low-IsEntered low = record {
    here = if-true _ _ low ∙ put_pointer-here p.second index1 index2 value;
    others = λ j v ne e. elim (Bool-cases (ltb (j / page_nclusno) ndirent_secpointer)) [
      | inl t ↦
          if-true _ _ t
          ∙ put_pointer-other p.second index1 index2 (j / page_nclusno) (j % page_nclusno) value v
              (λ m k. ne (ground (arith, m, k))) (sym (if-true _ _ t) ∙ e)
      | inr t ↦ if-false _ _ t ∙ sym (if-false _ _ t) ∙ e
    ];
    same_valid = refl;
  }

  room :
      ltb index1 ndirent_secpointer ≡ false
      → ltb (index1 - ndirent_secpointer) third_pointers ≡ true
  room high = ground (arith, h, high)

  high-IsEntered :
      ltb index1 ndirent_secpointer ≡ false
      → IsEntered p
          (record p {
            third = some (
                put_pointer
                  (or_pointers p.third)
                  (index1 - ndirent_secpointer)
                  (entered (or_pointers p.third (index1 - ndirent_secpointer)) index2 value));
          })
          i
          value
  unfolding filepnt_getclusbyno
  high-IsEntered high = record {
    here =
        if-false _ _ high
        ∙ assert_run _ (room high)
        ∙ put_pointer-here (or_pointers p.third) (index1 - ndirent_secpointer) index2 value;
    others = λ j v ne e. elim (Bool-cases (ltb (j / page_nclusno) ndirent_secpointer)) [
      | inl t ↦ if-true _ _ t ∙ sym (if-true _ _ t) ∙ e
      | inr t ↦
          let e1 = sym (if-false _ _ t) ∙ e in
          let bound =
            assert-true (ltb (j / page_nclusno - ndirent_secpointer) third_pointers) _ e1 in
          if-false _ _ t
          ∙ assert_run _ bound
          ∙ put_pointer-other (or_pointers p.third) (index1 - ndirent_secpointer) index2
              (j / page_nclusno - ndirent_secpointer) (j % page_nclusno) value v
              (λ m k. ne (ground (arith, m, k, t, high)))
              (or_pointers-at p.third (j / page_nclusno - ndirent_secpointer) (j % page_nclusno) v
                (sym (assert_run _ bound) ∙ e1))
    ];
    same_valid = refl;
  }

page_for-left :
    {A : Type 0} (o : Option A) (n free : ℕ)
    → suc n ≤ free
    → Returns (λ left. (n ≤ left) × (free ≤ left + 1)) (page_for o free)
unfolding page_for
page_for-left (some t) n free h = returns (omega (arith, h), omega arith)
page_for-left none n zero h = absurd (omega (arith, h))
page_for-left none n (suc free) h = returns (omega (arith, h), omega arith)

-- What filepnt_setval leaves with `free` pages before: at most two pages less, and the entry.
abbrev pub WasSet : ℕ → DirentPointer → ℕ → ℕ → ℕ × DirentPointer → Type 0
WasSet free p i value (left, p') = (free ≤ left + 2) × IsEntered p p' i value

-- filepnt_setval at an index that the table has room for, with two pages left in the pool at least, ends well
-- and takes at most two pages; filepnt_getclusbyno then returns the entry there, and at other indices what
-- it returned before.
pub filepnt_setval-IsEntered :
    (free : ℕ) (p : DirentPointer) (i value : ℕ)
    → 2 ≤ free
    → i < table_size
    → Returns (WasSet free p i value) (filepnt_setval free p i value)
unfolding filepnt_setval
filepnt_setval-IsEntered free p i value two h =
    elim (Bool-cases (leb ndirent_secpointer (i / page_nclusno))) [
      | inl t ↦
          let room : ltb (i / page_nclusno - ndirent_secpointer) third_pointers ≡ true =
            ground (arith, h, t) in
          subst (Returns (WasSet free p i value)) (sym (if-true _ _ t)) (
            Returns-bind (page_for-left p.third 1 free two) λ n one.
              subst (Returns (WasSet free p i value)) (sym (if-true _ _ room)) (
                Returns-bind
                  (page_for-left (or_pointers p.third (i / page_nclusno - ndirent_secpointer)) 0 n
                    one.0)
                  λ left w.
                    returns
                      (omega (arith, one.1, w.1), high-IsEntered p i value h (ground (arith, t)))))
      | inr t ↦ subst (Returns (WasSet free p i value)) (sym (if-false _ _ t)) (
          Returns-bind (page_for-left (p.second (i / page_nclusno)) 0 free (omega (arith, two)))
            λ left w. returns (omega (arith, w.1), low-IsEntered p i value h (ground (arith, t))))
    ]
