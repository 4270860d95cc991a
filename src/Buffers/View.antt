-- ===== src/Buffers/View.antt =====
-- fs/buf.c: the disk as the users of the cache see it.
use kernel_travel.Base.{
  ℕ, bit_and, ◌≡◌, refl, sym, ap, ◌∙◌, ◌≢◌, ◌⊎◌, inl, inr, true, false, Option, none, some, List,
  [], ◌∷◌, arith, ◌==◌, if◌then◌else◌, Bool-cases, if-true, if-false,
}
use kernel_travel.LinkedList.Chain.{elem}
use kernel_travel.Buffers.{
  Buffer, Cache, check_cached, find_cached, find_uncached, or_free, bgroup_mask,
}

-- The block `blockno` of the device: what its buffer holds, or what is on the disk.
abbrev pub seen : Option ℕ → Cache → ℕ → List ℕ
seen none c blockno = c.disk blockno
seen (some p) c blockno = if (c.buf p).valid then (c.buf p).bytes else c.disk blockno

abbrev pub group_of : ℕ → ℕ
group_of blockno = bit_and blockno bgroup_mask

unfoldable pub view : Cache → ℕ → ℕ → List ℕ
unfolding find_cached
view c dev blockno = seen (find_cached (c.list (group_of blockno)) c.buf dev blockno) c blockno

-- The buffers of a device: each block has at most one, in the list of its group, and a buffer that is not
-- dirty holds what is on the disk.
pub record IsCoherent (c : Cache) (dev : ℕ) : Type 0 where
  pub unique :
      (g p q : ℕ)
      → elem p (c.list g) ≡ true
      → elem q (c.list g) ≡ true
      → (c.buf p).dev ≡ dev
      → (c.buf q).dev ≡ dev
      → (c.buf p).blockno ≡ (c.buf q).blockno
      → p ≡ q
  pub home : (g h p : ℕ) → elem p (c.list g) ≡ true → elem p (c.list h) ≡ true → g ≡ h
  pub clean :
      (g p : ℕ)
      → elem p (c.list g) ≡ true
      → (c.buf p).dev ≡ dev
      → (c.buf p).valid ≡ true
      → (c.buf p).dirty ≡ false
      → (c.buf p).bytes ≡ c.disk (c.buf p).blockno

pub same_of : (p q : ℕ) → (p == q) ≡ true → p ≡ q
same_of p q e = ground (arith, e)

in_tail : (x p : ℕ) (ps : List ℕ) → x ≢ p → elem p (x ∷ ps) ≡ true → elem p ps ≡ true
in_tail x p ps ne h = ground (arith, h, ne)

pub find_cached-some :
    (ps : List ℕ) (buf : ℕ → Buffer) (dev b p : ℕ)
    → find_cached ps buf dev b ≡ some p
    → (elem p ps ≡ true) × ((buf p).dev ≡ dev) × ((buf p).blockno ≡ b)
unfolding find_cached
find_cached-some [] buf dev b p e = absurd (ground (arith, e))
find_cached-some (x ∷ ps) buf dev b p e = elim (Bool-cases (check_cached (buf x) dev b)) [
  | inl k ↦ ground (arith, e, k)
  | inr k ↦
      let r = find_cached-some ps buf dev b p (sym (if-false _ _ k) ∙ e) in
      (ground (arith, r.0), r.1, r.2)
]

pub find_cached_unique :
    (ps : List ℕ) (buf : ℕ → Buffer) (dev b p : ℕ)
    → elem p ps ≡ true
    → (buf p).dev ≡ dev
    → (buf p).blockno ≡ b
    → ((q : ℕ) → elem q ps ≡ true → (buf q).dev ≡ dev → (buf q).blockno ≡ b → q ≡ p)
    → find_cached ps buf dev b ≡ some p
unfolding find_cached
find_cached_unique [] buf dev b p h d k u = absurd (ground (arith, h))
find_cached_unique (x ∷ ps) buf dev b p h d k u = elim (Bool-cases (check_cached (buf x) dev b)) [
  | inl t ↦ if-true _ _ t ∙ ap some (u x (ground arith) (ground (arith, t)) (ground (arith, t)))
  | inr t ↦
      if-false _ _ t
      ∙ find_cached_unique ps buf dev b p
          (in_tail x p ps
            (λ v. ground (arith, t, ap (λ w. (buf w).dev) v, ap (λ w. (buf w).blockno) v, d, k)) h)
          d k (λ q m. u q (ground (arith, m)))
]

pub find_cached-none :
    (ps : List ℕ) (buf : ℕ → Buffer) (dev b : ℕ)
    → find_cached ps buf dev b ≡ none
    → (p : ℕ) → elem p ps ≡ true
    → check_cached (buf p) dev b ≡ false
unfolding find_cached
find_cached-none [] buf dev b e p h = absurd (ground (arith, h))
find_cached-none (x ∷ ps) buf dev b e p h = elim (Bool-cases (check_cached (buf x) dev b)) [
  | inl k ↦ absurd (ground (arith, e, k))
  | inr k ↦ elim (Bool-cases (p == x)) [
    | inl v ↦ ap (λ w. check_cached (buf w) dev b) (same_of p x v) ∙ k
    | inr v ↦ find_cached-none ps buf dev b (sym (if-false _ _ k) ∙ e) p (ground (arith, h, v))
  ]
]

pub find_cached-absent :
    (ps : List ℕ) (buf : ℕ → Buffer) (dev b : ℕ)
    → ((p : ℕ) → elem p ps ≡ true → check_cached (buf p) dev b ≡ false)
    → find_cached ps buf dev b ≡ none
unfolding find_cached
find_cached-absent [] buf dev b out = refl
find_cached-absent (x ∷ ps) buf dev b out =
    rw (out x (ground arith), find_cached-absent ps buf dev b (λ p m. out p (ground (arith, m))))
      refl

or_free-some :
    (o : Option ℕ) (buf : ℕ → Buffer) (x p : ℕ)
    → or_free o buf x ≡ some p
    → (o ≡ some p) ⊎ ((x ≡ p) × ((buf x).refcnt ≡ 0))
or_free-some none buf x p e = elim (Bool-cases ((buf x).refcnt == 0)) [
  | inl k ↦ inr (ground (arith, e, k), ground (arith, k))
  | inr k ↦ absurd (ground (arith, e, k))
]
or_free-some (some q) buf x p e = inl e

pub find_uncached-some :
    (ps : List ℕ) (buf : ℕ → Buffer) (p : ℕ)
    → find_uncached ps buf ≡ some p
    → (elem p ps ≡ true) × ((buf p).refcnt ≡ 0)
unfolding find_uncached
find_uncached-some [] buf p e = absurd (ground (arith, e))
find_uncached-some (x ∷ ps) buf p e = elim (or_free-some (find_uncached ps buf) buf x p e) [
  | inl k ↦ let r = find_uncached-some ps buf p k in (ground (arith, r.0), r.1)
  | inr k ↦ (ground (arith, k.0), ap (λ w. (buf w).refcnt) (sym k.0) ∙ k.1)
]
