-- ===== src/Buffers/Read.antt =====
-- fs/buf.c: what bufRead returns, and what it does to the disk that the users see.
use kernel_travel.Base.{
  ℕ, ◌^◌, ◌<◌, ◌≡◌, refl, sym, ap, ◌∙◌, subst, ◌≢◌, ◌⊎◌, inl, inr, true, false, ◌&&◌, none, some,
  arith, ◌==◌, Bool-cases, Option-cases, Returns, returns, if-true, if-false,
}
use kernel_travel.Base.{◌<◌, ◌^◌}
use kernel_travel.Base.{
  ℕ, ◌^◌, ◌<◌, ◌≡◌, refl, sym, ap, ◌∙◌, subst, ◌≢◌, ◌⊎◌, inl, inr, true, false, ◌&&◌, none, some,
  arith, ◌==◌, Bool-cases, Option-cases, Returns, returns, if-true, if-false,
}
use kernel_travel.Base.{◌<◌, ◌^◌}
use kernel_travel.LinkedList.Chain.{elem}
use kernel_travel.Buffers.{
  Buffer, Cache, check_cached, find_cached, find_uncached, put_buf, check_uncached, alloc_new,
  alloc_found, buf_alloc, fill, buf_read,
}
use kernel_travel.Buffers.View.{
  seen, view, group_of, IsCoherent, find_uncached-some, find_cached-absent,
}
use kernel_travel.Buffers.Change.{Change}

-- The buffer that bufRead returns holds the block, the users see the disk as before, and the cache is
-- coherent still.
pub record Read (c : Cache) (dev b : ℕ) (r : ℕ × Cache) : Type 0 where
  pub of_dev : (r.1.buf r.0).dev ≡ dev
  pub of_block : (r.1.buf r.0).blockno ≡ b
  pub is_valid : (r.1.buf r.0).valid ≡ true
  pub holds : (r.1.buf r.0).bytes ≡ view c dev b
  pub same : (b' : ℕ) → view r.1 dev b' ≡ view c dev b'
  pub coherent : IsCoherent r.1 dev

-- The buffer `p` of the key in the place of the one that `c` has.
abbrev with_buf : Cache → ℕ → Buffer → Cache
with_buf c p v = record c { buf = put_buf c.buf p v }

view-absent :
    (c : Cache) (dev b : ℕ)
    → ((q : ℕ) → elem q (c.list (group_of b)) ≡ true → check_cached (c.buf q) dev b ≡ false)
    → view c dev b ≡ c.disk b
unfolding view
view-absent c dev b out =
    ap (λ o. seen o c b) (find_cached-absent (c.list (group_of b)) c.buf dev b out)

-- Where the buffer that bufRead replaces holds unwritten data of another block of the group, that data is
-- written to the block asked for and returned as its content, and what is seen of the other block is again
-- what the disk has.
pub buf_read-lost :
    (c : Cache) (dev b p : ℕ)
    → IsCoherent c dev
    → find_cached (c.list (group_of b)) c.buf dev b ≡ none
    → find_uncached (c.list (group_of b)) c.buf ≡ some p
    → (c.buf p).valid ≡ true
    → (c.buf p).dirty ≡ true
    → (c.buf p).dev ≡ dev
    → (c.buf p).blockno ≢ b
    → group_of (c.buf p).blockno ≡ group_of b
    → Returns
        (λ r.
          ((r.1.buf r.0).bytes ≡ (c.buf p).bytes)
          × (r.1.disk b ≡ (c.buf p).bytes)
          × (view r.1 dev (c.buf p).blockno ≡ c.disk (c.buf p).blockno))
        (buf_read c dev b true)
unfolding buf_read buf_alloc alloc_found alloc_new check_uncached fill view
buf_read-lost c dev b p k f u v d at ne g =
    let ps = c.list (group_of b) in
    let a = (c.buf p).blockno in
    let P = (λ (r : ℕ × Cache).
      ((r.1.buf r.0).bytes ≡ (c.buf p).bytes)
      × (r.1.disk b ≡ (c.buf p).bytes)
      × (view r.1 dev a ≡ c.disk a)) in
    let inside : elem p (c.list (group_of a)) ≡ true =
      subst (λ h. elem p (c.list h) ≡ true) (sym g) (find_uncached-some ps c.buf p u).0 in
    let old : (q : ℕ)
        → elem q (c.list (group_of a)) ≡ true
        → (q == p) ≡ false
        → check_cached (c.buf q) dev a ≡ false =
      (λ q m t. elim (Bool-cases (check_cached (c.buf q) dev a)) [
        | inl h ↦ absurd (
            ground (
              arith,
              t,
              k.unique (group_of a) q p m inside (ground (arith, h)) at (ground (arith, h)),
            ))
        | inr h ↦ h
      ]) in
    let c' = (alloc_new c (some p) dev b).1 in
    let out : (q : ℕ)
        → elem q (c.list (group_of a)) ≡ true
        → check_cached (put_buf c'.buf p (record (c'.buf p) { valid = true; bytes = c'.disk b }) q)
            dev a
          ≡ false =
      (λ q m. elim (Bool-cases (q == p)) [
        | inl t ↦ ground (arith, t, ne)
        | inr t ↦ ground (arith, t, old q m t)
      ]) in
    let c'' = record c' {
      buf = put_buf c'.buf p (record (c'.buf p) { valid = true; bytes = c'.disk b });
    } in
    let kept_disk : c''.disk a ≡ c.disk a = ground (arith, ne) in
    let gone : view c'' dev a ≡ c.disk a = view-absent c'' dev a out ∙ kept_disk in
    subst (λ o. Returns P (fill (alloc_found c o dev b) b true)) (sym f)
      (subst (λ o. Returns P (fill (alloc_new c o dev b) b true)) (sym u)
        (subst (Returns P)
          (sym (if-false {b = ((alloc_new c (some p) dev b).1.buf p).valid} _ _ (ground arith)))
          (returns (ground (arith, v, d), ground (arith, v, d), gone))))
