-- ===== src/Buffers/Change.antt =====
-- fs/buf.c: how a change of one buffer shows in the disk that the users see.
use kernel_travel.Base.{
  ℕ, ◌≡◌, refl, sym, ap, ◌∙◌, subst, ◌≢◌, inl, inr, true, false, ◌&&◌, Option, none, some, List, [],
  ◌∷◌, arith, ◌==◌, if◌then◌else◌, Bool-cases, if-true, if-false,
}
use kernel_travel.LinkedList.Chain.{elem}
use kernel_travel.Buffers.{Buffer, Cache, check_cached, find_cached}
use kernel_travel.Buffers.View.{
  seen, view, group_of, IsCoherent, find_cached-some, find_cached_unique, find_cached-none, same_of,
  find_cached-absent,
}

-- Searches in two states of the buffers that agree on the keys agree.
find_cached-same :
    (ps : List ℕ) (buf buf' : ℕ → Buffer) (dev b : ℕ)
    → ((p : ℕ) → elem p ps ≡ true → check_cached (buf' p) dev b ≡ check_cached (buf p) dev b)
    → find_cached ps buf' dev b ≡ find_cached ps buf dev b
unfolding find_cached
find_cached-same [] buf buf' dev b same = refl
find_cached-same (x ∷ ps) buf buf' dev b same =
    rw
      (
        same x (ground arith),
        find_cached-same ps buf buf' dev b (λ p m. same p (ground (arith, m))),
      )
      refl

-- Nothing is changed but the buffer `p`.
pub record Change (c c' : Cache) (p : ℕ) : Type 0 where
  pub lists : (g : ℕ) → c'.list g ≡ c.list g
  pub others : (q : ℕ) → q ≢ p → c'.buf q ≡ c.buf q
  pub disks : (b : ℕ) → c'.disk b ≡ c.disk b

-- What a buffer stands for: its bytes, or its block on the disk.
abbrev pub content : Buffer → (ℕ → List ℕ) → List ℕ
content w disk = if w.valid then w.bytes else disk w.blockno

seen-same :
    (o : Option ℕ) (c c' : Cache) (b : ℕ)
    → ((p : ℕ)
        → o ≡ some p
        → ((c'.buf p).valid ≡ (c.buf p).valid) × ((c'.buf p).bytes ≡ (c.buf p).bytes))
    → c'.disk b ≡ c.disk b
    → seen o c' b ≡ seen o c b
seen-same none c c' b same d = d
seen-same (some p) c c' b same d =
    ap (λ v. if v then (c'.buf p).bytes else c'.disk b) (same p refl).0
    ∙ ap (λ v. if (c.buf p).valid then v else c'.disk b) (same p refl).1
    ∙ ap (λ v. if (c.buf p).valid then (c.buf p).bytes else v) d

module _ {c c' : Cache} {p : ℕ} (dev : ℕ) (k : IsCoherent c dev) (x : Change c c' p) where
  pub finds :
      (q b : ℕ)
      → elem q (c.list (group_of b)) ≡ true
      → (c.buf q).dev ≡ dev
      → (c.buf q).blockno ≡ b
      → find_cached (c.list (group_of b)) c.buf dev b ≡ some q
  finds q b m d e =
      find_cached_unique (c.list (group_of b)) c.buf dev b q m d e
        (λ r m' d' e'. k.unique (group_of b) r q m' m d' d (e' ∙ sym e))

  -- Where the search does not come to `p` in either state, the same is seen.
  elsewhere :
      (b : ℕ)
      → (elem p (c.list (group_of b)) ≡ true → check_cached (c.buf p) dev b ≡ false)
      → (elem p (c.list (group_of b)) ≡ true → check_cached (c'.buf p) dev b ≡ false)
      → view c' dev b ≡ view c dev b
  unfolding view
  elsewhere b out out' =
      let ps = c.list (group_of b) in
      let same : (q : ℕ)
          → elem q ps ≡ true
          → check_cached (c'.buf q) dev b ≡ check_cached (c.buf q) dev b =
        (λ q m. elim (Bool-cases (q == p)) [
          | inl e ↦
              let at = same_of q p e in
              let m' : elem p ps ≡ true = subst (λ w. elem w ps ≡ true) at m in
              ap (λ w. check_cached (c'.buf w) dev b) at
              ∙ out' m'
              ∙ sym (out m')
              ∙ ap (λ w. check_cached (c.buf w) dev b) (sym at)
          | inr e ↦ ap (λ w. check_cached w dev b) (x.others q (ground (arith, e)))
        ]) in
      ap (λ l. seen (find_cached l c'.buf dev b) c' b) (x.lists (group_of b))
      ∙ ap (λ o. seen o c' b) (find_cached-same ps c.buf c'.buf dev b same)
      ∙ seen-same (find_cached ps c.buf dev b) c c' b
          (λ q f.
            let r = find_cached-some ps c.buf dev b q f in
            let ne : q ≢ p = (λ e. ground (
              arith,
              out (subst (λ w. elem w ps ≡ true) e r.0),
              ap (λ w. (c.buf w).dev) e,
              ap (λ w. (c.buf w).blockno) e,
              r.1,
              r.2,
            )) in
            (ap (λ w. w.valid) (x.others q ne), ap (λ w. w.bytes) (x.others q ne)))
          (x.disks b)

  -- Where `p` is the only buffer of its block then, and clean if not dirty, the cache is coherent.
  pub Change-IsCoherent :
      (b : ℕ)
      → elem p (c.list (group_of b)) ≡ true
      → (c'.buf p).blockno ≡ b
      → ((q : ℕ)
          → elem q (c.list (group_of b)) ≡ true
          → (c.buf q).dev ≡ dev
          → (c.buf q).blockno ≡ b
          → q ≡ p)
      → ((c'.buf p).dirty ≡ false → (c'.buf p).bytes ≡ c.disk b)
      → IsCoherent c' dev
  Change-IsCoherent b inside at_block only clean = record {
    unique = λ g q r mq mr dq dr e.
        let mq' = in_old g q mq in
        let mr' = in_old g r mr in
        elim (Bool-cases (q == p)) [
          | inl t ↦ elim (Bool-cases (r == p)) [
            | inl w ↦ same_of q p t ∙ sym (same_of r p w)
            | inr w ↦ same_of q p t ∙ sym (single g q r t w mq' mr' dr (sym e))
          ]
          | inr t ↦ elim (Bool-cases (r == p)) [
            | inl w ↦ single g r q w t mr' mq' dq e ∙ sym (same_of r p w)
            | inr w ↦
                k.unique g q r mq' mr' (ap (λ v. v.dev) (sym (other q t)) ∙ dq)
                  (ap (λ v. v.dev) (sym (other r w)) ∙ dr)
                  (ap (λ v. v.blockno) (sym (other q t)) ∙ e ∙ ap (λ v. v.blockno) (other r w))
          ]
        ];
    home = λ g h q mg mh. k.home g h q (in_old g q mg) (in_old h q mh);
    clean = λ g q m d v w. elim (Bool-cases (q == p)) [
      | inl t ↦
          let at = same_of q p t in
          ap (λ u. (c'.buf u).bytes) at
          ∙ clean (ap (λ u. (c'.buf u).dirty) (sym at) ∙ w)
          ∙ sym (x.disks b)
          ∙ ap c'.disk (sym (ap (λ u. (c'.buf u).blockno) at ∙ at_block))
      | inr t ↦
          let o = other q t in
          ap (λ u. u.bytes) o
          ∙ k.clean g q (in_old g q m) (ap (λ u. u.dev) (sym o) ∙ d) (ap (λ u. u.valid) (sym o) ∙ v)
              (ap (λ u. u.dirty) (sym o) ∙ w)
          ∙ sym (x.disks (c.buf q).blockno)
          ∙ ap (λ u. c'.disk u.blockno) (sym o)
    ];
  }
    where
      in_old : (g q : ℕ) → elem q (c'.list g) ≡ true → elem q (c.list g) ≡ true
      in_old g q m = ap (elem q) (sym (x.lists g)) ∙ m

      other : (q : ℕ) → (q == p) ≡ false → c'.buf q ≡ c.buf q
      other q t = x.others q (ground (arith, t))

      -- a buffer of the block of `p`, in the list of `p`
      single :
          (g q r : ℕ)
          → (q == p) ≡ true
          → (r == p) ≡ false
          → elem q (c.list g) ≡ true
          → elem r (c.list g) ≡ true
          → (c'.buf r).dev ≡ dev
          → (c'.buf r).blockno ≡ (c'.buf q).blockno
          → r ≡ p
      single g q r t w mq mr d e =
          let at = same_of q p t in
          let home : g ≡ group_of b =
            k.home g (group_of b) p (subst (λ u. elem u (c.list g) ≡ true) at mq) inside in
          only r (subst (λ h. elem r (c.list h) ≡ true) home mr)
            (ap (λ v. v.dev) (sym (other r w)) ∙ d)
            (ap (λ v. v.blockno) (sym (other r w)) ∙ e ∙ ap (λ u. (c'.buf u).blockno) at ∙ at_block)

  module _ (b : ℕ) (inside : elem p (c.list (group_of b)) ≡ true) (at_dev : (c'.buf p).dev ≡ dev)
      (at_block : (c'.buf p).blockno ≡ b) where
    not_at : (b' : ℕ) → (b' == b) ≡ false → check_cached (c'.buf p) dev b' ≡ false
    not_at b' ne = ground (arith, at_block, ne)

    now_found :
        ((q : ℕ)
          → elem q (c.list (group_of b)) ≡ true
          → (c.buf q).dev ≡ dev
          → (c.buf q).blockno ≡ b
          → q ≡ p)
        → view c' dev b ≡ seen (some p) c' b
    unfolding view
    now_found only =
        let ps = c.list (group_of b) in
        let one : (q : ℕ)
            → elem q ps ≡ true
            → (c'.buf q).dev ≡ dev
            → (c'.buf q).blockno ≡ b
            → q ≡ p =
          (λ q m d e. elim (Bool-cases (q == p)) [
            | inl t ↦ same_of q p t
            | inr t ↦
                let o = x.others q (ground (arith, t)) in
                only q m (ap (λ w. w.dev) (sym o) ∙ d) (ap (λ w. w.blockno) (sym o) ∙ e)
          ]) in
        ap (λ l. seen (find_cached l c'.buf dev b) c' b) (x.lists (group_of b))
        ∙ ap (λ o. seen o c' b) (find_cached_unique ps c'.buf dev b p inside at_dev at_block one)

    -- `p` has been the buffer of the block.
    pub kept :
        (c.buf p).dev ≡ dev
        → (c.buf p).blockno ≡ b
        → seen (some p) c' b ≡ seen (some p) c b
        → (b' : ℕ) → view c' dev b' ≡ view c dev b'
    unfolding view
    kept d e same b' = elim (Bool-cases (b' == b)) [
      | inl t ↦
          subst (λ v. view c' dev v ≡ view c dev v) (sym (same_of b' b t))
            (now_found (λ q m d' e'. k.unique (group_of b) q p m inside d' d (e' ∙ sym e))
              ∙ same
              ∙ ap (λ o. seen o c b) (sym (finds p b inside d e)))
      | inr t ↦ elsewhere b' (λ m. ground (arith, e, t)) (λ m. not_at b' t)
    ]

    -- The block that `p` held is read from the disk again.
    left_clean :
        (b' : ℕ)
        → (b' == b) ≡ false
        → elem p (c.list (group_of b')) ≡ true
        → (c.buf p).dev ≡ dev
        → (c.buf p).blockno ≡ b'
        → (c.buf p).valid && (c.buf p).dirty ≡ false
        → view c' dev b' ≡ view c dev b'
    unfolding view
    left_clean b' ne m d e clean =
        let ps = c.list (group_of b') in
        let out : (q : ℕ) → elem q ps ≡ true → check_cached (c'.buf q) dev b' ≡ false = (λ q m'.
          elim (Bool-cases (q == p)) [
            | inl t ↦ ap (λ w. check_cached (c'.buf w) dev b') (same_of q p t) ∙ not_at b' ne
            | inr t ↦
                ap (λ w. check_cached w dev b') (x.others q (ground (arith, t)))
                ∙ (elim (Bool-cases (check_cached (c.buf q) dev b')) [
                  | inl h ↦ absurd (
                      ground (
                        arith,
                        t,
                        k.unique (group_of b') q p m' m (ground (arith, h)) d
                            (ground (arith, h, e)),
                      ))
                  | inr h ↦ h
                ])
          ]) in
        let before : seen (some p) c b' ≡ c.disk b' = (elim (Bool-cases (c.buf p).valid) [
          | inl v ↦
              if-true _ _ v ∙ k.clean (group_of b') p m d v (ground (arith, clean, v)) ∙ ap c.disk e
          | inr v ↦ if-false _ _ v
        ]) in
        ap (λ l. seen (find_cached l c'.buf dev b') c' b') (x.lists (group_of b'))
        ∙ ap (λ o. seen o c' b') (find_cached-absent ps c'.buf dev b' out)
        ∙ x.disks b'
        ∙ sym before
        ∙ ap (λ o. seen o c b') (sym (finds p b' m d e))

    -- `p` becomes the buffer of the block; it was clean.
    pub replaced :
        find_cached (c.list (group_of b)) c.buf dev b ≡ none
        → (c.buf p).valid && (c.buf p).dirty ≡ false
        → seen (some p) c' b ≡ c.disk b
        → (b' : ℕ) → view c' dev b' ≡ view c dev b'
    unfolding view
    replaced absent clean same b' = elim (Bool-cases (b' == b)) [
      | inl t ↦
          subst (λ v. view c' dev v ≡ view c dev v) (sym (same_of b' b t))
            (now_found (λ q m d e. absurd (
                ground
                  (arith, find_cached-none (c.list (group_of b)) c.buf dev b absent q m, d, e)))
              ∙ same
              ∙ ap (λ o. seen o c b) (sym absent))
      | inr t ↦ elim (Bool-cases (elem p (c.list (group_of b')) && check_cached (c.buf p) dev b')) [
        | inl was ↦
            left_clean b' t (ground (arith, was)) (ground (arith, was)) (ground (arith, was)) clean
        | inr other ↦ elsewhere b' (λ m. ground (arith, m, other)) (λ m. not_at b' t)
      ]
    ]
