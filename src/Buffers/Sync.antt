-- ===== src/Buffers/Sync.antt =====
-- fs/buf.c: what bufSync writes.
use kernel_travel.Base.{
  ℕ, zero, suc, ◌*◌, ◌≤◌, ◌<◌, ◌≡◌, refl, sym, ap, ◌∙◌, subst, ◌≢◌, inl, inr, Bool, true, false,
  ◌&&◌, arith, ◌==◌, Bool-cases, if-true, if-false,
}
use kernel_travel.Buffers.{
  Buffer, Cache, put_block, sync_one, sync_loop, buf_sync, bgroup_num, bgroup_buf_num,
}

-- A buffer whose bytes bufSync has to write.
abbrev pub unwritten : Buffer → Bool
unwritten b = b.valid && b.dirty

-- Of the buffers below `n`, no two hold unwritten data of one block.
abbrev pub Apart : Cache → ℕ → Type 0
Apart c n =
    (p q : ℕ)
    → p < n
    → q < n
    → unwritten (c.buf p) ≡ true
    → unwritten (c.buf q) ≡ true
    → (c.buf p).blockno ≡ (c.buf q).blockno
    → p ≡ q

-- The unwritten data of the buffers below `n` is on the disk, which is else as it was, and the buffers have
-- lost nothing but their marks.
pub record Synced (n : ℕ) (c c' : Cache) : Type 0 where
  pub lists : (g : ℕ) → c'.list g ≡ c.list g
  pub later : (p : ℕ) → n ≤ p → c'.buf p ≡ c.buf p
  pub keys :
      (p : ℕ)
      → ((c'.buf p).blockno ≡ (c.buf p).blockno)
        × ((c'.buf p).dev ≡ (c.buf p).dev)
        × ((c'.buf p).valid ≡ (c.buf p).valid)
        × ((c'.buf p).bytes ≡ (c.buf p).bytes)
        × ((c'.buf p).refcnt ≡ (c.buf p).refcnt)
  pub written_all : (p : ℕ) → p < n → unwritten (c'.buf p) ≡ false
  pub stored :
      (p : ℕ) → p < n → unwritten (c.buf p) ≡ true → c'.disk (c.buf p).blockno ≡ (c.buf p).bytes
  pub others :
      (b : ℕ)
      → ((p : ℕ) → p < n → unwritten (c.buf p) ≡ true → (c.buf p).blockno ≢ b)
      → c'.disk b ≡ c.disk b

same_of : (p q : ℕ) → (p == q) ≡ true → p ≡ q
same_of p q e = ground (arith, e)

past : (n p : ℕ) → suc n ≤ p → (p == n) ≡ false
past n p h = ground (arith, h)

true_ne_false : true ≢ false
true_ne_false e = ground (arith, e)

differ :
    (c d : Cache) (p n : ℕ)
    → Apart c (suc n)
    → d.buf n ≡ c.buf n
    → p < suc n
    → (p == n) ≡ false
    → unwritten (c.buf p) ≡ true
    → unwritten (c.buf n) ≡ true
    → ((c.buf p).blockno == (d.buf n).blockno) ≡ false
differ c d p n apart at h t u own = elim (Bool-cases ((c.buf p).blockno == (d.buf n).blockno)) [
  | inl e ↦
      let one : p ≡ n =
        apart p n h (omega arith) u own
          (same_of (c.buf p).blockno (d.buf n).blockno e ∙ ap (λ (v : Buffer). v.blockno) at) in
      absurd (ground (arith, one, t))
  | inr e ↦ e
]

sync_one-Synced :
    (n : ℕ) (c d : Cache) → Apart c (suc n) → Synced n c d → Synced (suc n) c (sync_one d n)
unfolding sync_one
sync_one-Synced n c d apart i =
    let at : d.buf n ≡ c.buf n = i.later n (omega arith) in
    elim (Bool-cases (unwritten (d.buf n))) [
      | inl w ↦
          let own : unwritten (c.buf n) ≡ true = ap unwritten (sym at) ∙ w in
          subst (Synced (suc n) c) (sym (if-true _ _ w)) (record {
            lists = i.lists;
            later = λ p h. if-false _ _ (past n p h) ∙ i.later p (omega (arith, h));
            keys = λ p. (
              ground (arith, i.keys p),
              ground (arith, i.keys p),
              ground (arith, i.keys p),
              ground (arith, i.keys p),
              ground (arith, i.keys p),
            );
            written_all = λ p h. ground (arith, h, i.written_all p);
            stored = λ p h u. elim (Bool-cases (p == n)) [
              | inl t ↦
                  subst
                    (λ q.
                      put_block d.disk (d.buf n).blockno (d.buf n).bytes (c.buf q).blockno
                      ≡ (c.buf q).bytes)
                    (sym (same_of p n t))
                    (ap (λ (v : Buffer). put_block d.disk v.blockno v.bytes (c.buf n).blockno) at
                      ∙ ground arith)
              | inr t ↦
                  let ne : ((c.buf p).blockno == (d.buf n).blockno) ≡ false =
                    differ c d p n apart at h t u own in
                  if-false _ _ ne ∙ i.stored p (ground (arith, t, h)) u
            ];
            others = λ b h.
                let ne : (b == (d.buf n).blockno) ≡ false =
                  ground (arith, h n (omega arith) own, ap (λ (v : Buffer). v.blockno) at) in
                if-false _ _ ne ∙ i.others b (λ p k. h p (omega (arith, k)));
          })
      | inr w ↦ subst (Synced (suc n) c) (sym (if-false _ _ w)) (record {
        lists = i.lists;
        later = λ p h. i.later p (omega (arith, h));
        keys = i.keys;
        written_all = λ p h. elim (Bool-cases (p == n)) [
          | inl t ↦ ap (λ q. unwritten (d.buf q)) (same_of p n t) ∙ w
          | inr t ↦ i.written_all p (ground (arith, t, h))
        ];
        stored = λ p h u. elim (Bool-cases (p == n)) [
          | inl t ↦ absurd (
              true_ne_false
                (sym u ∙ ap (λ q. unwritten (c.buf q)) (same_of p n t) ∙ ap unwritten (sym at) ∙ w))
          | inr t ↦ i.stored p (ground (arith, t, h)) u
        ];
        others = λ b h. i.others b (λ p k. h p (omega (arith, k)));
      })
    ]

sync_loop-Synced : (n : ℕ) (c : Cache) → Apart c n → Synced n c (sync_loop n c)
unfolding sync_loop
sync_loop-Synced zero c apart = record {
  lists = λ g. refl;
  later = λ p h. refl;
  keys = λ p. (refl, refl, refl, refl, refl);
  written_all = λ p h. absurd (omega (arith, h));
  stored = λ p h. absurd (omega (arith, h));
  others = λ b h. refl;
}
sync_loop-Synced (suc n) c apart =
    let i = sync_loop-Synced n c (λ p q h k. apart p q (omega (arith, h)) (omega (arith, k))) in
    sync_one-Synced n c (sync_loop n c) apart i

-- Where no two buffers hold unwritten data of one block, bufSync puts all unwritten data on the disk, changes
-- no other block, and loses nothing but the marks; afterwards no buffer has unwritten data.
pub buf_sync-Synced :
    (c : Cache)
    → Apart c (bgroup_num * bgroup_buf_num)
    → Synced (bgroup_num * bgroup_buf_num) c (buf_sync c)
unfolding buf_sync
buf_sync-Synced c apart = sync_loop-Synced (bgroup_num * bgroup_buf_num) c apart
