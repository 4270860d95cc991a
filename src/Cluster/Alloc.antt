-- ===== src/Cluster/Alloc.antt =====
-- fs/fat32/cluster.c: clusterAlloc takes the first free cluster, clusterFree gives one back.
use kernel_travel.Base.{
  ℕ, zero, suc, ◌+◌, ◌-◌, ◌≤◌, ◌<◌, ◌≡◌, refl, sym, ap, ◌∙◌, ◌≢◌, ◌⊎◌, inl, inr, false, not, ◌&&◌,
  arith, ◌==◌, if◌then◌else◌, u32, u64, ==_iff, Bool-cases, ok, Returns, returns, Returns-bind,
  Returns-mono, u32_small,
}
use kernel_travel.Cluster.{
  SuperBlock, Disk, Volume, fat32_eof, cluster_sec, fat_write, take_cluster, alloc_loop,
  cluster_alloc, cluster_free,
}
use kernel_travel.Cluster.Table.{IsVolume, entry, entry_sec, fat_read-entry, entry_sec-below}
use kernel_travel.Cluster.Write.{fat_write-Entered}
use kernel_travel.Cluster.Zero.{Cleared, cluster_zero-Cleared, cluster_sec-eq}

-- The volume after cluster `c` was given to the chain that ends in `prev` (0: to a new chain).
pub record Allocated (sb : SuperBlock) (vol : Volume) (prev c : ℕ) (vol' : Volume) : Type 0 where
  pub entries :
      (k c' : ℕ)
      → k < sb.fat_cnt
      → c' < sb.data_clus_cnt + 2
      → entry sb vol'.disk k c' ≡ (
          if c == c'
          then fat32_eof
          else if not (prev == 0) && prev == c'
          then c
          else entry sb vol.disk k c')
  pub cleared :
      (t j : ℕ)
      → cluster_sec sb c ≤ t
      → t < cluster_sec sb c + sb.sec_per_clus
      → j < sb.bytes_per_sec
      → vol'.disk t j ≡ 0
  pub others :
      (t : ℕ)
      → sb.first_data_sec ≤ t
      → (t < cluster_sec sb c) ⊎ (cluster_sec sb c + sb.sec_per_clus ≤ t)
      → vol'.disk t ≡ vol.disk t
  pub counted : vol'.alloced_clus ≡ u64 (vol.alloced_clus + 1)

-- No cluster from `a` up to `b` is free.
abbrev pub NoneFree : SuperBlock → Volume → ℕ → ℕ → Type 0
NoneFree sb vol a b = (c : ℕ) → a ≤ c → c < b → entry sb vol.disk 0 c ≢ 0

-- What clusterAlloc returns: the first free cluster from `first` on, allocated; or 0, with nothing
-- changed, where none is free.
abbrev pub Result : SuperBlock → Volume → ℕ → ℕ → ℕ × Volume → Type 0
Result sb vol prev first (c, vol') =
    ((first ≤ c)
      × (c < sb.data_clus_cnt + 2)
      × (entry sb vol.disk 0 c ≡ 0)
      × NoneFree sb vol first c
      × Allocated sb vol prev c vol')
    ⊎ ((c ≡ 0) × (vol' ≡ vol) × NoneFree sb vol first (sb.data_clus_cnt + 2))

module _ {sb : SuperBlock} (v : IsVolume sb) where
  -- the table's entries lie before the sectors that clusterZero clears
  entry-Cleared :
      {disk disk' : Disk} {c : ℕ}
      → 2 ≤ c
      → c < sb.data_clus_cnt + 2
      → Cleared sb disk (cluster_sec sb c) sb.sec_per_clus disk'
      → (k c' : ℕ) → k < sb.fat_cnt
      → c' < sb.data_clus_cnt + 2
      → entry sb disk' k c' ≡ entry sb disk k c'
  entry-Cleared {c} lo hi z k c' hk hc' =
      rw
        (z.others (entry_sec sb k c')
          (inl (omega (arith, cluster_sec-eq v c lo hi, entry_sec-below v k c' hk hc'))))
        refl

  link_cluster :
      (disk : Disk) (prev c : ℕ)
      → prev < sb.data_clus_cnt + 2
      → c < sb.data_clus_cnt + 2
      → Returns
          (λ disk'.
            ((k c' : ℕ)
              → k < sb.fat_cnt
              → c' < sb.data_clus_cnt + 2
              → entry sb disk' k c'
                ≡ (if not (prev == 0) && prev == c' then c else entry sb disk k c'))
            × ((t : ℕ) → sb.first_data_sec ≤ t → disk' t ≡ disk t))
          (if not (prev == 0) then fat_write sb disk prev c else ok disk)
  link_cluster disk prev c hp hc = elim (Bool-cases (prev == 0)) [
    | inl e ↦ rw e (returns ((λ k c' hk hc'. refl), (λ t h. refl)))
    | inr e ↦ rw e (
        Returns-mono (fat_write-Entered v disk prev c hp) λ disk' w. (
          (λ k c' hk hc'. rw (w.entries k c' hk hc', u32_small c (omega (arith, v.few, hc))) refl),
          w.data_same,
        ))
  ]

  take_cluster-Allocated :
      (vol : Volume) (prev c : ℕ)
      → prev < sb.data_clus_cnt + 2
      → 2 ≤ c
      → c < sb.data_clus_cnt + 2
      → Returns (λ r. (r.0 ≡ c) × Allocated sb vol prev r.0 r.1) (take_cluster sb vol prev c)
  unfolding take_cluster
  take_cluster-Allocated vol prev c hp lo hi =
      Returns-bind (link_cluster vol.disk prev c hp hi) λ linked l.
        Returns-bind (fat_write-Entered v linked c fat32_eof hi) λ ended w.
          Returns-bind (cluster_zero-Cleared v ended c lo hi) λ cleared z. returns (
            refl,
            record {
              entries = λ k c' hk hc'. ground (
                arith,
                entry-Cleared lo hi z k c' hk hc',
                w.entries k c' hk hc',
                l.0 k c' hk hc',
              );
              cleared = z.zeros;
              others = λ t hs h. z.others t h ∙ w.data_same t hs ∙ l.1 t hs;
              counted = refl;
            },
          )

  NoneFree-step :
      (vol : Volume) {a b : ℕ}
      → (entry sb vol.disk 0 a == 0) ≡ false
      → NoneFree sb vol (a + 1) b
      → NoneFree sb vol a b
  NoneFree-step vol {a} e later c lo hi = elim (Bool-cases (c == a)) [
    | inl same ↦ λ free.
        (let at_a : entry sb vol.disk 0 a ≡ 0 =
            ap (entry sb vol.disk 0) (sym ((==_iff c a).0 same)) ∙ free in
          ground (arith, e, at_a))
    | inr other ↦ later c (ground (arith, other, lo)) hi
  ]

  Result-here :
      {vol : Volume} {prev first : ℕ} {r : ℕ × Volume}
      → first < sb.data_clus_cnt + 2
      → entry sb vol.disk 0 first ≡ 0
      → (r.0 ≡ first) × Allocated sb vol prev r.0 r.1
      → Result sb vol prev first r
  Result-here {vol} hi free (at, a) = inl (
    omega (arith, at),
    omega (arith, at, hi),
    ap (entry sb vol.disk 0) at ∙ free,
    (λ c' h h'. absurd (omega (arith, at, h, h'))),
    a,
  )

  Result-later :
      {vol : Volume} {prev first : ℕ} {r : ℕ × Volume}
      → (entry sb vol.disk 0 first == 0) ≡ false
      → Result sb vol prev (first + 1) r
      → Result sb vol prev first r
  Result-later {vol} e (inl (lo, hi, free, before, a)) =
      inl (omega (arith, lo), hi, free, NoneFree-step vol e before, a)
  Result-later {vol} e (inr (none_left, same, before)) =
      inr (none_left, same, NoneFree-step vol e before)

  alloc_loop-Result :
      (n : ℕ) (vol : Volume) (prev first : ℕ)
      → prev < sb.data_clus_cnt + 2
      → 2 ≤ first
      → (sb.data_clus_cnt + 2) - first ≡ n
      → Returns (Result sb vol prev first) (alloc_loop sb vol prev first n)
  unfolding alloc_loop
  alloc_loop-Result zero vol prev first hp lo hn =
      returns (inr (refl, refl, (λ c' h h'. absurd (omega arith))))
  alloc_loop-Result (suc n) vol prev first hp lo hn =
      let hi : first < sb.data_clus_cnt + 2 = omega arith in
      elim (Bool-cases (entry sb vol.disk 0 first == 0)) [
        | inl e ↦
            rw (fat_read-entry v vol.disk first lo hi, e)
              (Returns-mono (take_cluster-Allocated vol prev first hp lo hi)
                λ r t. Result-here hi ((==_iff _ 0).0 e) t)
        | inr e ↦
            rw (fat_read-entry v vol.disk first lo hi, e)
              (Returns-mono
                (alloc_loop-Result n vol prev (first + 1) hp (omega arith) (omega arith))
                λ r t. Result-later e t)
      ]

  -- clusterAlloc gives the first free cluster after `prev`: its entry becomes the end mark in every table,
  -- the entry of `prev` (if it is not 0) links to it, its sectors are cleared, and nothing else of the
  -- tables or the data changes. It returns 0, with nothing changed, exactly if no later cluster is free.
  pub cluster_alloc-Result :
      (vol : Volume) (prev : ℕ)
      → prev < sb.data_clus_cnt + 2
      → Returns (Result sb vol prev (if prev == 0 then 2 else prev + 1)) (cluster_alloc sb vol prev)
  unfolding cluster_alloc
  cluster_alloc-Result vol prev hp =
      let no_wrap : u64 (prev + 1) ≡ prev + 1 = omega (arith, v.few) in
      let limit : u32 (sb.data_clus_cnt + 2) ≡ sb.data_clus_cnt + 2 = omega (arith, v.few) in
      rw (no_wrap, limit) (alloc_loop-Result _ vol prev _ hp (ground arith) refl)

  -- clusterFree makes the entry of the cluster 0 and ends the chain at `prev` (if it is not 0); other
  -- entries and the data stay.
  pub cluster_free-entries :
      (disk : Disk) (c prev : ℕ)
      → c < sb.data_clus_cnt + 2
      → prev < sb.data_clus_cnt + 2
      → Returns
          (λ disk'.
            ((k c' : ℕ)
              → k < sb.fat_cnt
              → c' < sb.data_clus_cnt + 2
              → entry sb disk' k c' ≡ (
                  if c == c'
                  then 0
                  else if not (prev == 0) && prev == c'
                  then fat32_eof
                  else entry sb disk k c'))
            × ((t : ℕ) → sb.first_data_sec ≤ t → disk' t ≡ disk t))
          (cluster_free sb disk c prev)
  unfolding cluster_free
  cluster_free-entries disk c prev hc hp = elim (Bool-cases (prev == 0)) [
    | inl e ↦
        rw e (Returns-mono (fat_write-Entered v disk c 0 hc) λ disk' w. (w.entries, w.data_same))
    | inr e ↦ rw e (
        Returns-bind (fat_write-Entered v disk prev fat32_eof hp) λ ended w.
          Returns-mono (fat_write-Entered v ended c 0 hc) λ disk' w'. (
            (λ k c' hk hc'. ground (arith, w'.entries k c' hk hc', w.entries k c' hk hc')),
            λ t h. w'.data_same t h ∙ w.data_same t h,
          ))
  ]
