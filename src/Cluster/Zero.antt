-- ===== src/Cluster/Zero.antt =====
-- fs/fat32/cluster.c, clusterZero: the loop ends and clears the sectors of the cluster, and no others.
use kernel_travel.Base.{
  ℕ, zero, suc, ◌+◌, ◌-◌, ◌*◌, ◌^◌, ◌≤◌, ◌<◌, ◌≡◌, refl, ap, ◌∙◌, ◌⊎◌, inl, inr, true, arith, leb,
  ◌==◌, u64, lt→ltb, le→ltb, Bool-cases, Returns, returns, Returns-mono,
}
use native.Mathlib.Nat.{mul-le-mul_right, mul-le-mul_left, suc-mul}
use kernel_travel.Cluster.{
  SuperBlock, Disk, clear_sector, cluster_sec, zero_loop, cluster_zero, buf_size,
}
use kernel_travel.Cluster.Table.{IsVolume}

-- The sectors from `s` up to `s + m` are cleared and no other is changed.
pub record Cleared (sb : SuperBlock) (disk : Disk) (s m : ℕ) (disk' : Disk) : Type 0 where
  pub zeros : (t j : ℕ) → s ≤ t → t < s + m → j < sb.bytes_per_sec → disk' t j ≡ 0
  pub others : (t : ℕ) → (t < s) ⊎ (s + m ≤ t) → disk' t ≡ disk t

module _ {sb : SuperBlock} (v : IsVolume sb) where
  Cleared-none : (disk : Disk) (s : ℕ) → Cleared sb disk s 0 disk
  Cleared-none disk s = record { zeros = λ t j h h' hj. absurd (omega arith); others = λ t h. refl }

  Cleared-step :
      {disk disk' : Disk} {s m : ℕ}
      → Cleared sb (clear_sector sb disk s) (s + 1) m disk'
      → Cleared sb disk s (suc m) disk'
  Cleared-step {disk} {disk'} {s} {m} c = record {
    zeros = λ t j h h' hj. elim (Bool-cases (t == s)) [
      | inl e ↦
          let at : disk' t ≡ clear_sector sb disk s t = c.others t (inl (ground (arith, e))) in
          ap (λ f. f j) at ∙ rw (e, lt→ltb j sb.bytes_per_sec hj) refl
      | inr e ↦ c.zeros t j (ground (arith, e)) (omega arith) hj
    ];
    others = λ t h. ground (arith, h, c.others t);
  }

  zero_loop-Cleared :
      (m fuel : ℕ) (disk : Disk) (n s i : ℕ)
      → m ≤ fuel
      → n ≡ i + m * sb.bytes_per_sec
      → n < 2 ^ 32
      → s + m < 2 ^ 64
      → Returns (Cleared sb disk s m) (zero_loop fuel sb disk n s i)
  unfolding zero_loop
  zero_loop-Cleared zero zero disk n s i hf hn hi hs =
      rw (le→ltb i n (omega arith)) (returns (Cleared-none disk s))
  zero_loop-Cleared zero (suc fuel) disk n s i hf hn hi hs =
      rw (le→ltb i n (omega arith)) (returns (Cleared-none disk s))
  zero_loop-Cleared (suc m) zero disk n s i hf hn hi hs = elim hf [ ]
  zero_loop-Cleared (suc m) (suc fuel) disk n s i hf hn hi hs =
      let more = suc-mul m sb.bytes_per_sec in
      let fits : leb sb.bytes_per_sec buf_size ≡ true = ground (arith, v.sector_fits) in
      let no_wrap : u64 (s + 1) ≡ s + 1 = omega arith in
      let no_wrap' : u64 (i + sb.bytes_per_sec) ≡ i + sb.bytes_per_sec =
        omega (arith, hn, more, hi) in
      rw (lt→ltb i n (omega (arith, hn, more, v.sector_pos)), fits, no_wrap, no_wrap')
        (Returns-mono
          (zero_loop-Cleared m fuel (clear_sector sb disk s) n (s + 1) (i + sb.bytes_per_sec)
            (omega arith) (omega (arith, hn, more)) hi (omega arith))
          λ disk' c. Cleared-step c)

  -- The sectors of a cluster lie one after the other from this one on.
  pub cluster_sec-eq :
      (c : ℕ)
      → 2 ≤ c
      → c < sb.data_clus_cnt + 2
      → cluster_sec sb c ≡ sb.first_data_sec + (c - 2) * sb.sec_per_clus
  unfolding cluster_sec
  cluster_sec-eq c lo hi =
      let small : u64 (c + 2 ^ 64 - 2) ≡ c - 2 = omega (arith, v.few) in
      let inside : (c - 2) * sb.sec_per_clus ≤ sb.data_clus_cnt * sb.sec_per_clus =
        mul-le-mul_right sb.sec_per_clus (omega arith) in
      rw small (omega (arith, inside, v.data_end))

  -- clusterZero ends and clears exactly the sectors of the cluster.
  pub cluster_zero-Cleared :
      (disk : Disk) (c : ℕ)
      → 2 ≤ c
      → c < sb.data_clus_cnt + 2
      → Returns (Cleared sb disk (cluster_sec sb c) sb.sec_per_clus) (cluster_zero sb disk c)
  unfolding cluster_zero
  cluster_zero-Cleared disk c lo hi =
      let more : suc (c - 2) * sb.sec_per_clus ≤ sb.data_clus_cnt * sb.sec_per_clus =
        mul-le-mul_right sb.sec_per_clus (omega arith) in
      let grows : sb.sec_per_clus * 1 ≤ sb.sec_per_clus * sb.bytes_per_sec =
        mul-le-mul_left sb.sec_per_clus v.sector_pos in
      let next : (c - 2) * sb.sec_per_clus + sb.sec_per_clus ≤ sb.data_clus_cnt * sb.sec_per_clus =
        omega (arith, suc-mul (c - 2) sb.sec_per_clus, more) in
      rw (lt→ltb sb.bytes_per_clus (2 ^ 31) v.clus_small) (
        zero_loop-Cleared sb.sec_per_clus sb.bytes_per_clus disk sb.bytes_per_clus
          (cluster_sec sb c) 0 (omega (arith, v.clus_size, grows)) (omega (arith, v.clus_size))
          (omega (arith, v.clus_small))
          (rw (cluster_sec-eq c lo hi) (omega (arith, next, v.data_end))))
