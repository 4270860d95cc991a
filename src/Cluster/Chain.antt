-- ===== src/Cluster/Chain.antt =====
-- fs/fat32/cluster.c: countClusters and fileBlockNo on a file's chain of clusters.
use kernel_travel.Base.{
  ℕ, zero, suc, ◌+◌, ◌/◌, ◌%◌, ◌≤◌, ◌<◌, ◌≡◌, refl, ap, true, false, Option, none, some, List, [],
  ◌∷◌, arith, ◌==◌, u64, lt→ltb, le→ltb, length, get_elem?, ok, u32_small,
}
use kernel_travel.Cluster.{
  SuperBlock, Disk, not_end_cluster, cluster_sec, block_loop, file_block_no, count_loop,
  count_clusters,
}
use kernel_travel.Cluster.Table.{IsVolume, entry, fat_read-entry}

-- The clusters `cs` are linked in this order from `c` on, and the last has an end mark.
pub data Chain (sb : SuperBlock) (disk : Disk) : List ℕ → ℕ → Type 0 where
  chain_end : {c : ℕ} → 0x0ffffff8 ≤ c → Chain sb disk [] c
  chain_link :
      {c : ℕ} {cs : List ℕ}
      → 2 ≤ c
      → c < sb.data_clus_cnt + 2
      → Chain sb disk cs (entry sb disk 0 c)
      → Chain sb disk (c ∷ cs) c

-- where the file's block `b` lies, by the list of its clusters
abbrev pub block_sec : SuperBlock → List ℕ → ℕ → Option ℕ
block_sec sb cs b = elim (get_elem? cs (b / sb.sec_per_clus)) [
  | none ↦ none
  | some c ↦ some (u64 (cluster_sec sb c + b % sb.sec_per_clus))
]

module _ {sb : SuperBlock} (v : IsVolume sb) where
  pub below_end : (c : ℕ) → c < sb.data_clus_cnt + 2 → not_end_cluster c ≡ true
  below_end c h = lt→ltb c 0x0ffffff8 (omega (arith, v.few, h))

module _ {sb : SuperBlock} (v : IsVolume sb) {disk : Disk} where
  count_loop-Chain :
      (cs : List ℕ) (fuel c i : ℕ)
      → Chain sb disk cs c
      → length cs ≤ fuel
      → count_loop fuel sb disk c i ≡ ok (i + length cs)
  unfolding count_loop
  count_loop-Chain [] zero c i (chain_end e) hf = rw (le→ltb c 0x0ffffff8 e) (ap ok (omega arith))
  count_loop-Chain [] (suc fuel) c i (chain_end e) hf =
      rw (le→ltb c 0x0ffffff8 e) (ap ok (omega arith))
  count_loop-Chain (_ ∷ cs) zero c i (chain_link lo hi next) hf = absurd (omega arith)
  count_loop-Chain (_ ∷ cs) (suc fuel) c i (chain_link lo hi next) hf =
      rw
        (
          below_end v c hi,
          fat_read-entry v disk c lo hi,
          count_loop-Chain cs fuel (entry sb disk 0 c) (i + 1) next (omega arith),
        )
        (ap ok (omega arith))

  -- countClusters of a file's first cluster is the number of clusters of its chain, whatever bound at
  -- least that is given to the rounds.
  pub count_clusters-length :
      (cs : List ℕ) (fuel c : ℕ)
      → 2 ≤ c
      → Chain sb disk cs c
      → length cs ≤ fuel
      → count_clusters fuel sb disk c ≡ ok (length cs)
  unfolding count_clusters
  count_clusters-length cs fuel c lo chain hf =
      let not_zero : (c == 0) ≡ false = ground (arith, lo) in
      rw (not_zero, count_loop-Chain cs fuel c 0 chain hf) (ap ok (omega arith))

  block_loop-Chain :
      (cs : List ℕ) (n c : ℕ)
      → Chain sb disk cs c
      → c < sb.data_clus_cnt + 2
      → block_loop sb disk c n ≡ ok (get_elem? cs n)
  unfolding block_loop
  block_loop-Chain [] n c (chain_end e) hc = absurd (omega (arith, v.few, e, hc))
  block_loop-Chain (_ ∷ cs) zero c (chain_link lo hi next) hc = refl
  block_loop-Chain (_ ∷ []) (suc n) c (chain_link lo hi (chain_end e)) hc =
      rw (fat_read-entry v disk c lo hi, le→ltb (entry sb disk 0 c) 0x0ffffff8 e) refl
  block_loop-Chain (_ ∷ _ ∷ cs) (suc n) c (chain_link lo hi (chain_link lo' hi' next)) hc =
      rw (fat_read-entry v disk c lo hi, below_end v (entry sb disk 0 c) hi')
        (block_loop-Chain (entry sb disk 0 c ∷ cs) n (entry sb disk 0 c) (chain_link lo' hi' next)
          hi')

  -- fileBlockNo finds block `b` of a file in its cluster number b / sec_per_clus, and returns -1 exactly
  -- if the chain has no such cluster.
  pub file_block_no-block_sec :
      (cs : List ℕ) (c b : ℕ)
      → Chain sb disk cs c
      → c < sb.data_clus_cnt + 2
      → file_block_no sb disk c b ≡ ok (block_sec sb cs b)
  unfolding file_block_no
  file_block_no-block_sec cs c b chain hc =
      rw
        (
          u32_small c (omega (arith, v.few, hc)),
          block_loop-Chain cs (b / sb.sec_per_clus) c chain hc,
        )
        refl
