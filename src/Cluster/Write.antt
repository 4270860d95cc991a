-- ===== src/Cluster/Write.antt =====
-- fs/fat32/cluster.c: fatWrite as a change of one entry.
use kernel_travel.Base.{
  ℕ, zero, suc, ◌+◌, ◌≤◌, ◌<◌, ◌≡◌, refl, ◌∙◌, arith, ◌==◌, if◌then◌else◌, u32, Returns, returns,
  Returns-bind, Returns-mono,
}
use kernel_travel.Cluster.{SuperBlock, Disk, fat_write_loop, fat_write}
use kernel_travel.Cluster.Table.{IsVolume, entry, Written, Written-one}

-- What a write of `val` as the entry of `c` makes of the disk: every table has it, no other entry
-- and no data sector changes.
pub record Entered (sb : SuperBlock) (disk : Disk) (c val : ℕ) (disk' : Disk) : Type 0 where
  pub entries :
      (k c' : ℕ)
      → k < sb.fat_cnt
      → c' < sb.data_clus_cnt + 2
      → entry sb disk' k c' ≡ (if c == c' then val else entry sb disk k c')
  pub data_same : (s : ℕ) → sb.first_data_sec ≤ s → disk' s ≡ disk s

module _ {sb : SuperBlock} (v : IsVolume sb) where
  Written-none : (disk : Disk) (c val k : ℕ) → Written v disk c val k 0 disk
  Written-none disk c val k = record {
    entries = λ k' c' hk hc. ground arith;
    data_same = λ s h. refl;
  }

  Written-join :
      {disk disk₁ disk₂ : Disk} {c val k n : ℕ}
      → Written v disk c val k 1 disk₁
      → Written v disk₁ c val (k + 1) n disk₂
      → Written v disk c val k (suc n) disk₂
  Written-join w r = record {
    entries = λ k' c' hk hc. ground (arith, r.entries k' c' hk hc, w.entries k' c' hk hc);
    data_same = λ s h. r.data_same s h ∙ w.data_same s h;
  }

  fat_write_loop-Written :
      (n : ℕ) (disk : Disk) (c content k : ℕ)
      → c < sb.data_clus_cnt + 2
      → k + n ≤ sb.fat_cnt
      → Returns (Written v disk c (u32 content) k n) (fat_write_loop sb disk c content k n)
  unfolding fat_write_loop
  fat_write_loop-Written zero disk c content k hc hk = returns (Written-none disk c (u32 content) k)
  fat_write_loop-Written (suc n) disk c content k hc hk =
      Returns-bind (Written-one v disk c content k hc (omega arith)) λ disk₁ w.
        Returns-mono (fat_write_loop-Written n disk₁ c content (k + 1) hc (omega arith))
          λ disk₂ r. Written-join w r

  -- fatWrite stores the entry in every copy of the table and changes nothing else that matters: the
  -- other entries of all copies and the data sectors stay.
  pub fat_write-Entered :
      (disk : Disk) (c content : ℕ)
      → c < sb.data_clus_cnt + 2
      → Returns (Entered sb disk c (u32 content)) (fat_write sb disk c content)
  unfolding fat_write
  fat_write-Entered disk c content hc =
      Returns-mono (fat_write_loop-Written sb.fat_cnt disk c content 0 hc (omega arith)) λ disk' w.
        record {
          entries = λ k c' hk hc'. ground (arith, w.entries k c' hk hc', hk);
          data_same = w.data_same;
        }
