-- ===== src/Cluster/Tests.antt =====
-- A small volume: a table of one sector in two copies, four clusters of one sector. A file takes the
-- clusters 2 and 3.
use kernel_travel.Base.{◌+◌, ◌/◌, ◌^◌, ◌<◌, refl, [], ◌∷◌, arith}
use kernel_travel.Cluster.{SuperBlock, Disk, Volume, fat32_eof, put_sector, store_word, cluster_sec}
use kernel_travel.Cluster.Table.{IsVolume}
use kernel_travel.Cluster.Chain.{Chain, chain_end, chain_link}

abbrev pub sb : SuperBlock
sb = record {
  first_data_sec = 3;
  data_clus_cnt = 4;
  bytes_per_clus = 512;
  rsvd_sec_cnt = 1;
  fat_cnt = 2;
  fat_sz = 1;
  bytes_per_sec = 512;
  sec_per_clus = 1;
}

pub sb-IsVolume : IsVolume sb
sb-IsVolume = record {
  whole_entries = refl;
  sector_pos = omega arith;
  sector_fits = omega arith;
  one_table = omega arith;
  table_fits = omega arith;
  layout = omega arith;
  few = omega arith;
  data_small = omega arith;
  clus_size = refl;
  clus_small = omega arith;
  clus_pos = omega arith;
  data_end = omega arith;
}

abbrev pub disk : Disk
disk = put_sector (λ s j. 0) 1 (store_word (store_word (λ j. 0) 2 3) 3 fat32_eof)

abbrev vol : Volume
vol = record { disk = disk; alloced_clus = 2 }

pub file-Chain : Chain sb disk (2 ∷ 3 ∷ []) 2
file-Chain =
    chain_link (omega arith) (omega arith)
      (chain_link (omega arith) (omega arith) (chain_end (omega arith)))

at_start : cluster_sec sb 2 + 510 / 512 + 5 < 2 ^ 64
unfolding cluster_sec
at_start = omega arith
