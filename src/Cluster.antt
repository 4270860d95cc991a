-- ===== src/Cluster.antt =====
-- fs/fat32/cluster.c: the clusters of a FAT32 volume and the table that chains them. A sector is read and
-- written through the buffer cache (fs->get, bufWrite, bufRelease), which is left out here, with what it does
-- to unwritten data:
-- the state is the sectors' bytes. A buffer holds BUF_SIZE bytes; an access past them is a fault. A sector
-- size or a cluster size of 0, by which the C code divides, is outside the model.
pub mod Table
pub mod Write
pub mod Zero
pub mod Alloc
pub mod Chain
pub mod Data
pub mod RoundTrip
pub mod Tests
use kernel_travel.Base.{
  ℕ, zero, suc, ◌+◌, ◌-◌, ◌*◌, ◌/◌, ◌%◌, ◌^◌, bit_and, Bool, not, ◌||◌, Option, none, some, List,
  [], ◌∷◌, ltb, leb, ◌==◌, if◌then◌else◌, u32, u64, Outcome, ok, fault, spin, ◌>>=◌,
}

abbrev pub buf_size : ℕ
buf_size = 512

abbrev pub fat32_eof : ℕ
fat32_eof = 0x0fffffff

-- the fields of `struct SuperBlock` and of its `struct bpb` that cluster.c reads
pub record SuperBlock : Type 0 where
  pub first_data_sec : ℕ
  pub data_clus_cnt : ℕ
  pub bytes_per_clus : ℕ
  pub rsvd_sec_cnt : ℕ
  pub fat_cnt : ℕ
  pub fat_sz : ℕ
  pub bytes_per_sec : ℕ
  pub sec_per_clus : ℕ

-- the bytes of every sector
abbrev pub Disk : Type 0
Disk = ℕ → ℕ → ℕ

-- the disk, and the counter `alloced_clus`
pub record Volume : Type 0 where
  pub disk : Disk
  pub alloced_clus : ℕ

abbrev pub put_sector : Disk → ℕ → (ℕ → ℕ) → Disk
put_sector disk sec bytes t = if t == sec then bytes else disk t

-- An `unsigned int` of a buffer, and a store to it: four bytes, the low one first.
abbrev pub load_word : (ℕ → ℕ) → ℕ → ℕ
load_word bytes i =
    bytes (4 * i)
    + 256 * bytes (4 * i + 1)
    + 65536 * bytes (4 * i + 2)
    + 16777216 * bytes (4 * i + 3)

abbrev pub byte_of : ℕ → ℕ → ℕ
byte_of v zero = v % 256
byte_of v (suc k) = byte_of (v / 256) k

abbrev pub store_word : (ℕ → ℕ) → ℕ → ℕ → ℕ → ℕ
store_word bytes i v j = if j / 4 == i then byte_of v (j % 4) else bytes j

unfoldable pub cluster_sec : SuperBlock → ℕ → ℕ
cluster_sec sb cluster = u64 (sb.first_data_sec + u64 (cluster + 2 ^ 64 - 2) * sb.sec_per_clus)

unfoldable pub cluster_fat_sec : SuperBlock → ℕ → ℕ → ℕ
cluster_fat_sec sb cluster fatno =
    u64 (u32 (sb.rsvd_sec_cnt + fatno * sb.fat_sz) + u64 (cluster * 4) / sb.bytes_per_sec)

unfoldable pub cluster_fat_sec_index : SuperBlock → ℕ → ℕ
cluster_fat_sec_index sb cluster = u64 (cluster * 4) % sb.bytes_per_sec / 4

-- One round of the loop of fatWrite, and the rounds for the `n` tables from `fatno` on.
unfoldable pub fat_write_one : SuperBlock → Disk → ℕ → ℕ → ℕ → Outcome Disk
unfolding cluster_fat_sec cluster_fat_sec_index
fat_write_one sb disk cluster content fatno =
    let sec = cluster_fat_sec sb cluster fatno in
    let i = cluster_fat_sec_index sb cluster in
    if ltb (4 * i + 3) buf_size
    then ok (put_sector disk sec (store_word (disk sec) i (u32 content)))
    else fault

unfoldable pub fat_write_loop : SuperBlock → Disk → ℕ → ℕ → ℕ → ℕ → Outcome Disk
unfolding fat_write_one
fat_write_loop sb disk cluster content fatno zero = ok disk
fat_write_loop sb disk cluster content fatno (suc n) = do
  disk' ← fat_write_one sb disk cluster content fatno
  fat_write_loop sb disk' cluster content (fatno + 1) n

unfoldable pub fat_write : SuperBlock → Disk → ℕ → ℕ → Outcome Disk
unfolding fat_write_loop
fat_write sb disk cluster content = fat_write_loop sb disk cluster content 0 sb.fat_cnt

unfoldable pub fat_read : SuperBlock → Disk → ℕ → Outcome ℕ
unfolding cluster_fat_sec cluster_fat_sec_index
fat_read sb disk cluster =
    if ltb cluster 2 || ltb (u32 (sb.data_clus_cnt + 1)) cluster
    then ok 0
    else (let i = cluster_fat_sec_index sb cluster in
        if ltb (4 * i + 3) buf_size
        then ok (load_word (disk (cluster_fat_sec sb cluster 0)) i)
        else fault)

-- memset of a sector's buffer
abbrev pub clear_sector : SuperBlock → Disk → ℕ → Disk
clear_sector sb disk sec = put_sector disk sec λ j. if ltb j sb.bytes_per_sec then 0 else disk sec j

-- The loop of clusterZero from byte `i` of the cluster on; `fuel` bounds the rounds.
unfoldable pub zero_loop : ℕ → SuperBlock → Disk → ℕ → ℕ → ℕ → Outcome Disk
zero_loop zero sb disk n secno i = if ltb i n then spin else ok disk
zero_loop (suc fuel) sb disk n secno i =
    if ltb i n
    then (if leb sb.bytes_per_sec buf_size
        then zero_loop fuel sb
            (put_sector disk secno (λ j. if ltb j sb.bytes_per_sec then 0 else disk secno j)) n
            (u64 (secno + 1)) (u64 (i + sb.bytes_per_sec))
        else fault)
    else ok disk

-- `n` is an int that is compared as an unsigned long. Each round clears at least a byte.
unfoldable pub cluster_zero : SuperBlock → Disk → ℕ → Outcome Disk
unfolding zero_loop cluster_sec
cluster_zero sb disk cluster =
    let n =
      if ltb sb.bytes_per_clus (2 ^ 31)
      then sb.bytes_per_clus
      else sb.bytes_per_clus + (2 ^ 64 - 2 ^ 32) in
    zero_loop sb.bytes_per_clus sb disk n (cluster_sec sb cluster) 0

-- What clusterAlloc does with the free cluster that it has found.
unfoldable pub take_cluster : SuperBlock → Volume → ℕ → ℕ → Outcome (ℕ × Volume)
unfolding fat_write cluster_zero
take_cluster sb vol prev cluster = do
  linked ← if not (prev == 0) then fat_write sb vol.disk prev cluster else ok vol.disk
  ended ← fat_write sb linked cluster fat32_eof
  cleared ← cluster_zero sb ended cluster
  ok (cluster, record vol { disk = cleared; alloced_clus = u64 (vol.alloced_clus + 1) })

-- The loop of clusterAlloc over the `n` clusters from `cluster` on.
unfoldable pub alloc_loop : SuperBlock → Volume → ℕ → ℕ → ℕ → Outcome (ℕ × Volume)
unfolding fat_read take_cluster
alloc_loop sb vol prev cluster zero = ok (0, vol)
alloc_loop sb vol prev cluster (suc n) = do
  content ← fat_read sb vol.disk cluster
  (if content == 0
      then take_cluster sb vol prev cluster
      else alloc_loop sb vol prev (cluster + 1) n)

unfoldable pub cluster_alloc : SuperBlock → Volume → ℕ → Outcome (ℕ × Volume)
unfolding alloc_loop
cluster_alloc sb vol prev =
    let first = if prev == 0 then 2 else u64 (prev + 1) in
    alloc_loop sb vol prev first (u32 (sb.data_clus_cnt + 2) - first)

unfoldable pub cluster_free : SuperBlock → Disk → ℕ → ℕ → Outcome Disk
unfolding fat_write
cluster_free sb disk cluster prev =
    if prev == 0
    then fat_write sb disk cluster 0
    else (do ended ← fat_write sb disk prev fat32_eof; fat_write sb ended cluster 0)

-- FAT32_NOT_END_CLUSTER
abbrev pub not_end_cluster : ℕ → Bool
not_end_cluster cluster = ltb cluster 0x0ffffff8

-- The loop of fileBlockNo: the cluster after `n` links, none for its return of -1. The C counter has 32
-- bits; a block number that needs more rounds is outside the model.
unfoldable pub block_loop : SuperBlock → Disk → ℕ → ℕ → Outcome (Option ℕ)
unfolding fat_read
block_loop sb disk cluster zero = ok (some cluster)
block_loop sb disk cluster (suc n) = do
  following ← fat_read sb disk cluster
  if not (not_end_cluster following) then ok none else block_loop sb disk following n

unfoldable pub file_block_no : SuperBlock → Disk → ℕ → ℕ → Outcome (Option ℕ)
unfolding block_loop cluster_sec
file_block_no sb disk firstclus fblockno = do
  cluster ← block_loop sb disk (u32 firstclus) (fblockno / sb.sec_per_clus)
  ok (elim cluster [
    | none ↦ none
    | some clus ↦ some (u64 (cluster_sec sb clus + fblockno % sb.sec_per_clus))
  ])

-- The loop of countClusters within `fuel` rounds. A value above INT_MAX is negative as an int and above
-- the bound again as an unsigned long.
unfoldable pub count_loop : ℕ → SuperBlock → Disk → ℕ → ℕ → Outcome ℕ
unfolding fat_read
count_loop zero sb disk clus i = if not_end_cluster clus then spin else ok i
count_loop (suc fuel) sb disk clus i =
    if not_end_cluster clus
    then (do following ← fat_read sb disk clus; count_loop fuel sb disk following (i + 1))
    else ok i

unfoldable pub count_clusters : ℕ → SuperBlock → Disk → ℕ → Outcome ℕ
unfolding count_loop
count_clusters fuel sb disk first_clus =
    if first_clus == 0 then ok 0 else count_loop fuel sb disk first_clus 0

-- checkSum reads the eleven bytes of a short name.
unfoldable pub sum_loop : List ℕ → ℕ → ℕ → Outcome ℕ
sum_loop name sum zero = ok sum
sum_loop [] sum (suc n) = fault
sum_loop (c ∷ name) sum (suc n) =
    sum_loop name (((if bit_and sum 1 == 0 then 0 else 0x80) + sum / 2 + c) % 256) n

unfoldable pub check_sum : List ℕ → Outcome ℕ
unfolding sum_loop
check_sum name = sum_loop name 0 11
