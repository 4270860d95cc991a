-- ===== src/Cluster/Data.antt =====
-- fs/fat32/cluster.c: clusterRead and clusterWrite, which copy bytes sector by sector.
use kernel_travel.Base.{
  ℕ, zero, suc, ◌+◌, ◌-◌, ◌/◌, ◌%◌, min, ◌&&◌, List, [], ◌∷◌, ◌++◌, ltb, leb, ◌==◌, if◌then◌else◌,
  u64, length, get_or, drop, Outcome, ok, fault, spin, ◌>>=◌,
}
use kernel_travel.Cluster.{SuperBlock, Disk, buf_size, put_sector, cluster_sec}

-- the bytes of a sector from `off` up to `off + len`
abbrev pub bytes_at : (ℕ → ℕ) → ℕ → ℕ → List ℕ
bytes_at bytes off zero = []
bytes_at bytes off (suc len) = bytes off ∷ bytes_at bytes (off + 1) len

-- the sector's bytes with the first `len` of the list from `off` on
abbrev pub with_bytes : (ℕ → ℕ) → ℕ → ℕ → List ℕ → ℕ → ℕ
with_bytes bytes off len src j =
    if leb off j && ltb j (off + len) then get_or src (j - off) 0 else bytes j

-- min(bytes_per_sec - secoff, n - i)
abbrev pub step_len : SuperBlock → ℕ → ℕ → ℕ
step_len sb secoff left = min (sb.bytes_per_sec - secoff) left

-- The loop of clusterRead with `left` bytes to read, within `fuel` rounds.
unfoldable pub read_sectors : ℕ → SuperBlock → Disk → ℕ → ℕ → ℕ → Outcome (List ℕ)
read_sectors zero sb disk secno secoff left = if left == 0 then ok [] else spin
read_sectors (suc fuel) sb disk secno secoff left =
    let len = step_len sb secoff left in
    if left == 0
    then ok []
    else if leb (secoff + len) buf_size
    then (do
      rest ← read_sectors fuel sb disk (u64 (secno + 1)) 0 (left - len)
      ok (bytes_at (disk secno) secoff len ++ rest))
    else fault

-- Each round reads a byte at least. The offset is not negative.
unfoldable pub cluster_read : SuperBlock → Disk → ℕ → ℕ → ℕ → Outcome (List ℕ)
unfolding read_sectors cluster_sec
cluster_read sb disk cluster offset n =
    read_sectors n sb disk (u64 (cluster_sec sb cluster + offset / sb.bytes_per_sec))
      (offset % sb.bytes_per_sec) n

-- The loop of clusterWrite.
unfoldable pub write_sectors : ℕ → SuperBlock → Disk → ℕ → ℕ → List ℕ → ℕ → Outcome Disk
write_sectors zero sb disk secno secoff src left = if left == 0 then ok disk else spin
write_sectors (suc fuel) sb disk secno secoff src left =
    let len = step_len sb secoff left in
    let written = put_sector disk secno (with_bytes (disk secno) secoff len src) in
    if left == 0
    then ok disk
    else if leb (secoff + len) buf_size && leb len (length src)
    then write_sectors fuel sb written (u64 (secno + 1)) 0 (drop len src) (left - len)
    else fault

unfoldable pub cluster_write : SuperBlock → Disk → ℕ → ℕ → List ℕ → ℕ → Outcome Disk
unfolding write_sectors cluster_sec
cluster_write sb disk cluster offset src n =
    write_sectors n sb disk (u64 (cluster_sec sb cluster + offset / sb.bytes_per_sec))
      (offset % sb.bytes_per_sec) src n
