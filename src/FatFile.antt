-- ===== src/FatFile.antt =====
-- fs/fat32/filepnt.c, and Fatfile_read of fs/fat32/file.c: the table of the clusters of an open file, with
-- its two and three levels, and the reading of a file. A page of get_page is a table of zeroes, as
-- Pages.Alloc shows; that no page is left is not modelled.
pub mod Pointer
pub mod Init
mod Tests
use kernel_travel.Base.{
  ℕ, zero, suc, ◌+◌, ◌-◌, ◌*◌, ◌/◌, ◌%◌, ◌^◌, ◌≤◌, ◌<◌, min, max, bit_and, bit_or, bit_xor, ◌≡◌,
  refl, sym, ap, ◌∙◌, subst, ◌≢◌, ◌↔◌, ◌⊎◌, inl, inr, Bool, true, false, not, ◌&&◌, ◌||◌, Option,
  none, some, List, [], ◌∷◌, ◌++◌, map, arith, ltb, leb, ◌==◌, if◌then◌else◌, u32, u64, ==_iff,
  ltb→lt, lt→ltb, le→ltb, Bool-cases, Option-cases, all_below, all_below_sound, length, get_elem?,
  get_or, set, take, drop, replicate, length-append, length-set, length-replicate,
  get_elem?-eq-get_or, get_elem?-eq-none, get_or-set_self, get_or-set_ne, get_or-replicate, Outcome,
  ok, panic, fault, spin, ◌>>=◌, ◌>>◌, assert, present, Returns, returns, Returns-bind,
  Returns-mono, u32_small, u64_small, bind-eq, bit_or-high, ℤ, pos, negsuc, sub_ℕ,
  get_elem?-set_self, get_elem?-set_ne, get_elem?-in, Returns-result, Returns-assert, if-true,
  if-false, bind_assoc, Returns-ok, assert-true, Returns-after, is_ok, value_or,
}
use kernel_travel.Cluster.{SuperBlock, Disk, fat_read, fat_write, not_end_cluster}
use kernel_travel.Cluster.Data.{cluster_read}

abbrev pub page_nclusno : ℕ
page_nclusno = 1024

abbrev pub ndirent_secpointer : ℕ
ndirent_secpointer = 5

-- The pages behind struct TwicePointer and struct ThirdPointer, none for NULL.
abbrev pub Clusters : Type 0
Clusters = ℕ → ℕ

abbrev pub third_pointers : ℕ
third_pointers = 512

pub record DirentPointer : Type 0 where
  pub second : ℕ → Option Clusters
  pub third : Option (ℕ → Option Clusters)
  pub valid : Bool

-- A pointer that is set, or that of a fresh page.
abbrev pub or_clusters : Option Clusters → Clusters
or_clusters none i = 0
or_clusters (some t) i = t i

abbrev pub or_pointers : Option (ℕ → Option Clusters) → ℕ → Option Clusters
or_pointers none i = none
or_pointers (some t) i = t i

abbrev pub put_cluster : Clusters → ℕ → ℕ → Clusters
put_cluster t i v j = if j == i then v else t j

abbrev pub put_pointer : (ℕ → Option Clusters) → ℕ → Clusters → ℕ → Option Clusters
put_pointer t i v j = if j == i then some v else t j

-- The new content of the page that `t` points to, or of a fresh one.
abbrev pub entered : Option Clusters → ℕ → ℕ → Clusters
entered t index value = put_cluster (or_clusters t) index (u32 value)

-- if (pointer == NULL) pointer = get_page(); `free` is the number of pages that the pool has left. Where
-- there is none the ASSERT of bit_scan fails.
unfoldable pub page_for {ℓ} : {A : Type ℓ} → Option A → ℕ → Outcome ℕ
page_for (some t) free = ok free
page_for none zero = panic
page_for none (suc free) = ok free

unfoldable pub filepnt_setval : ℕ → DirentPointer → ℕ → ℕ → Outcome (ℕ × DirentPointer)
unfolding page_for
filepnt_setval free p i value =
    let index1 = i / page_nclusno in
    let index2 = i % page_nclusno in
    let third = or_pointers p.third in
    if leb ndirent_secpointer index1
    then (let index1 = index1 - ndirent_secpointer in
        do
          free ← page_for p.third free
          (if ltb index1 third_pointers
              then (do
                free ← page_for (third index1) free
                ok (
                  free,
                  record p {
                    third = some (put_pointer third index1 (entered (third index1) index2 value));
                  },
                ))
              else fault))
    else (do
      free ← page_for (p.second index1) free
      ok (
        free,
        record p { second = put_pointer p.second index1 (entered (p.second index1) index2 value) },
      ))

-- ASSERT(twicep != NULL), and the read behind it.
abbrev pub cluster_at : Option Clusters → ℕ → Outcome ℕ
cluster_at none index = panic
cluster_at (some t) index = ok (t index)

abbrev pub third_at : Option (ℕ → Option Clusters) → ℕ → ℕ → Outcome ℕ
third_at none ind1 ind2 = panic
third_at (some t) ind1 ind2 = cluster_at (t ind1) ind2

unfoldable pub filepnt_getclusbyno : DirentPointer → ℕ → Outcome ℕ
filepnt_getclusbyno p fileclusno =
    let ind1 = fileclusno / page_nclusno in
    let ind2 = fileclusno % page_nclusno in
    if ltb ind1 ndirent_secpointer
    then cluster_at (p.second ind1) ind2
    else assert (ltb (ind1 - ndirent_secpointer) third_pointers)
      >> third_at p.third (ind1 - ndirent_secpointer) ind2

-- The loop of filepnt_init, within `fuel` rounds.
unfoldable pub init_loop :
    ℕ → ℕ → SuperBlock → Disk → DirentPointer → ℕ → ℕ → Outcome (ℕ × DirentPointer)
unfolding filepnt_setval fat_read
init_loop zero free sb disk p i clus = if not_end_cluster clus then spin else ok (free, p)
init_loop (suc fuel) free sb disk p i clus =
    if not_end_cluster clus
    then (do
      r ← filepnt_setval free p i clus
      following ← fat_read sb disk clus
      init_loop fuel r.0 sb disk r.1 (i + 1) following)
    else ok (free, p)

unfoldable pub filepnt_init :
    ℕ → ℕ → SuperBlock → Disk → DirentPointer → ℕ → Outcome (ℕ × DirentPointer)
unfolding init_loop
filepnt_init fuel free sb disk p first_clus =
    if p.valid
    then ok (free, p)
    else if first_clus == 0
    then ok (free, p)
    else (do r ← init_loop fuel free sb disk p 0 first_clus; ok (r.0, record r.1 { valid = true }))

-- clus_sequence_free, within `fuel` rounds.
unfoldable pub clus_sequence_free : ℕ → SuperBlock → Disk → ℕ → Outcome Disk
unfolding fat_read fat_write
clus_sequence_free zero sb disk clus = spin
clus_sequence_free (suc fuel) sb disk clus = do
  nxt_clus ← fat_read sb disk clus
  disk' ← fat_write sb disk clus 0
  (if not_end_cluster nxt_clus then clus_sequence_free fuel sb disk' nxt_clus else ok disk')

-- The loop of Fatfile_read over the clusters after the first, within `fuel` rounds: `last` is `end`.
unfoldable pub clusters_loop : ℕ → SuperBlock → Disk → ℕ → ℕ → ℕ → ℕ → ℕ → Outcome (List ℕ)
unfolding cluster_read
clusters_loop zero sb disk last n clus_index clus len = spin
clusters_loop (suc fuel) sb disk last n clus_index clus len =
    let size = sb.bytes_per_clus in
    if leb (u32 (clus_index * size)) last
    then (let count = min size (u32 (n + 2 ^ 32 - len)) in
        do
          bytes ← cluster_read sb disk (u32 (clus + 1)) 0 count
          rest ←
              clusters_loop fuel sb disk last n (u32 (clus_index + 1)) (u32 (clus + 1))
                (u32 (len + count))
          ok (bytes ++ rest))
    else ok []

-- The reading of `n` bytes, which are in the file.
unfoldable pub read_inside : ℕ → SuperBlock → Disk → DirentPointer → ℕ → ℕ → Outcome (List ℕ)
unfolding filepnt_getclusbyno cluster_read clusters_loop
read_inside fuel sb disk p off n = do
  let size = sb.bytes_per_clus
  let offset = off % size
  let count = min n (size - offset)
  clus ← filepnt_getclusbyno p (off / size)
  bytes ← cluster_read sb disk clus offset count
  rest ← clusters_loop fuel sb disk (off + n - 1) n (u32 (off / size + 1)) clus count
  ok (bytes ++ rest)

-- Fatfile_read: the bytes that are copied; their number is returned.
unfoldable pub fatfile_read : ℕ → SuperBlock → Disk → DirentPointer → ℕ → ℕ → ℕ → Outcome (List ℕ)
unfolding read_inside
fatfile_read fuel sb disk p file_size off n =
    if leb file_size off
    then ok []
    else (let n = if ltb file_size (u32 (off + n)) then file_size - off else n in
        if n == 0 then ok [] else read_inside fuel sb disk p off n)
