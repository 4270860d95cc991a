-- ===== src/Cluster/Table.antt =====
-- fs/fat32/cluster.c, fatRead and fatWrite: where an entry of the table lies, and what a write changes.
use kernel_travel.Base.{
  ℕ, zero, suc, ◌+◌, ◌*◌, ◌/◌, ◌%◌, ◌^◌, ◌≤◌, ◌<◌, ◌≡◌, refl, sym, ap, ◌∙◌, inl, inr, ◌&&◌, arith,
  ltb, leb, ◌==◌, if◌then◌else◌, u32, u64, ==_iff, lt→ltb, Bool-cases, ok, Returns, returns,
}
use native.Mathlib.Nat.{
  div-lt_iff_lt-mul, mul-div-mul_left, mul-add-div_right, div-eq_of_lt, div-add-mod, mod-lt,
  mul-le-mul_right, suc-mul,
}
use kernel_travel.Cluster.{
  SuperBlock, Disk, put_sector, load_word, store_word, byte_of, cluster_fat_sec,
  cluster_fat_sec_index, fat_write_one, fat_read, buf_size,
}

-- A FAT32 volume: sectors of whole entries that a buffer holds, tables that have an entry for each
-- cluster, and the data after the tables.
pub record IsVolume (sb : SuperBlock) : Type 0 where
  pub whole_entries : sb.bytes_per_sec ≡ 4 * (sb.bytes_per_sec / 4)
  pub sector_pos : 0 < sb.bytes_per_sec
  pub sector_fits : sb.bytes_per_sec ≤ buf_size
  pub one_table : 0 < sb.fat_cnt
  pub table_fits : sb.data_clus_cnt + 2 ≤ sb.fat_sz * (sb.bytes_per_sec / 4)
  pub layout : sb.rsvd_sec_cnt + sb.fat_cnt * sb.fat_sz ≤ sb.first_data_sec
  pub few : sb.data_clus_cnt + 2 ≤ 0x0ffffff8
  pub data_small : sb.first_data_sec < 2 ^ 32
  pub clus_size : sb.bytes_per_clus ≡ sb.sec_per_clus * sb.bytes_per_sec
  pub clus_small : sb.bytes_per_clus < 2 ^ 31
  pub clus_pos : 0 < sb.sec_per_clus
  pub data_end : sb.first_data_sec + sb.data_clus_cnt * sb.sec_per_clus < 2 ^ 32

-- entries of a sector
abbrev pub per_sector : SuperBlock → ℕ
per_sector sb = sb.bytes_per_sec / 4

-- The sector of the entry of cluster `c` in table `k`, the index there, and the entry.
abbrev pub entry_sec : SuperBlock → ℕ → ℕ → ℕ
entry_sec sb k c = sb.rsvd_sec_cnt + k * sb.fat_sz + c / per_sector sb

abbrev pub entry_index : SuperBlock → ℕ → ℕ
entry_index sb c = c % per_sector sb

abbrev pub entry : SuperBlock → Disk → ℕ → ℕ → ℕ
entry sb disk k c = load_word (disk (entry_sec sb k c)) (entry_index sb c)

mul_mod_4 : (c e : ℕ) → 0 < e → 4 * c % (4 * e) / 4 ≡ c % e
mul_mod_4 c e h =
    let q : 4 * c / (4 * e) ≡ c / e = mul-div-mul_left c e (omega arith) in
    let a : 4 * e * (4 * c / (4 * e)) + 4 * c % (4 * e) ≡ 4 * c = div-add-mod (4 * c) (4 * e) in
    let b : e * (c / e) + c % e ≡ c = div-add-mod c e in
    let a' : 4 * e * (c / e) + 4 * c % (4 * e) ≡ 4 * c = rw (sym q) (a) in omega (arith, a', b)

div_words : (n c e : ℕ) → n ≡ 4 * e → 4 * c / n ≡ c / e
div_words n c e h = rw h (mul-div-mul_left c e (omega arith))

mod_words : (n c e : ℕ) → n ≡ 4 * e → 0 < e → 4 * c % n / 4 ≡ c % e
mod_words n c e h hp = rw h (mul_mod_4 c e hp)

-- A table and a sector in it are determined by the sector's number.
table_inj : (s k k' q q' : ℕ) → q < s → q' < s → k * s + q ≡ k' * s + q' → (k ≡ k') × (q ≡ q')
table_inj s k k' q q' h h' e =
    let left : (k * s + q) / s ≡ k + q / s = mul-add-div_right (omega arith) k q in
    let right : (k' * s + q') / s ≡ k' + q' / s = mul-add-div_right (omega arith) k' q' in
    let z : q / s ≡ 0 = div-eq_of_lt h in
    let z' : q' / s ≡ 0 = div-eq_of_lt h' in
    let same : k + q / s ≡ k' + q' / s = sym left ∙ ap (λ n. n / s) e ∙ right in
    let ks : k ≡ k' = omega (arith, same, z, z') in
    let e' : k * s + q ≡ k * s + q' = e ∙ ap (λ x. x * s + q') (sym ks) in (ks, omega (arith, e'))

byte_small : (v k : ℕ) → byte_of v k < 256
byte_small v zero = omega arith
byte_small v (suc k) = byte_small (v / 256) k

pub load-store_word :
    (bytes : ℕ → ℕ) (i v i' : ℕ)
    → v < 2 ^ 32
    → load_word (store_word bytes i v) i' ≡ (if i == i' then v else load_word bytes i')
load-store_word bytes i v i' h = ground arith

load-put_word :
    (disk : Disk) (sec i val sec' i' : ℕ)
    → val < 2 ^ 32
    → load_word (put_sector disk sec (store_word (disk sec) i val) sec') i'
      ≡ (if sec' == sec && i == i' then val else load_word (disk sec') i')
load-put_word disk sec i val sec' i' h = elim (Bool-cases (sec' == sec)) [
  | inl e ↦
      rw (e, load-store_word (disk sec) i val i' h)
        (ap (λ t. if i == i' then val else load_word (disk t) i') (sym ((==_iff sec' sec).0 e)))
  | inr e ↦ rw e refl
]

module _ {sb : SuperBlock} (v : IsVolume sb) where
  per_sector_pos : 0 < per_sector sb
  per_sector_pos = omega (arith, v.whole_entries, v.sector_pos)

  in_table : (c : ℕ) → c < sb.data_clus_cnt + 2 → c / per_sector sb < sb.fat_sz
  in_table c h = (div-lt_iff_lt-mul per_sector_pos).1 (omega (arith, h, v.table_fits))

  table_below : (k : ℕ) → k < sb.fat_cnt → k * sb.fat_sz + sb.fat_sz ≤ sb.fat_cnt * sb.fat_sz
  table_below k h = omega (arith, mul-le-mul_right sb.fat_sz h, suc-mul k sb.fat_sz)

  pub fat_sec-eq :
      (c k : ℕ)
      → c < sb.data_clus_cnt + 2
      → k < sb.fat_cnt
      → cluster_fat_sec sb c k ≡ entry_sec sb k c
  unfolding cluster_fat_sec
  fat_sec-eq c k h hk =
      let small : u64 (c * 4) ≡ 4 * c = omega (arith, h, v.few) in
      let q : 4 * c / sb.bytes_per_sec ≡ c / per_sector sb =
        div_words sb.bytes_per_sec c (per_sector sb) v.whole_entries in
      rw (small, q) (omega (arith, table_below k hk, in_table c h, v.layout, v.data_small))

  fat_sec_index-eq :
      (c : ℕ) → c < sb.data_clus_cnt + 2 → cluster_fat_sec_index sb c ≡ c % per_sector sb
  unfolding cluster_fat_sec_index
  fat_sec_index-eq c h =
      let small : u64 (c * 4) ≡ 4 * c = omega (arith, h, v.few) in
      rw small (mod_words sb.bytes_per_sec c (per_sector sb) v.whole_entries per_sector_pos)

  index_fits : (c : ℕ) → 4 * (c % per_sector sb) + 3 < buf_size
  index_fits c =
      let lt : c % per_sector sb < per_sector sb = mod-lt c per_sector_pos in
      omega (arith, lt, v.whole_entries, v.sector_fits)

  -- Two entries are at one place only if they are the same.
  entry_inj :
      (c c' k k' : ℕ)
      → c < sb.data_clus_cnt + 2
      → c' < sb.data_clus_cnt + 2
      → entry_sec sb k c ≡ entry_sec sb k' c'
      → c % per_sector sb ≡ c' % per_sector sb
      → (c ≡ c') × (k ≡ k')
  entry_inj c c' k k' h h' same_sec same_index =
      let (ks, qs) =
        table_inj sb.fat_sz k k' (c / per_sector sb) (c' / per_sector sb) (in_table c h)
          (in_table c' h') (omega (arith, same_sec)) in
      let a : per_sector sb * (c / per_sector sb) + c % per_sector sb ≡ c =
        div-add-mod c (per_sector sb) in
      let a' : per_sector sb * (c' / per_sector sb) + c' % per_sector sb ≡ c' =
        div-add-mod c' (per_sector sb) in
      let b : per_sector sb * (c / per_sector sb) ≡ per_sector sb * (c' / per_sector sb) =
        ap (λ q. per_sector sb * q) qs in
      (omega (arith, a, a', b, same_index), ks)

  pub fat_read-entry :
      (disk : Disk) (c : ℕ)
      → 2 ≤ c
      → c < sb.data_clus_cnt + 2
      → fat_read sb disk c ≡ ok (entry sb disk 0 c)
  unfolding fat_read
  fat_read-entry disk c lo hi =
      ground (arith, fat_sec-eq c 0 hi v.one_table, fat_sec_index-eq c hi, index_fits c, v.few)

  -- What writes of `v` as the entry of `c` in the tables from `k` up to `k + n` make of the disk.
  pub record Written (disk : Disk) (c val k n : ℕ) (disk' : Disk) : Type 0 where
    pub entries :
        (k' c' : ℕ)
        → k' < sb.fat_cnt
        → c' < sb.data_clus_cnt + 2
        → entry sb disk' k' c'
          ≡ (if c == c' && (leb k k' && ltb k' (k + n)) then val else entry sb disk k' c')
    pub data_same : (s : ℕ) → sb.first_data_sec ≤ s → disk' s ≡ disk s

  -- The place of one entry is that of another exactly if they are the same.
  same_place :
      (c c' k k' : ℕ)
      → c < sb.data_clus_cnt + 2
      → c' < sb.data_clus_cnt + 2
      → (entry_sec sb k' c' == entry_sec sb k c && c % per_sector sb == c' % per_sector sb)
        ≡ (c == c' && (leb k k' && ltb k' (k + 1)))
  same_place c c' k k' h h' = elim (Bool-cases (c == c' && k == k')) [
    | inl e ↦
        let (cs, ks) : (c ≡ c') × (k ≡ k') = (ground (arith, e), ground (arith, e)) in
        rw (cs, ks) (ground arith)
    | inr e ↦ ground (arith, e, entry_inj c c' k k' h h')
  ]

  pub Written-one :
      (disk : Disk) (c content k : ℕ)
      → c < sb.data_clus_cnt + 2
      → k < sb.fat_cnt
      → Returns (Written disk c (u32 content) k 1) (fat_write_one sb disk c content k)
  unfolding fat_write_one
  Written-one disk c content k hc hk =
      rw (fat_sec-eq c k hc hk, fat_sec_index-eq c hc, lt→ltb _ _ (index_fits c))
        (returns (record {
          entries = λ k' c' hk' hc'.
              load-put_word disk (entry_sec sb k c) (entry_index sb c) (u32 content)
                (entry_sec sb k' c') (entry_index sb c') (omega arith)
              ∙ ap (λ b. if b then u32 content else entry sb disk k' c')
                  (same_place c c' k k' hc hc');
          data_same = λ s hs. ground (arith, table_below k hk, in_table c hc, v.layout);
        }))

  pub entry_sec-below :
      (k c : ℕ) → k < sb.fat_cnt → c < sb.data_clus_cnt + 2 → entry_sec sb k c < sb.first_data_sec
  entry_sec-below k c hk hc = omega (arith, table_below k hk, in_table c hc, v.layout)
