-- ===== src/Cluster/RoundTrip.antt =====
-- fs/fat32/cluster.c: what clusterWrite has written clusterRead reads.
use kernel_travel.Base.{
  ℕ, zero, suc, ◌+◌, ◌-◌, ◌/◌, ◌%◌, ◌^◌, ◌≤◌, ◌<◌, ◌≡◌, refl, sym, ap, ◌∙◌, subst, ◌⊎◌, inl, inr,
  true, false, ◌&&◌, List, [], ◌∷◌, ◌++◌, arith, leb, ◌==◌, if◌then◌else◌, u64, length, get_or,
  take, drop, Outcome, ok, fault, ◌>>=◌, Returns, returns, Returns-mono, u64_small, if-true,
  if-false,
}
use native.Mathlib.Nat.{mod-lt}
use kernel_travel.Cluster.{SuperBlock, Disk, buf_size, put_sector, cluster_sec}
use kernel_travel.Cluster.Table.{IsVolume}
use kernel_travel.Cluster.Data.{
  bytes_at, with_bytes, step_len, read_sectors, write_sectors, cluster_read, cluster_write,
}

take-drop : (k : ℕ) (src : List ℕ) → take k src ++ drop k src ≡ src
take-drop zero src = refl
take-drop (suc k) [] = refl
take-drop (suc k) (x ∷ xs) = ap (◌∷◌ x) (take-drop k xs)

length-drop : (k : ℕ) (src : List ℕ) → k ≤ length src → length (drop k src) + k ≡ length src
length-drop zero src h = omega arith
length-drop (suc k) [] h = absurd (omega (arith, h))
length-drop (suc k) (x ∷ xs) h = omega (arith, length-drop k xs (omega (arith, h)))

bytes_at-take :
    (f : ℕ → ℕ) (off k : ℕ) (src : List ℕ)
    → k ≤ length src
    → ((i : ℕ) → i < k → f (off + i) ≡ get_or src i 0)
    → bytes_at f off k ≡ take k src
bytes_at-take f off zero src h same = refl
bytes_at-take f off (suc k) [] h same = absurd (omega (arith, h))
bytes_at-take f off (suc k) (x ∷ xs) h same =
    let first : off ≡ off + 0 = omega arith in
    let head = ap f first ∙ same 0 (omega arith) in
    let tail = bytes_at-take f (off + 1) k xs (omega (arith, h)) (λ i l.
      let next : off + 1 + i ≡ off + suc i = omega arith in
      ap f next ∙ same (suc i) (omega (arith, l))) in
    ap (λ b. b ∷ bytes_at f (off + 1) k) head ∙ ap (◌∷◌ x) tail

-- The sector with the bytes from `off` on reads as these bytes.
bytes_at-with_bytes :
    (bytes : ℕ → ℕ) (off len : ℕ) (src : List ℕ)
    → len ≤ length src
    → bytes_at (with_bytes bytes off len src) off len ≡ take len src
bytes_at-with_bytes bytes off len src h =
    bytes_at-take (with_bytes bytes off len src) off len src h (λ i l.
      let back : off + i - off ≡ i = omega arith in
      ground (arith, ap (λ j. get_or src j 0) back, l))

-- The `left` bytes from `off` of sector `s` on are the list; no sector before, and none that is `left` or more
-- behind, has changed, and no byte before `off` in the first.
pub record Stored (sb : SuperBlock) (fuel : ℕ) (disk : Disk) (s off : ℕ) (src : List ℕ)
    (disk' : Disk) : Type 0 where
  pub reads : read_sectors fuel sb disk' s off (length src) ≡ ok src
  pub before : (t : ℕ) → t < s → disk' t ≡ disk t
  pub behind : (t : ℕ) → s + length src ≤ t → disk' t ≡ disk t
  pub head : (j : ℕ) → j < off → disk' s j ≡ disk s j

module _ {sb : SuperBlock} (v : IsVolume sb) where
  -- A round of the loop of clusterRead, with the length of the part that it reads.
  abbrev round : ℕ → ℕ → ℕ → Disk → List ℕ → ℕ → ℕ → Outcome (List ℕ)
  round fuel s off disk src next len =
      if leb (off + len) buf_size
      then (do
        rest ← read_sectors fuel sb disk next 0 (length src - len)
        ok (bytes_at (disk s) off len ++ rest))
      else fault

  -- One sector written, and the rest behind it.
  Stored-step :
      (fuel s off len : ℕ) (disk disk' : Disk) (src : List ℕ)
      → off < sb.bytes_per_sec
      → len ≡ step_len sb off (length src)
      → 1 ≤ length src
      → s + 1 < 2 ^ 64
      → Stored sb fuel
          (put_sector disk s (with_bytes (disk s) off len src))
          (s + 1)
          0
          (drop len src)
          disk'
      → Stored sb (suc fuel) disk s off src disk'
  unfolding read_sectors
  Stored-step fuel s off len disk disk' src inside is_len some_left no_wrap st =
      let w = with_bytes (disk s) off len src in
      let short : len ≤ length src = omega (arith, is_len) in
      let positive : 1 ≤ len = omega (arith, is_len, inside, some_left) in
      let shorter = length-drop len src short in
      let more : (length src == 0) ≡ false = ground (arith, some_left) in
      let fits : leb (off + len) buf_size ≡ true = ground (arith, is_len, inside, v.sector_fits) in
      let next : u64 (s + 1) ≡ s + 1 = omega (arith, no_wrap) in
      let here : disk' s ≡ w = st.before s (omega arith) ∙ ground arith in
      record {
        reads =
            if-false _ _ more
            ∙ ap (round fuel s off disk' src (u64 (s + 1))) (sym is_len)
            ∙ if-true _ _ fits
            ∙ ap
                (λ k. do
                  rest ← read_sectors fuel sb disk' k 0 (length src - len)
                  ok (bytes_at (disk' s) off len ++ rest))
                next
            ∙ ap
                (λ m. do
                  rest ← read_sectors fuel sb disk' (s + 1) 0 m
                  ok (bytes_at (disk' s) off len ++ rest))
                (omega (arith, shorter))
            ∙ ap (λ o. do rest ← o; ok (bytes_at (disk' s) off len ++ rest)) st.reads
            ∙ ap (λ f. ok (bytes_at f off len ++ drop len src)) here
            ∙ ap (λ b. ok (b ++ drop len src)) (bytes_at-with_bytes (disk s) off len src short)
            ∙ ap ok (take-drop len src);
        before = λ t l. st.before t (omega (arith, l)) ∙ ground (arith, l);
        behind =
            λ t l. st.behind t (omega (arith, l, shorter, positive)) ∙ ground (arith, l, some_left);
        head = λ j l. ap (λ f. f j) here ∙ ground (arith, l);
      }

  write_sectors-Stored :
      (fuel : ℕ) (disk : Disk) (s off : ℕ) (src : List ℕ)
      → off < sb.bytes_per_sec
      → length src ≤ fuel
      → s + length src < 2 ^ 64
      → Returns (Stored sb fuel disk s off src) (write_sectors fuel sb disk s off src (length src))
  unfolding write_sectors read_sectors
  write_sectors-Stored zero disk s off [] inside enough small =
      returns
        (record { reads = refl; before = λ t l. refl; behind = λ t l. refl; head = λ j l. refl })
  write_sectors-Stored zero disk s off (x ∷ xs) inside enough small = absurd (omega (arith, enough))
  write_sectors-Stored (suc fuel) disk s off [] inside enough small =
      returns
        (record { reads = refl; before = λ t l. refl; behind = λ t l. refl; head = λ j l. refl })
  write_sectors-Stored (suc fuel) disk s off (x ∷ xs) inside enough small =
      let src = x ∷ xs in
      let len = step_len sb off (length src) in
      let short : len ≤ length src = omega arith in
      let positive : 1 ≤ len = omega (arith, inside) in
      let shorter = length-drop len src short in
      let fits : (leb (off + len) buf_size && leb len (length src)) ≡ true =
        ground (arith, inside, v.sector_fits) in
      let next : u64 (s + 1) ≡ s + 1 = omega (arith, small) in
      let left : length src - len ≡ length (drop len src) = omega (arith, shorter) in
      let disk₁ = put_sector disk s (with_bytes (disk s) off len src) in
      let more : (length src == 0) ≡ false = ground arith in
      let run =
        if-false _ _ more
        ∙ if-true _ _ fits
        ∙ ap (λ k. write_sectors fuel sb disk₁ k 0 (drop len src) (length src - len)) next
        ∙ ap (write_sectors fuel sb disk₁ (s + 1) 0 (drop len src)) left in
      subst (Returns _) (sym run) (
        Returns-mono
          (write_sectors-Stored fuel disk₁ (s + 1) 0 (drop len src) v.sector_pos
            (omega (arith, shorter, positive, enough)) (omega (arith, shorter, positive, small)))
          (λ disk' st.
            Stored-step fuel s off len disk disk' src inside refl (omega arith)
              (omega (arith, small)) st))

  -- What holds after a write of the bytes.
  abbrev pub ReadsBack : Disk → ℕ → ℕ → List ℕ → Disk → Type 0
  ReadsBack disk cluster offset src disk' =
      let s = cluster_sec sb cluster + offset / sb.bytes_per_sec in
      (cluster_read sb disk' cluster offset (length src) ≡ ok src)
      × ((t : ℕ) → (t < s) ⊎ (s + length src ≤ t) → disk' t ≡ disk t)
      × ((j : ℕ) → j < offset % sb.bytes_per_sec → disk' s j ≡ disk s j)

  -- clusterWrite of bytes, on a volume whose sectors fit the buffers, with sector numbers that do not wrap, ends
  -- well: clusterRead at the same place returns the bytes then; no sector before that of the offset has changed,
  -- none that is as many sectors behind it as there are bytes, and no byte before the offset in it.
  pub cluster_write-cluster_read :
      (disk : Disk) (cluster offset : ℕ) (src : List ℕ)
      → cluster_sec sb cluster + offset / sb.bytes_per_sec + length src < 2 ^ 64
      → Returns
          (ReadsBack disk cluster offset src)
          (cluster_write sb disk cluster offset src (length src))
  unfolding cluster_write cluster_read
  cluster_write-cluster_read disk cluster offset src small =
      let s = cluster_sec sb cluster + offset / sb.bytes_per_sec in
      let off = offset % sb.bytes_per_sec in
      let at : u64 s ≡ s = u64_small s (omega (arith, small)) in
      let inside : off < sb.bytes_per_sec = mod-lt offset v.sector_pos in
      subst
        (λ k.
          Returns (ReadsBack disk cluster offset src)
            (write_sectors (length src) sb disk k off src (length src)))
        (sym at)
        (Returns-mono (write_sectors-Stored (length src) disk s off src inside (omega arith) small)
          (λ disk' st. (
            ap (λ k. read_sectors (length src) sb disk' k off (length src)) at ∙ st.reads,
            (λ t out. elim out [ inl l ↦ st.before t l | inr l ↦ st.behind t l ]),
            st.head,
          )))
