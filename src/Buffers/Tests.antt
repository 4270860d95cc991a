-- ===== src/Buffers/Tests.antt =====
-- An empty cache, and one that holds one block with unwritten data, in the buffer that is next replaced.
use kernel_travel.Base.{
  ℕ, ◌*◌, ◌≡◌, refl, true, false, List, [], ◌∷◌, arith, ◌==◌, if◌then◌else◌, Returns,
}
use kernel_travel.Buffers.{
  Buffer, Cache, find_cached, find_uncached, buf_init, buf_read, buf_sync, bgroup_num,
  bgroup_buf_num,
}
use kernel_travel.Buffers.View.{view, IsCoherent}
use kernel_travel.Buffers.Read.{Read, buf_read-lost}
use kernel_travel.Buffers.Sync.{Synced, buf_sync-Synced}

abbrev blank : Buffer
blank = record { blockno = 0; dev = 0; valid = false; dirty = false; refcnt = 0; bytes = [] }

abbrev platter : ℕ → List ℕ
platter b = b ∷ []

abbrev fresh : Cache
fresh = buf_init (λ p. blank) platter

-- Block 16389 is of the group of block 5.
abbrev noted : Buffer
noted = record { blockno = 16389; dev = 1; valid = true; dirty = true; refcnt = 0; bytes = 7 ∷ [] }

abbrev loaded : Cache
loaded = record (buf_init (λ p. blank) platter) { buf = λ p. if p == 47 then noted else blank }

loaded-IsCoherent : IsCoherent loaded 1
unfolding buf_init
loaded-IsCoherent = record {
  unique = λ g p q m n d e b. ground (arith, d, e);
  home = λ g h p m n. ground (arith, m, n);
  clean = λ g p m d v k. absurd (ground (arith, d, k));
}

buf_read-lost_example :
    Returns
      (λ r.
        ((r.1.buf r.0).bytes ≡ 7 ∷ []) × (r.1.disk 5 ≡ 7 ∷ []) × (view r.1 1 16389 ≡ 16389 ∷ []))
      (buf_read loaded 1 5 true)
unfolding buf_init find_cached find_uncached
buf_read-lost_example =
    buf_read-lost loaded 1 5 47 loaded-IsCoherent refl refl refl refl refl (λ e. omega (arith, e))
      refl

buf_sync-Synced_example : Synced (bgroup_num * bgroup_buf_num) loaded (buf_sync loaded)
buf_sync-Synced_example = buf_sync-Synced loaded (λ p q h k u v e. ground (arith, u, v))
