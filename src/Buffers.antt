-- ===== src/Buffers.antt =====
-- fs/buf.c: the buffer cache. A buffer is known by its number, that of its group times
-- BGROUP_BUF_NUM plus its place in the group; each group has a list of its buffers, whose end
-- is replaced first, since list_reverse starts there. block_read and block_write copy a block from and to the disk.
pub mod View
pub mod Change
pub mod Read
pub mod Sync
mod Tests
use kernel_travel.Base.{
  ℕ, zero, suc, ◌+◌, ◌-◌, ◌*◌, ◌/◌, ◌%◌, ◌^◌, ◌≤◌, ◌<◌, min, max, bit_and, bit_or, bit_xor, ◌≡◌,
  refl, sym, ap, ◌∙◌, subst, ◌≢◌, ◌↔◌, ◌⊎◌, inl, inr, Bool, true, false, not, ◌&&◌, ◌||◌, Option,
  none, some, List, [], ◌∷◌, ◌++◌, map, arith, ltb, leb, ◌==◌, if◌then◌else◌, u32, u64, ==_iff,
  ltb→lt, lt→ltb, le→ltb, Bool-cases, Option-cases, all_below, all_below_sound, length, get_elem?,
  get_or, set, take, drop, replicate, length-append, length-set, length-replicate,
  get_elem?-eq-get_or, get_elem?-eq-none, get_or-set_self, get_or-set_ne, get_or-replicate, Outcome,
  ok, panic, fault, spin, ◌>>=◌, ◌>>◌, assert, present, Returns, returns, Returns-bind,
  Returns-mono, u32_small, u64_small, bind-eq, bit_or-high, ℤ, pos, negsuc, sub_ℕ,
  get_elem?-set_self, get_elem?-set_ne, get_elem?-in, Returns-result, Returns-assert, if-true,
  if-false, bind_assoc, Returns-ok, assert-true, Returns-after, is_ok, value_or,
}

abbrev pub bgroup_num : ℕ
bgroup_num = 2 ^ 14

abbrev pub bgroup_mask : ℕ
bgroup_mask = bgroup_num - 1

-- PAGE_SIZE / BUF_SIZE
abbrev pub bgroup_buf_num : ℕ
bgroup_buf_num = 8

-- `dev` is an int, as the unsigned number of 64 bits that it is compared as.
pub record Buffer : Type 0 where
  pub blockno : ℕ
  pub dev : ℕ
  pub valid : Bool
  pub dirty : Bool
  pub refcnt : ℕ
  pub bytes : List ℕ

-- The list of each group, all buffers, and the blocks of the disk.
pub record Cache : Type 0 where
  pub list : ℕ → List ℕ
  pub buf : ℕ → Buffer
  pub disk : ℕ → List ℕ

abbrev pub put_buf : (ℕ → Buffer) → ℕ → Buffer → ℕ → Buffer
put_buf buf p v q = if q == p then v else buf q

abbrev pub put_block : (ℕ → List ℕ) → ℕ → List ℕ → ℕ → List ℕ
put_block disk b v c = if c == b then v else disk c

-- The state after bufInit: no buffer has a device. `memory` is what the buffers held.
unfoldable pub buf_init : (ℕ → Buffer) → (ℕ → List ℕ) → Cache
buf_init memory disk = record {
  list = λ g. map (λ j. g * bgroup_buf_num + j) (0 ∷ 1 ∷ 2 ∷ 3 ∷ 4 ∷ 5 ∷ 6 ∷ 7 ∷ []);
  buf = λ p. record (memory p) { dev = 2 ^ 64 - 1 };
  disk = disk;
}

-- The test of check_cached.
abbrev pub check_cached : Buffer → ℕ → ℕ → Bool
check_cached b dev blockno = b.dev == dev && b.blockno == blockno

-- list_traversal with check_cached, and list_reverse with check_uncached: the buffer at which they stop.
unfoldable pub find_cached : List ℕ → (ℕ → Buffer) → ℕ → ℕ → Option ℕ
find_cached [] buf dev blockno = none
find_cached (p ∷ ps) buf dev blockno =
    let rest = find_cached ps buf dev blockno in
    if check_cached (buf p) dev blockno then some p else rest

abbrev pub or_free : Option ℕ → (ℕ → Buffer) → ℕ → Option ℕ
or_free (some q) buf p = some q
or_free none buf p = if (buf p).refcnt == 0 then some p else none

unfoldable pub find_uncached : List ℕ → (ℕ → Buffer) → Option ℕ
find_uncached [] buf = none
find_uncached (p ∷ ps) buf = or_free (find_uncached ps buf) buf p

-- A number stored in an int and compared as an unsigned number of 64 bits.
abbrev pub as_int : ℕ → ℕ
as_int dev = if ltb (u32 dev) (2 ^ 31) then u32 dev else u32 dev + (2 ^ 64 - 2 ^ 32)

-- What check_uncached does to the buffer at which the search stops.
unfoldable pub check_uncached : Cache → ℕ → ℕ → ℕ → Cache
check_uncached c p dev blockno =
    let b = c.buf p in
    record c {
      disk = if b.valid && b.dirty then put_block c.disk blockno b.bytes else c.disk;
      buf = put_buf c.buf p (record b {
        dev = as_int dev;
        blockno = blockno;
        valid = false;
        dirty = false;
        refcnt = 1;
      });
    }

-- The two ends of bufAlloc: a buffer that is cached already, or the one that is replaced; NULL is none.
unfoldable pub alloc_new : Cache → Option ℕ → ℕ → ℕ → Option ℕ × Cache
unfolding check_uncached
alloc_new c none dev blockno = (none, c)
alloc_new c (some p) dev blockno = (some p, check_uncached c p dev blockno)

unfoldable pub alloc_found : Cache → Option ℕ → ℕ → ℕ → Option ℕ × Cache
unfolding find_uncached alloc_new
alloc_found c (some p) dev blockno =
    let b = c.buf p in
    (some p, record c { buf = put_buf c.buf p (record b { refcnt = (b.refcnt + 1) % 2 ^ 16 }) })
alloc_found c none dev blockno =
    alloc_new c (find_uncached (c.list (bit_and blockno bgroup_mask)) c.buf) dev blockno

unfoldable pub buf_alloc : Cache → ℕ → ℕ → Option ℕ × Cache
unfolding find_cached alloc_found
buf_alloc c dev blockno =
    alloc_found c (find_cached (c.list (bit_and blockno bgroup_mask)) c.buf dev blockno) dev blockno

-- The part of bufRead after bufAlloc; the test of the buffer's flag follows NULL too.
unfoldable pub fill : Option ℕ × Cache → ℕ → Bool → Outcome (ℕ × Cache)
fill (none, c) blockno is_read = fault
fill (some p, c) blockno is_read =
    let b = c.buf p in
    if b.valid
    then ok (p, c)
    else ok (
      p,
      record c {
        buf =
            put_buf c.buf p
              (record b { bytes = if is_read then c.disk blockno else b.bytes; valid = true });
      },
    )

unfoldable pub buf_read : Cache → ℕ → ℕ → Bool → Outcome (ℕ × Cache)
unfolding buf_alloc fill
buf_read c dev blockno is_read = fill (buf_alloc c dev blockno) blockno is_read

unfoldable pub buf_write : Cache → ℕ → Cache
buf_write c p = record c { buf = put_buf c.buf p (record (c.buf p) { dirty = true }) }

-- list_remove, on the sequence of the elements.
abbrev pub remove : ℕ → List ℕ → List ℕ
remove p [] = []
remove p (q ∷ qs) = if q == p then qs else q ∷ remove p qs

unfoldable pub buf_release : Cache → ℕ → Cache
buf_release c p =
    let b = c.buf p in
    let count = (b.refcnt + 2 ^ 16 - 1) % 2 ^ 16 in
    let group = bit_and b.blockno bgroup_mask in
    record c {
      buf = put_buf c.buf p (record b { refcnt = count });
      list =
          if count == 0
          then (λ g. if g == group then remove p (c.list g) ++ p ∷ [] else remove p (c.list g))
          else c.list;
    }

-- The body of the loops of bufSync, and the loops over the buffers below a number.
unfoldable pub sync_one : Cache → ℕ → Cache
sync_one c p =
    let b = c.buf p in
    if b.valid && b.dirty
    then record c {
      disk = put_block c.disk b.blockno b.bytes;
      buf = put_buf c.buf p (record b { dirty = false });
    }
    else c

unfoldable pub sync_loop : ℕ → Cache → Cache
unfolding sync_one
sync_loop zero c = c
sync_loop (suc n) c = sync_one (sync_loop n c) n

unfoldable pub buf_sync : Cache → Cache
unfolding sync_loop
buf_sync c = sync_loop (bgroup_num * bgroup_buf_num) c
