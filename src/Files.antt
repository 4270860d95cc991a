-- ===== src/Files.antt =====
-- fs/fd.c and the system calls of fs/syscall_fs.c on descriptors: the table of open files and the
-- descriptors of the running process. A Dirent is a number, NULL is none. What a file system does itself
-- (its file_init, file_create) is outside the state: file_init is a parameter that only says whether the call
-- returns, the new file of file_create is an argument. A lock
-- is not shown.
pub mod Calls
pub mod Slots
pub mod Close
pub mod Open
pub mod Seek
mod Tests
use kernel_travel.Base.{
  ℕ, zero, suc, ◌+◌, ◌-◌, ◌*◌, ◌/◌, ◌%◌, ◌^◌, ◌≤◌, ◌<◌, min, max, bit_and, bit_or, bit_xor, ◌≡◌,
  refl, sym, ap, ◌∙◌, subst, ◌≢◌, ◌↔◌, ◌⊎◌, inl, inr, Bool, true, false, not, ◌&&◌, ◌||◌, Option,
  none, some, List, [], ◌∷◌, ◌++◌, map, arith, ltb, leb, ◌==◌, if◌then◌else◌, u32, u64, ==_iff,
  ltb→lt, lt→ltb, le→ltb, Bool-cases, Option-cases, all_below, all_below_sound, length, get_elem?,
  get_or, set, take, drop, replicate, length-append, length-set, length-replicate,
  get_elem?-eq-get_or, get_elem?-eq-none, get_or-set_self, get_or-set_ne, get_or-replicate, Outcome,
  ok, panic, fault, spin, ◌>>=◌, ◌>>◌, assert, present, Returns, returns, Returns-bind,
  Returns-mono, u32_small, u64_small, bind-eq, bit_or-high, ℤ, pos, negsuc, sub_ℕ,
}
use kernel_travel.Pipe.{Ioqueue}

abbrev pub max_file_open : ℕ
max_file_open = 64

abbrev pub max_files_open_per_proc : ℕ
max_files_open_per_proc = 101

abbrev pub dev_file : ℤ
dev_file = pos 1

abbrev pub dev_pipe : ℤ
dev_pipe = pos 2

abbrev pub minus_one : ℤ
minus_one = negsuc 0

-- `struct fd`; of its stat only st_mode.
pub record Fd : Type 0 where
  pub dirent : Option ℕ
  pub pipe : Ioqueue
  pub dev_type : ℤ
  pub offset : ℕ
  pub flags : ℕ
  pub st_mode : ℕ
  pub refcnt : ℕ

-- The global tables, the descriptors and the pid of the running thread, and the counts of the Dirents.
pub record Files : Type 0 where
  pub file_table : List Fd
  pub pipe_table : List (ℤ × ℤ)
  pub fd_table : List ℤ
  pub pid : ℕ
  pub dirent_refcnt : ℕ → ℕ

abbrev pub is_dev : ℤ → ℤ → Bool
is_dev (pos m) (pos n) = m == n
is_dev (negsuc m) (negsuc n) = m == n
is_dev (pos m) (negsuc n) = false
is_dev (negsuc m) (pos n) = false

abbrev pub is_dirent : Option ℕ → ℕ → Bool
is_dirent none file = false
is_dirent (some d) file = d == file

abbrev pub is_null : Option ℕ → Bool
is_null none = true
is_null (some d) = false

abbrev pub put_fd : Files → ℕ → Fd → Files
put_fd fs i fd = record fs { file_table = set fs.file_table i fd }

abbrev pub put_local : Files → ℕ → ℤ → Files
put_local fs i g = record fs { fd_table = set fs.fd_table i g }

abbrev pub count_dirent : Files → ℕ → (ℕ → ℕ) → Files
count_dirent fs file change = record fs {
  dirent_refcnt =
      λ d. if d == file then change (fs.dirent_refcnt d) % 2 ^ 16 else fs.dirent_refcnt d;
}

-- The loop of get_free_slot_in_global over the `n` slots from `fd_idx` on.
unfoldable pub free_slot_loop : List Fd → ℕ → ℕ → Outcome (Option ℕ)
free_slot_loop table fd_idx zero = ok none
free_slot_loop table fd_idx (suc n) = do
  fd ← present (get_elem? table fd_idx)
  let rest = free_slot_loop table (fd_idx + 1) n
  (if is_dev fd.dev_type dev_pipe
      then rest
      else if is_null fd.dirent
      then ok (some fd_idx)
      else rest)

-- none for -1
unfoldable pub get_free_slot_in_global : Files → Outcome (Option ℕ)
unfolding free_slot_loop
get_free_slot_in_global fs = free_slot_loop fs.file_table 3 (max_file_open - 3)

-- The loop of pcb_fd_install over the `n` descriptors from `local_fd_idx` on.
unfoldable pub free_local_loop : List ℤ → ℕ → ℕ → Outcome (Option ℕ)
free_local_loop table local_fd_idx zero = ok none
free_local_loop table local_fd_idx (suc n) = do
  g ← present (get_elem? table local_fd_idx)
  let rest = free_local_loop table (local_fd_idx + 1) n
  (if is_dev g minus_one then ok (some local_fd_idx) else rest)

-- file_table[g] for an int g
abbrev pub file_at : Files → ℤ → Outcome (ℕ × Fd)
file_at fs (negsuc n) = fault
file_at fs (pos g) = do fd ← present (get_elem? fs.file_table g); ok (g, fd)

-- What pcb_fd_install does with the descriptor found.
unfoldable pub install_in : Files → ℤ → Option ℕ → Outcome (ℕ × Files)
install_in fs globa_fd_idx none = ok (0, fs)
install_in fs globa_fd_idx (some local_fd_idx) = do
  (g, fd) ← file_at fs globa_fd_idx
  ok (
    local_fd_idx,
    put_fd (put_local fs local_fd_idx globa_fd_idx) g (record fd { refcnt = u32 (fd.refcnt + 1) }),
  )

unfoldable pub pcb_fd_install : Files → ℤ → Outcome (ℕ × Files)
unfolding free_local_loop install_in
pcb_fd_install fs globa_fd_idx = do
  slot ← free_local_loop fs.fd_table 3 (max_files_open_per_proc - 3)
  install_in fs globa_fd_idx slot

unfoldable pub fd_local2global : Files → ℕ → Outcome ℕ
fd_local2global fs local_fd = do
  global_fd ← present (get_elem? fs.fd_table local_fd)
  elim global_fd [ pos g ↦ (do assert (ltb g max_file_open); ok g) | negsuc n ↦ panic ]

-- The first loop of file_open: the slot in which the file is open.
unfoldable pub open_slot_loop : List Fd → ℕ → ℕ → ℕ → Outcome (Option ℕ)
open_slot_loop table file i zero = ok none
open_slot_loop table file i (suc n) = do
  fd ← present (get_elem? table i)
  let rest = open_slot_loop table file (i + 1) n
  (if is_dirent fd.dirent file then ok (some i) else rest)

-- file_open of a file that is not open yet, in the slot that was found for it.
unfoldable pub open_in_slot : Files → ℕ → ℕ → ℕ → ℕ → Outcome (ℕ × Files)
unfolding pcb_fd_install
open_in_slot fs file flag mode fd_idx = do
  fd ← present (get_elem? fs.file_table fd_idx)
  let opened = record fd {
    dirent = some file;
    offset = 0;
    flags = flag;
    st_mode = mode;
    dev_type = dev_file;
    refcnt = 1;
  }
  pcb_fd_install (put_fd (count_dirent fs file suc) fd_idx opened) (pos fd_idx)

-- file_open of a file that is open in a slot already.
unfoldable pub reopen : Files → ℕ → Outcome (ℕ × Files)
unfolding pcb_fd_install
reopen fs i = do
  fd ← present (get_elem? fs.file_table i)
  pcb_fd_install (put_fd fs i (record fd { refcnt = u32 (fd.refcnt + 1) })) (pos i)

-- file_open with the free slot that was found: the descriptor, or none for -1. `file_init` is the call
-- of op->file_init; its state is not part of the tables, so that it may stand before the writes to them.
unfoldable pub open_new :
    (ℕ → Outcome (Unit {0})) → Files → ℕ → ℕ → ℕ → Option ℕ → Outcome (Option ℕ × Files)
unfolding open_in_slot
open_new file_init fs file flag mode none = ok (none, fs)
open_new file_init fs file flag mode (some fd_idx) = do
  _ ← file_init file
  r ← open_in_slot fs file flag mode fd_idx
  ok (some r.0, r.1)

-- file_open after the search for a slot in which the file is open.
unfoldable pub open_found :
    (ℕ → Outcome (Unit {0})) → Files → ℕ → ℕ → ℕ → Option ℕ → Outcome (Option ℕ × Files)
unfolding get_free_slot_in_global reopen open_new
open_found file_init fs file flag mode (some i) = do r ← reopen fs i; ok (some r.0, r.1)
open_found file_init fs file flag mode none = do
  slot ← get_free_slot_in_global fs
  open_new file_init fs file flag mode slot

unfoldable pub file_open : (ℕ → Outcome (Unit {0})) → Files → ℕ → ℕ → ℕ → Outcome (Option ℕ × Files)
unfolding open_slot_loop open_found
file_open file_init fs file flag mode = do
  already ← open_slot_loop fs.file_table file 0 max_file_open
  open_found file_init fs file flag mode already

-- Without a free slot the index is -1 and the writes go before the table.
unfoldable pub file_create : Files → ℕ → ℕ → ℕ → Outcome (ℕ × Files)
unfolding get_free_slot_in_global pcb_fd_install
file_create fs file flag mode = do
  slot ← get_free_slot_in_global fs
  elim slot [
    | none ↦ fault
    | some fd_idx ↦ (do
      fd ← present (get_elem? fs.file_table fd_idx)
      let created = record fd {
        dirent = some file;
        offset = 0;
        flags = flag;
        st_mode = mode;
        dev_type = dev_file;
      }
      pcb_fd_install (put_fd fs fd_idx created) (pos fd_idx))
  ]

-- The int returned and the tables; an int that is -1 is none.
unfoldable pub file_close : Files → ℕ → Outcome (Option ℕ × Files)
file_close fs g = do
  fd ← present (get_elem? fs.file_table g)
  elim fd.dirent [
    | none ↦ ok (none, fs)
    | some file ↦
        (let refcnt' = u32 (fd.refcnt + 2 ^ 32 - 1) in
          if refcnt' == 0
          then ok (
            some 0,
            put_fd (count_dirent fs file (λ n. n + 2 ^ 16 - 1)) g (record fd {
              dirent = none;
              offset = 2 ^ 32 - 1;
              dev_type = minus_one;
              refcnt = 0;
            }),
          )
          else ok (some 0, put_fd fs g (record fd { refcnt = refcnt' })))
  ]

unfoldable pub is_pipe : Files → ℕ → Outcome Bool
unfolding fd_local2global
is_pipe fs local_fd = do
  g ← fd_local2global fs local_fd
  fd ← present (get_elem? fs.file_table g)
  ok (is_dev fd.dev_type dev_pipe)
