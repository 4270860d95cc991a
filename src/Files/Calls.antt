-- ===== src/Files/Calls.antt =====
-- fs/syscall_fs.c: sys_close, sys_dup, sys_dup2 and sys_pipe, and the part of fork that counts the
-- descriptors of the parent once more (userprog/fork.c).
use kernel_travel.Base.{
  ℕ, zero, suc, ◌+◌, ◌-◌, ◌^◌, Bool, true, false, Option, none, some, ltb, ◌==◌, if◌then◌else◌, u32,
  get_elem?, set, replicate, Outcome, ok, fault, ◌>>=◌, ◌>>◌, assert, present, ℤ, pos, negsuc,
}
use kernel_travel.Pipe.{Ioqueue, ioqueue_init, bufsize}
use kernel_travel.Files.{
  Files, max_file_open, max_files_open_per_proc, dev_pipe, minus_one, is_dev, put_fd, put_local,
  count_dirent, get_free_slot_in_global, pcb_fd_install, fd_local2global, file_close, is_pipe,
  file_at,
}

-- memset of a whole ioqueue to 0
abbrev pub zeroed : Ioqueue
zeroed = record {
  flag = false;
  lock = none;
  producer = none;
  consumer = none;
  buf = replicate bufsize 0;
  head = 0;
  tail = 0;
}

-- pipe_table[pid][k]
abbrev pub put_pipe_end : Files → Bool → ℤ → Outcome Files
put_pipe_end fs first fd = do
  (r, w) ← present (get_elem? fs.pipe_table fs.pid)
  ok (record fs { pipe_table = set fs.pipe_table fs.pid (if first then (fd, w) else (r, fd)) })

-- The pipe's branch of sys_close. The offset of the slot counts the open ends.
unfoldable pub close_pipe_end : Files → ℕ → ℕ → Outcome Files
close_pipe_end fs fd g = do
  (r, w) ← present (get_elem? fs.pipe_table fs.pid)
  fs' ← put_pipe_end fs (is_dev r (pos fd)) (pos 0)
  slot ← present (get_elem? fs'.file_table g)
  let open_ends = u32 (slot.offset + 2 ^ 32 - 1)
  ok (
      put_fd fs' g (
        if open_ends == 0
        then record slot { offset = open_ends; pipe = zeroed }
        else record slot { offset = open_ends }))

-- A negative descriptor is out of the model. The result is none for -1.
unfoldable pub sys_close : Files → ℕ → Outcome (Option ℕ × Files)
unfolding fd_local2global is_pipe close_pipe_end file_close
sys_close fs fd =
    if ltb 2 fd
    then (do
      g ← fd_local2global fs fd
      piped ← is_pipe fs fd
      (ret, fs') ←
          (if piped then (do fs' ← close_pipe_end fs fd g; ok (some 0, fs')) else file_close fs g)
      ok (ret, put_local fs' fd minus_one))
    else ok (none, fs)

unfoldable pub sys_dup : Files → ℕ → Outcome (ℕ × Files)
unfolding pcb_fd_install
sys_dup fs oldfd = do g ← present (get_elem? fs.fd_table oldfd); pcb_fd_install fs g

-- The call of file_close takes the number in fd_table for the address of a struct fd.
unfoldable pub sys_dup2 : Files → ℕ → ℕ → Outcome (ℕ × Files)
sys_dup2 fs old_local_fd new_local_fd = do
  new ← present (get_elem? fs.fd_table new_local_fd)
  if ltb old_local_fd 3
      then ok (old_local_fd, put_local fs new_local_fd (pos old_local_fd))
      else (if is_dev new minus_one
          then (do
            old ← present (get_elem? fs.fd_table old_local_fd)
            (g, fd) ← file_at fs old
            let fd' =
                if is_dev fd.dev_type dev_pipe
                then record fd { offset = u32 (fd.offset + 1) }
                else fd
            ok (old_local_fd, put_local (put_fd fs g fd') new_local_fd old))
          else fault)

-- Without a free slot the index is -1.
unfoldable pub sys_pipe : Files → Outcome ((ℕ × ℕ) × Files)
unfolding get_free_slot_in_global pcb_fd_install ioqueue_init
sys_pipe fs = do
  slot ← get_free_slot_in_global fs
  elim slot [
    | none ↦ fault
    | some g ↦ (do
      fd ← present (get_elem? fs.file_table g)
      let made =
          put_fd fs g (record fd { pipe = ioqueue_init fd.pipe; dev_type = dev_pipe; offset = 2 })
      (r, fs₁) ← pcb_fd_install made (pos g)
      (w, fs₂) ← pcb_fd_install fs₁ (pos g)
      fs₃ ← put_pipe_end fs₂ true (pos r)
      fs₄ ← put_pipe_end fs₃ false (pos w)
      ok ((r, w), fs₄))
  ]

-- The loop of update_inode_open_cnts over the `n` descriptors from `local_fd` on.
unfoldable pub open_cnts_loop : Files → ℕ → ℕ → Outcome Files
unfolding is_pipe
open_cnts_loop fs local_fd zero = ok fs
open_cnts_loop fs local_fd (suc n) = do
  global_fd ← present (get_elem? fs.fd_table local_fd)
  fs' ← elim global_fd [
    | negsuc m ↦ (if m == 0 then ok fs else fault)
    | pos g ↦ (do
      assert (ltb g max_file_open)
      fd ← present (get_elem? fs.file_table g)
      piped ← is_pipe fs local_fd
      (if piped
          then ok (put_fd fs g (record fd { offset = u32 (fd.offset + 1) }))
          else elim fd.dirent [ none ↦ fault | some file ↦ ok (count_dirent fs file suc) ]))
  ]
  open_cnts_loop fs' (local_fd + 1) n

unfoldable pub update_inode_open_cnts : Files → Outcome Files
unfolding open_cnts_loop
update_inode_open_cnts fs = open_cnts_loop fs 3 (max_files_open_per_proc - 3)
