-- ===== src/Files/Seek.antt =====
-- fs/syscall_fs.c, sys_lseek. The size of the file is an argument; an overflow of an int is outside the model.
use kernel_travel.Base.{
  ℕ, ◌+◌, ◌&&◌, Option, none, some, ltb, ◌==◌, if◌then◌else◌, get_elem?, Outcome, ok, ◌>>=◌, ◌>>◌,
  assert, present, ℤ, pos, negsuc, sub_ℕ,
}
use kernel_travel.Files.{Files, fd_local2global, put_fd}

abbrev pub plus : ℕ → ℤ → ℤ
plus a (pos n) = pos (a + n)
plus a (negsuc n) = sub_ℕ a (n + 1)

-- `new_pos < 0 || new_pos > file_size - 1`, as the offset where the test fails
abbrev pub inside : ℤ → ℕ → Option ℕ
inside (pos n) file_size = if ltb n file_size then some n else none
inside (negsuc n) file_size = none

abbrev pub new_position : ℕ → ℤ → ℕ → ℕ → ℤ
new_position old offset whence file_size =
    if whence == 1 then offset else if whence == 2 then plus old offset else plus file_size offset

-- A negative descriptor is outside the model; none is -1.
unfoldable pub sys_lseek : Files → ℕ → ℤ → ℕ → ℕ → Outcome (Option ℕ × Files)
unfolding fd_local2global
sys_lseek fs fd offset whence file_size = do
  assert (ltb 0 whence && ltb whence 4)
  g ← fd_local2global fs fd
  slot ← present (get_elem? fs.file_table g)
  _ ← present slot.dirent
  elim (inside (new_position slot.offset offset whence file_size) file_size) [
    | none ↦ ok (none, fs)
    | some new_pos ↦ ok (some new_pos, put_fd fs g (record slot { offset = new_pos }))
  ]
