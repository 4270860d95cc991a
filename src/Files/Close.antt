-- ===== src/Files/Close.antt =====
-- fs/fd.c: file_close of a file that file_open has opened.
use kernel_travel.Base.{ℕ, ◌≡◌, ◌∙◌, some, get_elem?, length-set}
use kernel_travel.Files.{Fd, Files, put_fd}
use kernel_travel.Files.Slots.{IsFiles}

-- Slot `g` holds the file.
abbrev pub Holds : Files → ℕ → ℕ → Type 0
Holds fs g file = (fd : Fd) × (get_elem? fs.file_table g ≡ some fd) × (fd.dirent ≡ some file)

pub IsFiles-put_fd : {fs : Files} (v : IsFiles fs) (g : ℕ) (fd : Fd) → IsFiles (put_fd fs g fd)
IsFiles-put_fd {fs} v g fd = record {
  global_size = length-set fs.file_table g fd ∙ v.global_size;
  local_size = v.local_size;
}
