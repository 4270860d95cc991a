-- ===== src/Files/Tests.antt =====
-- Empty tables.

use kernel_travel.Base.{
  ◌≡◌, refl, none, some, [], arith, replicate, length-replicate, ok, ◌>>=◌, Returns, pos,
}
use kernel_travel.Base.{pos}
use kernel_travel.Base.{
  ◌≡◌, refl, none, some, [], arith, replicate, length-replicate, ok, ◌>>=◌, Returns, pos,
}
use kernel_travel.Base.{pos}
use kernel_travel.Files.{
  Fd, Files, minus_one, max_file_open, max_files_open_per_proc, file_open, get_free_slot_in_global,
}
use kernel_travel.Files.Calls.{zeroed}
use kernel_travel.Files.Slots.{IsFiles, First, FreeSlot, get_free_slot_in_global-First}
use kernel_travel.Files.Open.{Opened, file_open-Opened}

abbrev unused : Fd
unused = record {
  dirent = none;
  pipe = zeroed;
  dev_type = pos 0;
  offset = 0;
  flags = 0;
  st_mode = 0;
  refcnt = 0;
}

abbrev fs : Files
fs = record {
  file_table = replicate max_file_open unused;
  pipe_table = [];
  fd_table = replicate max_files_open_per_proc minus_one;
  pid = 1;
  dirent_refcnt = λ d. 0;
}

fs-IsFiles : IsFiles fs
fs-IsFiles = record {
  global_size = length-replicate max_file_open unused;
  local_size = length-replicate max_files_open_per_proc minus_one;
}

get_free_slot_in_global-First_example :
    Returns (First (FreeSlot fs) 3 max_file_open) (get_free_slot_in_global fs)
get_free_slot_in_global-First_example = get_free_slot_in_global-First fs-IsFiles

file_open-Opened_example : Returns (Opened fs 42) (file_open (λ f. ok tt) fs 42 1 0)
file_open-Opened_example = file_open-Opened fs-IsFiles 42 1 0 (λ f. ok tt) refl
