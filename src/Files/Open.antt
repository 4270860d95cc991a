-- ===== src/Files/Open.antt =====
-- fs/fd.c, file_open: the descriptor returned leads to a slot that holds the file.
use kernel_travel.Base.{
  ℕ, zero, suc, ◌+◌, ◌≤◌, ◌<◌, ◌≡◌, refl, sym, ap, subst, ◌⊎◌, inl, inr, true, Option, none, some,
  arith, u32, lt→ltb, Bool-cases, length, get_elem?, set, Outcome, ok, Returns, returns,
  Returns-bind, Returns-mono, pos, get_elem?-set_self, get_elem?-in, Returns-after,
}
use kernel_travel.Base.{Outcome}
use kernel_travel.Files.{
  Fd, Files, max_file_open, max_files_open_per_proc, is_dirent, count_dirent, fd_local2global,
  open_slot_loop, reopen, open_in_slot, open_new, open_found, file_open,
}
use kernel_travel.Files.Slots.{
  IsFiles, FreeSlot, First, found, absent, FreeLocal, Installed, pcb_fd_install-Installed,
  get_free_slot_in_global-First,
}
use kernel_travel.Files.Close.{Holds, IsFiles-put_fd}

-- Descriptor `i` leads to a slot that holds the file.
pub record LeadsTo (fs : Files) (i file : ℕ) : Type 0 where
  pub slot : ℕ
  pub global : fd_local2global fs i ≡ ok slot
  pub holds : Holds fs slot file

-- The first free descriptor from 3 on, which leads to the file now; or 0 if every descriptor was taken.
abbrev pub InOrFull : Files → ℕ → ℕ × Files → Type 0
InOrFull fs file (i, fs') =
    ((i ≡ 0) × ((j : ℕ) → 3 ≤ j → j < max_files_open_per_proc → ¬ FreeLocal fs j))
    ⊎ ((3 ≤ i)
        × (i < max_files_open_per_proc)
        × FreeLocal fs i
        × ((j : ℕ) → 3 ≤ j → j < i → ¬ FreeLocal fs j)
        × LeadsTo fs' i file)

-- What file_open returns: that, or -1 if every slot was taken.
abbrev pub Opened : Files → ℕ → Option ℕ × Files → Type 0
Opened fs file (none, fs') = (fs' ≡ fs) × ((g : ℕ) → 3 ≤ g → g < max_file_open → ¬ FreeSlot fs g)
Opened fs file (some i, fs') = InOrFull fs file (i, fs')

-- What an installation of slot `g`, which holds the file, comes to: 0 where no descriptor is free.
Installed-LeadsTo :
    (fs : Files) (g file : ℕ) (fd : Fd) (r : ℕ × Files)
    → IsFiles fs
    → g < max_file_open
    → fd.dirent ≡ some file
    → Installed fs g fd r
    → InOrFull fs file r
unfolding Installed fd_local2global
Installed-LeadsTo fs g file fd r v hg held (inr (z, _, no_free)) = inl (z, no_free)
Installed-LeadsTo fs g file fd r v hg held (inl (lo, hi, free, before, e)) =
    let counted : Fd = record fd { refcnt = u32 (fd.refcnt + 1) } in
    let at : get_elem? (set fs.fd_table r.0 (pos g)) r.0 ≡ some (pos g) =
      get_elem?-set_self fs.fd_table r.0 (pos g) (omega (arith, v.local_size, hi)) in
    let at' : get_elem? (set fs.file_table g counted) g ≡ some counted =
      get_elem?-set_self fs.file_table g counted (omega (arith, v.global_size, hg)) in
    inr (
      lo,
      hi,
      free,
      before,
      subst (λ fs'. LeadsTo fs' r.0 file) (sym e)
          (record {
            slot = g;
            global = rw (at, lt→ltb g max_file_open hg) refl;
            holds = (counted, at', held);
          }),
    )

module _ {fs : Files} (v : IsFiles fs) (file flag mode : ℕ) (file_init : ℕ → Outcome (Unit {0}))
    (inits : file_init file ≡ ok tt) where
  counted-IsFiles : IsFiles (count_dirent fs file suc)
  counted-IsFiles = record { global_size = v.global_size; local_size = v.local_size }

  open_in_slot-InOrFull :
      (g : ℕ) → g < max_file_open → Returns (InOrFull fs file) (open_in_slot fs file flag mode g)
  unfolding open_in_slot
  open_in_slot-InOrFull g hg =
      let size : g < length fs.file_table = rw v.global_size hg in
      let (fd, at) = get_elem?-in fs.file_table g size in
      rw at (
        Returns-mono
          (pcb_fd_install-Installed (IsFiles-put_fd counted-IsFiles g _) g _
            (get_elem?-set_self fs.file_table g _ size))
          λ r inst.
            Installed-LeadsTo _ g file _ r (IsFiles-put_fd counted-IsFiles g _) hg refl inst)

  open_new-Opened :
      {slot : Option ℕ}
      → First (FreeSlot fs) 3 max_file_open slot
      → Returns (Opened fs file) (open_new file_init fs file flag mode slot)
  unfolding open_new
  open_new-Opened (found {i = g} lo hi free before) =
      Returns-after _ inits (Returns-bind (open_in_slot-InOrFull g hi) λ r opened. returns opened)
  open_new-Opened (absent none_free) = returns (refl, none_free)

  reopen-InOrFull :
      (g : ℕ) → g < max_file_open → Holds fs g file → Returns (InOrFull fs file) (reopen fs g)
  unfolding reopen
  reopen-InOrFull g hg (fd, at, held) =
      let size : g < length fs.file_table = rw v.global_size hg in
      rw at (
        Returns-mono
          (pcb_fd_install-Installed (IsFiles-put_fd v g _) g _
            (get_elem?-set_self fs.file_table g _ size))
          λ r inst. Installed-LeadsTo _ g file _ r (IsFiles-put_fd v g _) hg held inst)

  -- the slot found holds the file
  abbrev IsOpen : Option ℕ → Type 0
  IsOpen none = Unit
  IsOpen (some g) = (g < max_file_open) × Holds fs g file

  is_dirent-some : (d : Option ℕ) → is_dirent d file ≡ true → d ≡ some file
  is_dirent-some none h = absurd (ground (arith, h))
  is_dirent-some (some d) h = ap some (ground (arith, h))

  open_slot_loop-IsOpen :
      (n i : ℕ) → i + n ≡ max_file_open → Returns IsOpen (open_slot_loop fs.file_table file i n)
  unfolding open_slot_loop
  open_slot_loop-IsOpen zero i h = returns tt
  open_slot_loop-IsOpen (suc n) i h =
      let (fd, at) = get_elem?-in fs.file_table i (omega (arith, h, v.global_size)) in
      elim (Bool-cases (is_dirent fd.dirent file)) [
        | inl e ↦ rw (at, e) (returns (omega (arith, h), (fd, at, is_dirent-some fd.dirent e)))
        | inr e ↦ rw (at, e) (open_slot_loop-IsOpen n (i + 1) (omega (arith, h)))
      ]

  open_found-Opened :
      (already : Option ℕ)
      → IsOpen already
      → Returns (Opened fs file) (open_found file_init fs file flag mode already)
  unfolding open_found
  open_found-Opened none _ =
      Returns-bind (get_free_slot_in_global-First v) λ slot f. open_new-Opened f
  open_found-Opened (some g) (hg, held) =
      Returns-bind (reopen-InOrFull g hg held) λ r opened. returns opened

  -- Where the call of op->file_init for the file returns, file_open ends well. It returns the first free
  -- descriptor from 3 on, which leads, by fd_local2global, to a slot that holds the file then; or 0 if every
  -- descriptor was taken; or -1, with nothing changed, only if every slot was taken.
  pub file_open-Opened : Returns (Opened fs file) (file_open file_init fs file flag mode)
  unfolding file_open
  file_open-Opened =
      Returns-bind (open_slot_loop-IsOpen max_file_open 0 refl)
        λ already is. open_found-Opened already is
