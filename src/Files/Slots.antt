-- ===== src/Files/Slots.antt =====
-- fs/fd.c: which slot and which descriptor an open file gets, and what closing it gives back.
use kernel_travel.Base.{
  ℕ, zero, suc, ◌+◌, ◌-◌, ◌≤◌, ◌<◌, ◌≡◌, refl, sym, ap, ◌∙◌, subst, ◌⊎◌, inl, inr, true, false,
  Option, none, some, arith, ◌==◌, u32, ==_iff, Bool-cases, Option-cases, length, get_elem?,
  Returns, returns, Returns-bind, Returns-mono, ℤ, pos, negsuc, get_elem?-in,
}
use kernel_travel.Files.{
  Fd, Files, max_file_open, max_files_open_per_proc, dev_pipe, minus_one, is_dev, is_null, put_fd,
  put_local, free_slot_loop, get_free_slot_in_global, free_local_loop, install_in, pcb_fd_install,
}

-- The tables have their sizes.
pub record IsFiles (fs : Files) : Type 0 where
  pub global_size : length fs.file_table ≡ max_file_open
  pub local_size : length fs.fd_table ≡ max_files_open_per_proc

-- Descriptor `i` is free.
abbrev pub FreeLocal : Files → ℕ → Type 0
FreeLocal fs i = get_elem? fs.fd_table i ≡ some minus_one

-- Global slot `g` is free: no pipe, and no file.
abbrev pub FreeSlot : Files → ℕ → Type 0
FreeSlot fs g =
    (fd : Fd) × (get_elem? fs.file_table g ≡ some fd)
    × (is_dev fd.dev_type dev_pipe ≡ false)
    × (fd.dirent ≡ none)

-- The result of a search from `a` up to `b`: the first that has the property, or none if none has it.
pub data First (P : ℕ → Type 0) (a b : ℕ) : Option ℕ → Type 0 where
  found : {i : ℕ} → a ≤ i → i < b → P i → ((j : ℕ) → a ≤ j → j < i → ¬ P j) → First P a b (some i)
  absent : ((j : ℕ) → a ≤ j → j < b → ¬ P j) → First P a b none

later_too :
    {P : ℕ → Type 0} {a b : ℕ}
    → ¬ P a
    → ((j : ℕ) → a + 1 ≤ j → j < b → ¬ P j)
    → (j : ℕ) → a ≤ j
    → j < b
    → ¬ P j
later_too {P} {a} not_here later j lo hi = elim (Bool-cases (j == a)) [
  | inl e ↦ (λ p. not_here (subst P ((==_iff j a).0 e) p))
  | inr e ↦ later j (ground (arith, e, lo)) hi
]

First-later :
    {P : ℕ → Type 0} {a b : ℕ} {r : Option ℕ} → ¬ P a → First P (a + 1) b r → First P a b r
First-later not_here (found lo hi p before) =
    found (omega (arith, lo)) hi p (later_too not_here before)
First-later not_here (absent before) = absent (later_too not_here before)

First-here : {P : ℕ → Type 0} {a b : ℕ} → a < b → P a → First P a b (some a)
First-here h p = found (omega arith) h p λ j lo hi. absurd (omega arith)

some_inj : {A : Type 0} {a b : A} → some a ≡ some b → a ≡ b
some_inj {A} {a} e = ap (λ o. elim o [ none ↦ a | some x ↦ x ]) e

minus_one_iff : (g : ℤ) → is_dev g minus_one ≡ true → g ≡ minus_one
minus_one_iff (pos n) h = absurd (ground arith)
minus_one_iff (negsuc n) h = ap negsuc (ground (arith, h))

true_not_false : true ≡ false → ⊥
true_not_false e = ground (arith, e)

taken_local :
    (fs : Files) (i : ℕ) {g : ℤ}
    → get_elem? fs.fd_table i ≡ some g
    → is_dev g minus_one ≡ false
    → ¬ FreeLocal fs i
taken_local fs i at e free =
    true_not_false (subst (λ x. is_dev x minus_one ≡ false) (some_inj (sym at ∙ free)) e)

piped_slot :
    (fs : Files) (i : ℕ) {fd : Fd}
    → get_elem? fs.file_table i ≡ some fd
    → is_dev fd.dev_type dev_pipe ≡ true
    → ¬ FreeSlot fs i
piped_slot fs i at e (fd', at', not_pipe, _) =
    true_not_false
      (sym e ∙ ap (λ x. is_dev x.dev_type dev_pipe) (some_inj (sym at ∙ at')) ∙ not_pipe)

filled_slot :
    (fs : Files) (i : ℕ) {fd : Fd} {file : ℕ}
    → get_elem? fs.file_table i ≡ some fd
    → fd.dirent ≡ some file
    → ¬ FreeSlot fs i
filled_slot fs i at z (fd', at', _, no_file) =
    true_not_false (ap is_null (sym no_file ∙ ap (λ x. x.dirent) (some_inj (sym at' ∙ at)) ∙ z))

free_local_loop-First :
    (fs : Files) (n i : ℕ)
    → i + n ≡ length fs.fd_table
    → Returns (First (FreeLocal fs) i (length fs.fd_table)) (free_local_loop fs.fd_table i n)
unfolding free_local_loop
free_local_loop-First fs zero i h = returns (absent λ j lo hi. absurd (omega arith))
free_local_loop-First fs (suc n) i h =
    let (g, at) = get_elem?-in fs.fd_table i (omega arith) in
    elim (Bool-cases (is_dev g minus_one)) [
      | inl e ↦ rw (at, e) (returns (First-here (omega arith) (at ∙ ap some (minus_one_iff g e))))
      | inr e ↦
          rw (at, e)
            (Returns-mono (free_local_loop-First fs n (i + 1) (omega arith))
              λ r f. First-later (taken_local fs i at e) f)
    ]

free_slot_loop-First :
    (fs : Files) (n i : ℕ)
    → i + n ≡ length fs.file_table
    → Returns (First (FreeSlot fs) i (length fs.file_table)) (free_slot_loop fs.file_table i n)
unfolding free_slot_loop
free_slot_loop-First fs zero i h = returns (absent λ j lo hi. absurd (omega arith))
free_slot_loop-First fs (suc n) i h =
    let (fd, at) = get_elem?-in fs.file_table i (omega arith) in
    let rest = free_slot_loop-First fs n (i + 1) (omega arith) in
    elim (Bool-cases (is_dev fd.dev_type dev_pipe)) [
      | inl e ↦ rw (at, e) (Returns-mono rest λ r f. First-later (piped_slot fs i at e) f)
      | inr e ↦ elim (Option-cases fd.dirent) [
        | inl z ↦ rw (at, e, z) (returns (First-here (omega arith) (fd, at, e, z)))
        | inr (d, z) ↦
            rw (at, e, z) (Returns-mono rest λ r f. First-later (filled_slot fs i at z) f)
      ]
    ]

-- What pcb_fd_install comes to for slot `g`.
unfoldable pub Installed : Files → ℕ → Fd → ℕ × Files → Type 0
Installed fs g fd (i, fs') =
    ((3 ≤ i)
      × (i < max_files_open_per_proc)
      × FreeLocal fs i
      × ((j : ℕ) → 3 ≤ j → j < i → ¬ FreeLocal fs j)
      × (fs' ≡ put_fd (put_local fs i (pos g)) g (record fd { refcnt = u32 (fd.refcnt + 1) })))
    ⊎ ((i ≡ 0) × (fs' ≡ fs) × ((j : ℕ) → 3 ≤ j → j < max_files_open_per_proc → ¬ FreeLocal fs j))

module _ {fs : Files} (v : IsFiles fs) where
  install_in-Installed :
      (g : ℕ) {fd : Fd} {r : Option ℕ}
      → get_elem? fs.file_table g ≡ some fd
      → First (FreeLocal fs) 3 (length fs.fd_table) r
      → Returns (Installed fs g fd) (install_in fs (pos g) r)
  unfolding install_in Installed
  install_in-Installed g at (found {i} lo hi p before) =
      rw at (returns (inl (lo, subst (λ n. i < n) v.local_size hi, p, before, refl)))
  install_in-Installed g at (absent no_free) =
      returns (inr (refl, refl, λ j lo hi. no_free j lo (subst (λ n. j < n) (sym v.local_size) hi)))

  pub pcb_fd_install-Installed :
      (g : ℕ) (fd : Fd)
      → get_elem? fs.file_table g ≡ some fd
      → Returns (Installed fs g fd) (pcb_fd_install fs (pos g))
  unfolding pcb_fd_install
  pcb_fd_install-Installed g fd at =
      Returns-bind
        (free_local_loop-First fs (max_files_open_per_proc - 3) 3 (omega (arith, v.local_size)))
        λ r f. install_in-Installed g at f

  -- get_free_slot_in_global finds the first slot from 3 on that has no pipe and no file, and -1 exactly
  -- if there is none.
  pub get_free_slot_in_global-First :
      Returns (First (FreeSlot fs) 3 max_file_open) (get_free_slot_in_global fs)
  unfolding get_free_slot_in_global
  get_free_slot_in_global-First =
      subst
        (λ n.
          Returns (First (FreeSlot fs) 3 n) (free_slot_loop fs.file_table 3 (max_file_open - 3)))
        v.global_size (free_slot_loop-First fs (max_file_open - 3) 3 (omega (arith, v.global_size)))
