-- ===== src/PageTable/Tests.antt =====
-- mm/memory.c: a pool of 16 pages, of which the first holds the first level.
use kernel_travel.Base.{
  ℕ, zero, suc, ◌+◌, ◌*◌, ◌≤◌, ◌<◌, ◌≡◌, refl, ◌⊎◌, inl, true, [], ◌∷◌, arith, get_or, Returns,
}
use kernel_travel.Pages.{Memory, dmw1_base}
use kernel_travel.Pages.Alloc.{IsValid, pool_free}
use kernel_travel.PageTable.{pgd_ptr, page_table_add}
use kernel_travel.PageTable.Add.{Unmapped, MappedTo, page_table_add-vaddr_to_paddr}

abbrev cleared : Memory
cleared = record {
  pool = record {
    paddr_start = dmw1_base + 0x6000;
    btmp = record { btmp_bytes_len = 2; bits = 1 ∷ 0 ∷ [] };
  };
  bytes = λ a. 0;
}

abbrev root_table : ℕ
root_table = dmw1_base + 0x6000

abbrev vaddr : ℕ
vaddr = 0x12345678

cleared-IsValid : IsValid cleared.pool
cleared-IsValid = record {
  btmp = record { storage = refl; bytes = below; small = omega arith };
  in_window = omega arith;
  end_in_window = omega arith;
}
  where
    below : (i : ℕ) → get_or (1 ∷ 0 ∷ []) i 0 < 256
    below zero = omega arith
    below (suc zero) = omega arith
    below (suc (suc i)) = omega arith

cleared-Unmapped : Unmapped cleared root_table vaddr
unfolding pgd_ptr
cleared-Unmapped = record {
  valid = cleared-IsValid;
  root = apart;
  levels = λ there. absurd (there refl);
}
  where
    apart :
        (b : ℕ)
        → b < 16
        → pool_free cleared b ≡ true
        → (pgd_ptr root_table vaddr + 8 ≤ dmw1_base + 0x6000 + b * 4096)
          ⊎ (dmw1_base + 0x6000 + b * 4096 + 4096 ≤ pgd_ptr root_table vaddr)
    apart zero l free = absurd (ground (arith, free))
    apart (suc b) l free = inl (omega arith)

page_table_add-vaddr_to_paddr_example :
    Returns (MappedTo root_table vaddr 0x90000) (page_table_add cleared root_table vaddr 0x90000 15)
page_table_add-vaddr_to_paddr_example =
    page_table_add-vaddr_to_paddr cleared root_table vaddr 0x90 15 1 2 cleared-Unmapped
      (omega arith, omega arith, refl, refl) (omega arith) (omega arith) (omega arith)
