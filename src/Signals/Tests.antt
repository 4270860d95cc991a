-- ===== src/Signals/Tests.antt =====
-- A thread with a handler for signal 10.
use kernel_travel.Base.{◌+◌, [], ◌∷◌, replicate}
use kernel_travel.Signals.{Sigaction, Task, Regs}

abbrev ka : Sigaction
ka = record { sa_handler = 0x120000000; sa_mask = 0 ∷ 4 ∷ 0 ∷ 0 ∷ [] }

abbrev task : Task
task = record { pending = replicate 4 0; blocked = 1 ∷ 0 ∷ 0 ∷ 0 ∷ []; action = replicate 32 ka }

abbrev regs : Regs
regs = record { regs = λ i. i + 1000; csr_era = 0x4000; csr_prmd = 7 }
