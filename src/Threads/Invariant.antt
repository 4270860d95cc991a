-- ===== src/Threads/Invariant.antt =====
-- thread/thread.c: what holds of the threads between the operations.
use kernel_travel.Base.{ℕ, ◌≡◌, refl, Bool, true, false, arith, ◌==◌}
use kernel_travel.LinkedList.Chain.{elem, Distinct}
use kernel_travel.Threads.{
  Status, Machine, is_running, is_ready, is_parked, task_died, task_blocked, task_waiting,
  task_hanging, task_running, task_ready,
}

abbrev pub is_dead : Status → Bool
is_dead task_died = true
is_dead _ = false

-- The queue holds exactly the threads that are ready, each once, and the idle thread is alive.
pub record IsQueued (m : Machine) : Type 0 where
  pub queued : (t : ℕ) → is_ready (m.task t).status ≡ elem t m.ready
  pub once : Distinct m.ready
  pub idle_alive : is_dead (m.task m.idle).status ≡ false

-- Exactly one thread runs.
pub record IsScheduled (m : Machine) : Type 0 where
  pub queue : IsQueued m
  pub one_runs : (t : ℕ) → is_running (m.task t).status ≡ (t == m.running)

-- While one thread gives way to the next no thread runs.
pub record IsSwitching (m : Machine) : Type 0 where
  pub queue : IsQueued m
  pub none_runs : (t : ℕ) → is_running (m.task t).status ≡ false

pub parked-else :
    (s : Status)
    → is_parked s ≡ true
    → (is_ready s ≡ false) × (is_running s ≡ false) × (is_dead s ≡ false)
parked-else task_running h = absurd (ground arith)
parked-else task_ready h = absurd (ground arith)
parked-else task_blocked h = (refl, refl, refl)
parked-else task_waiting h = (refl, refl, refl)
parked-else task_hanging h = (refl, refl, refl)
parked-else task_died h = absurd (ground arith)

pub running-else : (s : Status) → is_running s ≡ true → (is_ready s ≡ false) × (is_dead s ≡ false)
running-else task_running h = (refl, refl)
running-else task_ready h = absurd (ground arith)
running-else task_blocked h = absurd (ground arith)
running-else task_waiting h = absurd (ground arith)
running-else task_hanging h = absurd (ground arith)
running-else task_died h = absurd (ground arith)

pub status-cases :
    (s : Status)
    → is_ready s ≡ false
    → is_running s ≡ false
    → is_dead s ≡ false
    → is_parked s ≡ true
status-cases task_running h k d = absurd (ground arith)
status-cases task_ready h k d = absurd (ground arith)
status-cases task_blocked h k d = refl
status-cases task_waiting h k d = refl
status-cases task_hanging h k d = refl
status-cases task_died h k d = absurd (ground arith)
