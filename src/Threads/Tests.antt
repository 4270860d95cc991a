-- ===== src/Threads/Tests.antt =====
-- Thread 2 runs, 3 and 4 are ready, 5 sleeps, and 1 is the idle thread.
use kernel_travel.Base.{ℕ, ◌≡◌, refl, true, ◌||◌, [], ◌∷◌, arith, ◌==◌, if◌then◌else◌, Returns}
use kernel_travel.Threads.{
  Status, Machine, is_parked, task_running, task_ready, task_blocked, task_died, thread_block,
  thread_unblock, thread_preempt, thread_yield, intr_timer_handler, run_ticks,
}
use kernel_travel.Threads.Invariant.{IsScheduled}
use kernel_travel.Threads.Keep.{operations-IsScheduled}
use kernel_travel.Threads.Fair.{run_ticks-runs}

abbrev state_of : ℕ → Status
state_of t =
    if t == 2
    then task_running
    else if t == 3 || t == 4
    then task_ready
    else if t == 1 || t == 5
    then task_blocked
    else task_died

abbrev pub office : Machine
office = record {
  running = 2;
  task = λ t. record { status = state_of t; priority = 10; ticks = t; elapsed_ticks = 0 };
  ready = 3 ∷ 4 ∷ [];
  idle = 1;
  now = 0;
  intr_off = true;
}

pub office-IsScheduled : IsScheduled office
office-IsScheduled = record {
  queue = record { queued = λ t. ground arith; once = (refl, (refl, tt)); idle_alive = refl };
  one_runs = λ t. ground arith;
}

operations-IsScheduled_example :
    ((stat : Status) → is_parked stat ≡ true → Returns IsScheduled (thread_block office stat))
    × ((t : ℕ)
        → is_parked (office.task t).status ≡ true
        → Returns IsScheduled (thread_unblock office t))
    × ((t : ℕ)
        → is_parked (office.task t).status ≡ true
        → Returns (λ m'. IsScheduled m' × (m'.running ≡ t)) (thread_preempt office t))
    × Returns IsScheduled (thread_yield office)
    × (office.intr_off ≡ true → Returns IsScheduled (intr_timer_handler office))
operations-IsScheduled_example = operations-IsScheduled office-IsScheduled

run_ticks-runs_example : Returns (λ m'. IsScheduled m' × (m'.running ≡ 4)) (run_ticks 7 office)
run_ticks-runs_example = run_ticks-runs (3 ∷ []) 4 [] office office-IsScheduled refl refl
