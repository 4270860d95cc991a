-- ===== src/Processes/Tests.antt =====
-- Process 2 runs, and its parent, process 5, waits.
use kernel_travel.Base.{
  ℕ, zero, suc, ◌+◌, ◌<◌, refl, false, [], ◌∷◌, arith, ◌==◌, if◌then◌else◌, get_or,
}
use kernel_travel.Threads.{Status, Machine, task_running, task_blocked, task_waiting, task_died}
use kernel_travel.Processes.{System}
use kernel_travel.Processes.Exit.{HasParent}

abbrev state_of : ℕ → Status
state_of t =
    if t == 2
    then task_running
    else if t == 5
    then task_waiting
    else if t == 1
    then task_blocked
    else task_died

abbrev house : Machine
house = record {
  running = 2;
  task = λ t. record { status = state_of t; priority = 10; ticks = 3; elapsed_ticks = 0 };
  ready = [];
  idle = 1;
  now = 0;
  intr_off = false;
}

abbrev family : System
family = record {
  machine = house;
  all = 5 ∷ 2 ∷ [];
  info = λ t. record {
    pid = t;
    ppid = t + 3;
    exit_status = 0;
    tms_stime = 1;
    tms_utime = 1;
    tms_cstime = 0;
    tms_cutime = 0;
  };
  main_thread = 1;
  pid_bitmap = record { btmp_bytes_len = 1; bits = 0xff ∷ [] };
}

family-HasParent : HasParent family 5
family-HasParent = record {
  threads = record {
    queue = record { queued = λ t. ground arith; once = tt; idle_alive = refl };
    one_runs = λ t. ground arith;
  };
  child_listed = refl;
  parent_listed = refl;
  stopped = refl;
  one_pid = λ t u m n e. e;
  of_parent = refl;
  pool = record { storage = refl; bytes = below; small = omega arith };
  pid_low = omega arith;
  pid_high = omega arith;
}
  where
    below : (i : ℕ) → get_or (0xff ∷ []) i 0 < 256
    below zero = omega arith
    below (suc i) = omega arith
