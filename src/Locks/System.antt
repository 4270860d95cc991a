-- ===== src/Locks/System.antt =====
-- thread/sync.c: the threads of the system at one lock, in steps between which any other thread may run.
use kernel_travel.Base.{ℕ, ◌≡◌, ◌≢◌, Bool, true, false, ◌==◌, if◌then◌else◌, ok}
use kernel_travel.LinkedList.Chain.{elem}
use kernel_travel.Threads.{
  Machine, Status, thread_block, thread_unblock, thread_yield, intr_timer_handler,
}
use kernel_travel.Locks.{
  Semaphore, Lock, sema_round, sema_up, is_holder, take_lock, take_again, lock_release,
}

-- Where a thread is in lock_acquire and lock_release: before them, in the loop of sema_down, between
-- sema_down and the writes after it, between the two functions, and before the sema_up of lock_release.
pub data Place : Type 0 where
  outside downing taken inside leaving : Place

pub record System : Type 0 where
  pub machine : Machine
  pub lock : Lock
  pub place : ℕ → Place

abbrev pub put_place : (ℕ → Place) → ℕ → Place → ℕ → Place
put_place place t p u = if u == t then p else place u

-- The place after a round of sema_down.
abbrev pub after_round : Bool → Place
after_round true = taken
after_round false = downing

abbrev pub after_release : Bool → Place
after_release true = leaving
after_release false = inside

abbrev pub in_loop : Place → Bool
in_loop downing = true
in_loop _ = false

-- A step of the running thread, of the clock or of the interrupts. The idle thread takes no lock. A thread
-- at the lock's semaphore is woken by nothing but sema_up, and blocks in nothing but sema_down.
pub data Step (s : System) : System → Type 0 where
  enter :
      s.place s.machine.running ≡ outside
      → s.machine.running ≢ s.machine.idle
      → is_holder s.lock.holder s.machine.running ≡ false
      → Step s (record s { place = put_place s.place s.machine.running downing })
  round :
      (r : Bool × Semaphore × Machine)
      → s.place s.machine.running ≡ downing
      → sema_round s.lock.sema s.machine ≡ ok r
      → Step s (record {
        machine = r.2;
        lock = record s.lock { sema = r.1 };
        place = put_place s.place s.machine.running (after_round r.0);
      })
  own :
      s.place s.machine.running ≡ taken
      → Step s (record s {
        lock = take_lock s.lock s.machine.running;
        place = put_place s.place s.machine.running inside;
      })
  again :
      s.place s.machine.running ≡ inside
      → is_holder s.lock.holder s.machine.running ≡ true
      → Step s (record s { lock = take_again s.lock })
  release :
      (r : Bool × Lock)
      → s.place s.machine.running ≡ inside
      → lock_release s.lock s.machine.running ≡ ok r
      → Step s
          (record s { lock = r.1; place = put_place s.place s.machine.running (after_release r.0) })
  up :
      (r : Semaphore × Machine)
      → s.place s.machine.running ≡ leaving
      → sema_up s.lock.sema s.machine ≡ ok r
      → Step s (record {
        machine = r.1;
        lock = record s.lock { sema = r.0 };
        place = put_place s.place s.machine.running outside;
      })
  clock :
      (m : Machine)
      → s.machine.intr_off ≡ true
      → intr_timer_handler s.machine ≡ ok m
      → Step s (record s { machine = m })
  give_way : (m : Machine) → thread_yield s.machine ≡ ok m → Step s (record s { machine = m })
  sleep :
      (m : Machine) (stat : Status)
      → in_loop (s.place s.machine.running) ≡ false
      → thread_block s.machine stat ≡ ok m
      → Step s (record s { machine = m })
  wake :
      (m : Machine) (t : ℕ)
      → elem t s.lock.sema.wait_list ≡ false
      → thread_unblock s.machine t ≡ ok m
      → Step s (record s { machine = m })
  interrupts : (off : Bool) → Step s (record s { machine = record s.machine { intr_off = off } })

pub data Reachable (start : System) : System → Type 0 where
  here : Reachable start start
  there : {s s' : System} → Reachable start s → Step s s' → Reachable start s'
