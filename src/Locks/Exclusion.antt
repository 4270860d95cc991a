-- ===== src/Locks/Exclusion.antt =====
-- thread/sync.c: in every run at most one thread has the lock, and no wake-up is lost.
pub mod Enter
pub mod Leave
pub mod Runs
use kernel_travel.Base.{
  ℕ, zero, suc, ◌+◌, ◌-◌, ◌*◌, ◌/◌, ◌%◌, ◌^◌, ◌≤◌, ◌<◌, min, max, bit_and, bit_or, bit_xor, ◌≡◌,
  refl, sym, ap, ◌∙◌, subst, ◌≢◌, ◌↔◌, ◌⊎◌, inl, inr, Bool, true, false, not, ◌&&◌, ◌||◌, Option,
  none, some, List, [], ◌∷◌, ◌++◌, map, arith, ltb, leb, ◌==◌, if◌then◌else◌, u32, u64, ==_iff,
  ltb→lt, lt→ltb, le→ltb, Bool-cases, Option-cases, all_below, all_below_sound, length, get_elem?,
  get_or, set, take, drop, replicate, length-append, length-set, length-replicate,
  get_elem?-eq-get_or, get_elem?-eq-none, get_or-set_self, get_or-set_ne, get_or-replicate, Outcome,
  ok, panic, fault, spin, ◌>>=◌, ◌>>◌, assert, present, Returns, returns, Returns-bind,
  Returns-mono, u32_small, u64_small, bind-eq, bit_or-high, ℤ, pos, negsuc, sub_ℕ,
  get_elem?-set_self, get_elem?-set_ne, get_elem?-in, Returns-result, Returns-assert, if-true,
  if-false, bind_assoc, Returns-ok, assert-true,
}
use kernel_travel.LinkedList.Chain.{elem, Distinct, elem-append}
use kernel_travel.Threads.{
  Machine, Status, Thread, is_running, is_parked, thread_block, thread_unblock,
}
use kernel_travel.Threads.Invariant.{IsScheduled, parked-else}
use kernel_travel.Locks.{Semaphore, Lock, is_holder}
use kernel_travel.Locks.System.{
  System, Place, outside, downing, taken, inside, leaving, in_loop, Step, put_place,
}

-- Between the return of sema_down and the call of sema_up.
abbrev pub critical : Place → Bool
critical taken = true
critical inside = true
critical leaving = true
critical _ = false

abbrev pub is_inside : Place → Bool
is_inside inside = true
is_inside _ = false

-- A thread in the loop of sema_down is awake, if any waits.
abbrev pub HasWoken : List ℕ → (ℕ → Place) → (ℕ → Thread) → Type 0
HasWoken wait_list place task =
    (wait_list ≡ []) ⊎ ((t : ℕ) × (in_loop (place t) ≡ true) × (is_parked (task t).status ≡ false))

-- The semaphore is 1 and no thread has the lock, or it is 0 and one thread has.
pub data Phase (sema : Semaphore) (place : ℕ → Place) (task : ℕ → Thread) : Type 0 where
  free :
      sema.value ≡ 1
      → ((t : ℕ) → critical (place t) ≡ false)
      → HasWoken sema.wait_list place task
      → Phase sema place task
  held :
      (t : ℕ) → sema.value ≡ 0 → ((u : ℕ) → critical (place u) ≡ (u == t)) → Phase sema place task

pub record IsSafe (s : System) : Type 0 where
  pub threads : IsScheduled s.machine
  pub idle_out : s.place s.machine.idle ≡ outside
  pub stopped :
      (t : ℕ) → elem t s.lock.sema.wait_list ≡ true → is_parked (s.machine.task t).status ≡ true
  pub waiting : (t : ℕ) → elem t s.lock.sema.wait_list ≡ true → in_loop (s.place t) ≡ true
  pub once : Distinct s.lock.sema.wait_list
  pub holds : (t : ℕ) → is_holder s.lock.holder t ≡ is_inside (s.place t)
  pub phase : Phase s.lock.sema s.place s.machine.task

-- The running thread does not wait.
pub running_awake : (m : Machine) → IsScheduled m → is_parked (m.task m.running).status ≡ false
running_awake m s = elim (Bool-cases (is_parked (m.task m.running).status)) [
  | inl p ↦ absurd (ground (arith, s.one_runs m.running, parked-else (m.task m.running).status p))
  | inr p ↦ p
]

pub Phase-map :
    {sema : Semaphore} {place place' : ℕ → Place} {task task' : ℕ → Thread}
    → ((t : ℕ) → critical (place' t) ≡ critical (place t))
    → ((t : ℕ) → in_loop (place t) ≡ true → in_loop (place' t) ≡ true)
    → ((t : ℕ)
        → in_loop (place t) ≡ true
        → is_parked (task t).status ≡ false
        → is_parked (task' t).status ≡ false)
    → Phase sema place task
    → Phase sema place' task'
Phase-map same loop awake (free v nobody (inl e)) = free v (λ t. same t ∙ nobody t) (inl e)
Phase-map same loop awake (free v nobody (inr (t, l, p))) =
    free v (λ t. same t ∙ nobody t) (inr (t, loop t l, awake t l p))
Phase-map same loop awake (held t v one) = held t v (λ u. same u ∙ one u)

-- A move of the machine alone.
pub move :
    {s : System} (m : Machine)
    → IsSafe s
    → IsScheduled m
    → m.idle ≡ s.machine.idle
    → ((u : ℕ)
        → elem u s.lock.sema.wait_list ≡ true
        → u ≢ s.machine.idle
        → is_parked (m.task u).status ≡ true)
    → ((u : ℕ)
        → in_loop (s.place u) ≡ true
        → is_parked (s.machine.task u).status ≡ false
        → is_parked (m.task u).status ≡ false)
    → IsSafe (record s { machine = m })
move {s = s} m i sched idle parks wakes = record {
  threads = sched;
  idle_out = ap s.place idle ∙ i.idle_out;
  stopped = λ t e.
      parks t e (λ at. ground (arith, ap in_loop (ap s.place at ∙ i.idle_out), i.waiting t e));
  waiting = i.waiting;
  once = i.once;
  holds = i.holds;
  phase = Phase-map (λ t. refl) (λ t l. l) wakes i.phase;
}
