-- ===== src/Threads/Switch.antt =====
-- thread/thread.c: the switches keep exactly one thread running, and the queue in order.
use kernel_travel.Base.{
  ℕ, ◌≡◌, refl, sym, ap, ◌∙◌, subst, true, false, List, [], ◌∷◌, ◌++◌, arith, ◌==◌, if◌then◌else◌,
  ok, ◌>>=◌, Returns, returns, Returns-assert,
}
use kernel_travel.LinkedList.Chain.{elem, Distinct, elem-append}
use kernel_travel.Threads.{
  Machine, is_parked, task_running, task_ready, put, set_status, thread_unblock, is_running,
  put_back, wake_idle, run_next, schedule,
}
use kernel_travel.Threads.Invariant.{
  IsQueued, IsScheduled, IsSwitching, parked-else, running-else, status-cases,
}

-- The states that thread_unblock, put_back and run_next make.
abbrev pub woken : Machine → ℕ → Machine
woken m t = record (set_status m t task_ready) { ready = t ∷ m.ready }

abbrev pub put_last : Machine → Machine
put_last m = record m {
  ready = m.ready ++ m.running ∷ [];
  task =
      put m.task m.running
        (record (m.task m.running) { ticks = (m.task m.running).priority; status = task_ready });
}

abbrev pub switched : Machine → ℕ → List ℕ → Machine
switched m t ts = record (set_status m t task_running) { ready = ts; running = t }

-- The thread that schedule takes, and the queue that it leaves.
abbrev pub next_of : List ℕ → ℕ → ℕ
next_of [] idle = idle
next_of (t ∷ ts) idle = t

abbrev pub rest_of : List ℕ → List ℕ
rest_of [] = []
rest_of (t ∷ ts) = ts

-- A new last element.
pub Distinct-snoc :
    (a : ℕ) (xs : List ℕ) → Distinct xs → elem a xs ≡ false → Distinct (xs ++ a ∷ [])
Distinct-snoc a [] d h = (refl, tt)
Distinct-snoc a (x ∷ xs) d h =
    (ground (arith, elem-append x xs (a ∷ []), d.0), Distinct-snoc a xs d.1 (ground arith))

pub woken-IsQueued :
    (m : Machine) (t : ℕ) → IsQueued m → is_parked (m.task t).status ≡ true → IsQueued (woken m t)
woken-IsQueued m t q p =
    let f = parked-else (m.task t).status p in
    record {
      queued = λ u. ground (arith, q.queued u);
      once = (sym (q.queued t) ∙ f.0, q.once);
      idle_alive = ground (arith, q.idle_alive);
    }

pub thread_unblock-woken :
    (m : Machine) (t : ℕ)
    → IsQueued m
    → is_parked (m.task t).status ≡ true
    → thread_unblock m t ≡ ok (woken m t)
unfolding thread_unblock
thread_unblock-woken m t q p =
    let f = parked-else (m.task t).status p in
    let out : elem t m.ready ≡ false = sym (q.queued t) ∙ f.0 in rw (p, out) refl

pub put_last-IsSwitching : (m : Machine) → IsScheduled m → IsSwitching (put_last m)
put_last-IsSwitching m s =
    let q = s.queue in
    let f = running-else (m.task m.running).status (ground (arith, s.one_runs m.running)) in
    let out : elem m.running m.ready ≡ false = sym (q.queued m.running) ∙ f.0 in
    record {
      queue = record {
        queued = λ u. ground (arith, q.queued u, elem-append u m.ready (m.running ∷ []));
        once = Distinct-snoc m.running m.ready q.once out;
        idle_alive = ground (arith, q.idle_alive);
      };
      none_runs = λ u. ground (arith, s.one_runs u);
    }

switched-IsScheduled :
    (m : Machine) (t : ℕ) (ts : List ℕ)
    → IsSwitching m
    → m.ready ≡ t ∷ ts
    → IsScheduled (switched m t ts)
switched-IsScheduled m t ts s e =
    let q = s.queue in
    let d : Distinct (t ∷ ts) = subst Distinct e q.once in
    record {
      queue = record {
        queued = λ u. ground (arith, q.queued u, ap (elem u) e, d.0);
        once = d.1;
        idle_alive = ground (arith, q.idle_alive);
      };
      one_runs = λ u. ground (arith, s.none_runs u);
    }

-- What a switch from `m`, in which no thread runs, makes.
pub record Switch (m m' : Machine) : Type 0 where
  pub scheduled : IsScheduled m'
  pub runs : m'.running ≡ next_of m.ready m.idle
  pub leaves : m'.ready ≡ rest_of m.ready
  pub statuses :
      (u : ℕ) → (m'.task u).status ≡ (if u == m'.running then task_running else (m.task u).status)
  pub ticks : (u : ℕ) → (m'.task u).ticks ≡ (m.task u).ticks
  pub priority : (u : ℕ) → (m'.task u).priority ≡ (m.task u).priority
  pub same_idle : m'.idle ≡ m.idle
  pub same_intr : m'.intr_off ≡ m.intr_off

dispatch_ready :
    (m : Machine) (t : ℕ) (ts : List ℕ)
    → IsSwitching m
    → m.ready ≡ t ∷ ts
    → Returns (Switch m) (run_next m (t ∷ ts))
unfolding run_next
dispatch_ready m t ts s e = returns (record {
  scheduled = switched-IsScheduled m t ts s e;
  runs = ap (λ xs. next_of xs m.idle) (sym e);
  leaves = ap rest_of (sym e);
  statuses = λ u. ground arith;
  ticks = λ u. ground arith;
  priority = λ u. ground arith;
  same_idle = refl;
  same_intr = refl;
})

dispatch_idle :
    (m : Machine)
    → IsSwitching m
    → m.ready ≡ []
    → Returns (Switch m) (wake_idle m [] >>= λ m'. run_next m' m'.ready)
unfolding wake_idle run_next
dispatch_idle m s e =
    let q = s.queue in
    let p =
      status-cases (m.task m.idle).status (q.queued m.idle ∙ ap (elem m.idle) e)
        (s.none_runs m.idle) q.idle_alive in
    let w = woken-IsQueued m m.idle q p in
    let sw : IsSwitching (woken m m.idle) = record {
      queue = w;
      none_runs = λ u. ground (arith, s.none_runs u);
    } in
    rw (thread_unblock-woken m m.idle q p) (
      returns (record {
        scheduled = switched-IsScheduled (woken m m.idle) m.idle m.ready sw refl;
        runs = ap (λ xs. next_of xs m.idle) (sym e);
        leaves = e ∙ ap rest_of (sym e);
        statuses = λ u. ground arith;
        ticks = λ u. ground arith;
        priority = λ u. ground arith;
        same_idle = refl;
        same_intr = refl;
      }))

dispatch :
    (m : Machine) (ready : List ℕ)
    → m.ready ≡ ready
    → IsSwitching m
    → Returns (Switch m) (wake_idle m ready >>= λ m'. run_next m' m'.ready)
unfolding wake_idle
dispatch m [] e s = dispatch_idle m s e
dispatch m (t ∷ ts) e s =
    subst (λ r. Returns (Switch m) (run_next m r)) (sym e) (dispatch_ready m t ts s e)

-- schedule, called when the running thread has given way.
pub schedule-Switch :
    (m : Machine) → m.intr_off ≡ true → IsSwitching m → Returns (Switch m) (schedule m)
unfolding schedule put_back
schedule-Switch m off s =
    Returns-assert off (rw (s.none_runs m.running) (dispatch m m.ready refl s))

-- schedule, called while the running thread could run on, as the clock does: that thread goes to the end
-- of the queue with a full turn before the switch.
pub schedule_running :
    (m : Machine) → m.intr_off ≡ true → IsScheduled m → Returns (Switch (put_last m)) (schedule m)
unfolding schedule put_back
schedule_running m off s =
    let run : is_running (m.task m.running).status ≡ true = ground (arith, s.one_runs m.running) in
    let f = running-else (m.task m.running).status run in
    let out : elem m.running m.ready ≡ false = sym (s.queue.queued m.running) ∙ f.0 in
    Returns-assert off (
      rw (run, out)
        (dispatch (put_last m) (m.ready ++ m.running ∷ []) refl (put_last-IsSwitching m s)))
