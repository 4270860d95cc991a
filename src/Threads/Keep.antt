-- ===== src/Threads/Keep.antt =====
-- thread/thread.c: what the operations on threads do, and that each keeps the invariant.
use kernel_travel.Base.{
  ℕ, zero, suc, ◌+◌, ◌≡◌, refl, sym, ap, ◌∙◌, subst, true, false, not, [], ◌∷◌, ◌++◌, arith, ◌==◌,
  u32, u64, ok, Returns, returns, Returns-mono, Returns-assert, if-true, if-false,
}
use kernel_travel.LinkedList.Chain.{elem, elem-append}
use kernel_travel.Threads.{
  Status, Machine, is_running, is_parked, task_ready, put, set_status, thread_unblock, thread_block,
  thread_preempt, thread_yield, intr_timer_handler,
}
use kernel_travel.Threads.Invariant.{IsScheduled, IsSwitching, parked-else, running-else}
use kernel_travel.Threads.Switch.{
  Switch, woken, put_last, Distinct-snoc, woken-IsQueued, thread_unblock-woken, schedule-Switch,
  schedule_running,
}

-- The machine in which the running thread has taken the state `stat`.
abbrev pub parked : Machine → Status → Machine
parked m stat = set_status (record m { intr_off = true }) m.running stat

abbrev pub yielded : Machine → Machine
yielded m =
    set_status (record m { intr_off = true; ready = m.ready ++ m.running ∷ [] }) m.running
      task_ready

-- The machine after the counts of a tick.
abbrev pub ticked : Machine → ℕ → Machine
ticked m left = record m {
  task = put m.task m.running (record (m.task m.running) {
    elapsed_ticks = u32 ((m.task m.running).elapsed_ticks + 1);
    ticks = left;
  });
  now = u64 (m.now + 1);
}

module _ {m : Machine} (s : IsScheduled m) where
  runs : is_running (m.task m.running).status ≡ true
  runs = ground (arith, s.one_runs m.running)

  not_queued : elem m.running m.ready ≡ false
  not_queued = sym (s.queue.queued m.running) ∙ (running-else (m.task m.running).status runs).0

  pub thread_block-Switch :
      (stat : Status)
      → is_parked stat ≡ true
      → Returns (Switch (parked m stat)) (thread_block m stat)
  unfolding thread_block
  thread_block-Switch stat p =
      let f = parked-else stat p in
      let sw : IsSwitching (parked m stat) = record {
        queue = record {
          queued = λ u. ground (arith, s.queue.queued u, not_queued, f);
          once = s.queue.once;
          idle_alive = ground (arith, s.queue.idle_alive, f);
        };
        none_runs = λ u. ground (arith, s.one_runs u, f);
      } in
      Returns-assert p (Returns-assert runs (schedule-Switch (parked m stat) refl sw))

  pub thread_yield-Switch : Returns (Switch (yielded m)) (thread_yield m)
  unfolding thread_yield
  thread_yield-Switch =
      let sw : IsSwitching (yielded m) = record {
        queue = record {
          queued = λ u. ground (arith, s.queue.queued u, elem-append u m.ready (m.running ∷ []));
          once = Distinct-snoc m.running m.ready s.queue.once not_queued;
          idle_alive = ground (arith, s.queue.idle_alive);
        };
        none_runs = λ u. ground (arith, s.one_runs u);
      } in
      Returns-assert (ap not not_queued) (schedule-Switch (yielded m) refl sw)

  pub woken-IsScheduled : (t : ℕ) → is_parked (m.task t).status ≡ true → IsScheduled (woken m t)
  woken-IsScheduled t p =
      let f = parked-else (m.task t).status p in
      record {
        queue = woken-IsQueued m t s.queue p;
        one_runs = λ u. ground (arith, s.one_runs u, f);
      }

  pub thread_preempt-Switch :
      (t : ℕ)
      → is_parked (m.task t).status ≡ true
      → Returns (Switch (put_last (record (woken m t) { intr_off = true }))) (thread_preempt m t)
  unfolding thread_preempt
  thread_preempt-Switch t p =
      let w = woken-IsScheduled t p in
      let w' : IsScheduled (record (woken m t) { intr_off = true }) = record {
        queue = record {
          queued = w.queue.queued;
          once = w.queue.once;
          idle_alive = w.queue.idle_alive;
        };
        one_runs = w.one_runs;
      } in
      rw (thread_unblock-woken m t s.queue p)
        (schedule_running (record (woken m t) { intr_off = true }) refl w')

  pub ticked-IsScheduled : (left : ℕ) → IsScheduled (ticked m left)
  ticked-IsScheduled left = record {
    queue = record {
      queued = λ u. ground (arith, s.queue.queued u);
      once = s.queue.once;
      idle_alive = ground (arith, s.queue.idle_alive);
    };
    one_runs = λ u. ground (arith, s.one_runs u);
  }

  pub timer-Switch :
      m.intr_off ≡ true
      → (m.task m.running).ticks ≡ 0
      → Returns (Switch (put_last (ticked m (m.task m.running).ticks))) (intr_timer_handler m)
  unfolding intr_timer_handler
  timer-Switch off e =
      let over : ((m.task m.running).ticks == 0) ≡ true = ground (arith, e) in
      subst (Returns (Switch (put_last (ticked m (m.task m.running).ticks))))
        (sym (if-true _ _ over))
        (schedule_running (ticked m (m.task m.running).ticks) off
          (ticked-IsScheduled (m.task m.running).ticks))

  pub timer-ticked :
      (n : ℕ) → (m.task m.running).ticks ≡ suc n → intr_timer_handler m ≡ ok (ticked m n)
  unfolding intr_timer_handler
  timer-ticked n e =
      let left : ((m.task m.running).ticks == 0) ≡ false = ground (arith, e) in
      if-false _ _ left ∙ ap (λ k. ok (ticked m k)) (omega (arith, e))

  timer-IsScheduled :
      (n : ℕ)
      → (m.task m.running).ticks ≡ n
      → m.intr_off ≡ true
      → Returns IsScheduled (intr_timer_handler m)
  timer-IsScheduled zero e off = Returns-mono (timer-Switch off e) (λ m' w. w.scheduled)
  timer-IsScheduled (suc n) e off = rw (timer-ticked n e) (returns (ticked-IsScheduled n))

  -- Every operation on threads ends well and keeps the invariant, with one thread running.
  pub operations-IsScheduled :
      ((stat : Status) → is_parked stat ≡ true → Returns IsScheduled (thread_block m stat))
      × ((t : ℕ) → is_parked (m.task t).status ≡ true → Returns IsScheduled (thread_unblock m t))
      × ((t : ℕ)
          → is_parked (m.task t).status ≡ true
          → Returns (λ m'. IsScheduled m' × (m'.running ≡ t)) (thread_preempt m t))
      × Returns IsScheduled (thread_yield m)
      × (m.intr_off ≡ true → Returns IsScheduled (intr_timer_handler m))
  operations-IsScheduled = (
    λ stat p. Returns-mono (thread_block-Switch stat p) (λ m' w. w.scheduled),
    λ t p. rw (thread_unblock-woken m t s.queue p) (returns (woken-IsScheduled t p)),
    λ t p. Returns-mono (thread_preempt-Switch t p) (λ m' w. (w.scheduled, w.runs)),
    Returns-mono thread_yield-Switch (λ m' w. w.scheduled),
    timer-IsScheduled (m.task m.running).ticks refl,
  )
