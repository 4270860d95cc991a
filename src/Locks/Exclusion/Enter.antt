-- ===== src/Locks/Exclusion/Enter.antt =====
-- thread/sync.c: the steps of lock_acquire up to the end of sema_down keep the invariant of Exclusion.
use kernel_travel.Base.{
  ℕ, ◌+◌, ◌-◌, ◌%◌, ◌^◌, ◌≡◌, refl, sym, ap, ◌∙◌, subst, ◌≢◌, inl, inr, Bool, true, false, not,
  List, [], ◌∷◌, ◌++◌, arith, ◌==◌, Bool-cases, ok, Returns, returns, Returns-result,
  Returns-assert, if-true, if-false, Returns-after,
}
use kernel_travel.LinkedList.Chain.{elem, elem-append}
use kernel_travel.Threads.{Machine, Thread, is_parked, task_blocked, thread_block}
use kernel_travel.Threads.Invariant.{IsScheduled}
use kernel_travel.Threads.Switch.{Distinct-snoc}
use kernel_travel.Threads.Keep.{thread_block-Switch}
use kernel_travel.Threads.Frame.{thread_block-Frame, thread_block-stops}
use kernel_travel.Locks.{Semaphore, sema_round}
use kernel_travel.Locks.System.{
  System, Place, outside, downing, taken, in_loop, put_place, after_round,
}
use kernel_travel.Locks.Exclusion.{
  critical, is_inside, Phase, free, held, IsSafe, running_awake, Phase-map,
}

-- The running thread goes to `p`, with nothing else changed.
pub enter-IsSafe :
    {s : System}
    → IsSafe s
    → s.place s.machine.running ≡ outside
    → s.machine.running ≢ s.machine.idle
    → IsSafe (record s { place = put_place s.place s.machine.running downing })
enter-IsSafe {s = s} i at ne =
    let t = s.machine.running in
    record {
      threads = i.threads;
      idle_out = ground (arith, i.idle_out, ne);
      stopped = i.stopped;
      waiting = λ u e. ground (arith, i.waiting u e);
      once = i.once;
      holds = λ u. ground (arith, i.holds u, ap is_inside at);
      phase =
          Phase-map (λ u. ground (arith, ap critical at)) (λ u l. ground (arith, l)) (λ u l p. p)
            i.phase;
    }

pub intr-IsScheduled :
    {m : Machine} (off : Bool) → IsScheduled m → IsScheduled (record m { intr_off = off })
intr-IsScheduled off s = record {
  queue = record { queued = s.queue.queued; once = s.queue.once; idle_alive = s.queue.idle_alive };
  one_runs = s.one_runs;
}

pub not_waiting : {s : System} → IsSafe s → elem s.machine.running s.lock.sema.wait_list ≡ false
not_waiting {s = s} i = elim (Bool-cases (elem s.machine.running s.lock.sema.wait_list)) [
  | inl e ↦
      absurd (ground (arith, i.stopped s.machine.running e, running_awake s.machine i.threads))
  | inr e ↦ e
]

pub waiter-ne-idle :
    {s : System} → IsSafe s → (u : ℕ) → elem u s.lock.sema.wait_list ≡ true → u ≢ s.machine.idle
waiter-ne-idle {s = s} i u h e =
    ground (arith, i.waiting u h, ap in_loop (ap s.place e ∙ i.idle_out))

still_held :
    {sema : Semaphore} {place place' : ℕ → Place} {task task' : ℕ → Thread} (wl : List ℕ)
    → sema.value ≡ 0
    → ((u : ℕ) → critical (place' u) ≡ critical (place u))
    → Phase sema place task
    → Phase (record sema { wait_list = wl }) place' task'
still_held wl v same (free one nobody w) = absurd (omega (arith, v, one))
still_held wl v same (held t z one) = held t v (λ u. same u ∙ one u)

-- The system after a round of sema_down.
abbrev pub after : (s : System) → Bool × Semaphore × Machine → System
after s r = record {
  machine = r.2;
  lock = record s.lock { sema = r.1 };
  place = put_place s.place s.machine.running (after_round r.0);
}

module _ {s : System} (i : IsSafe s) (at : s.place s.machine.running ≡ downing) where
  not_idle : s.machine.running ≢ s.machine.idle
  not_idle e = ground (arith, ap in_loop at, ap in_loop (ap s.place e ∙ i.idle_out))

  abbrev queued : Semaphore
  queued = record s.lock.sema { wait_list = s.lock.sema.wait_list ++ s.machine.running ∷ [] }

  blocked-IsSafe :
      (m' : Machine)
      → s.lock.sema.value ≡ 0
      → thread_block (record s.machine { intr_off = true }) task_blocked ≡ ok m'
      → IsSafe (after s (false, queued, m'))
  blocked-IsSafe m' v e =
      let sched = intr-IsScheduled true i.threads in
      let f = thread_block-Frame sched task_blocked e in
      let own = thread_block-stops task_blocked sched not_idle e in
      record {
        threads = f.scheduled;
        idle_out =
            ap (put_place s.place s.machine.running downing) f.same_idle
            ∙ ground (arith, i.idle_out, not_idle);
        stopped = λ u h. elim (Bool-cases (u == s.machine.running)) [
          | inl cur ↦ ap (λ k. is_parked (m'.task k).status) (ground (arith, cur)) ∙ own
          | inr other ↦
              let old : elem u s.lock.sema.wait_list ≡ true =
                ground
                  (arith, elem-append u s.lock.sema.wait_list (s.machine.running ∷ []), h, other) in
              f.parks u (waiter-ne-idle i u old) (i.stopped u old)
        ];
        waiting = λ u h.
            ground
              (arith, elem-append u s.lock.sema.wait_list (s.machine.running ∷ []), i.waiting u);
        once = Distinct-snoc s.machine.running s.lock.sema.wait_list i.once (not_waiting i);
        holds = λ u. ground (arith, i.holds u, ap is_inside at);
        phase = still_held _ v (λ u. ground (arith, ap critical at)) i.phase;
      }

  taken-Phase :
      s.lock.sema.value ≢ 0
      → Phase s.lock.sema s.place s.machine.task
      → Phase
          (record s.lock.sema { value = (s.lock.sema.value + 2 ^ 8 - 1) % 2 ^ 8 })
          (put_place s.place s.machine.running taken)
          s.machine.task
  taken-Phase ne (free v nobody w) =
      held s.machine.running (omega (arith, v)) (λ u. ground (arith, nobody u))
  taken-Phase ne (held t v one) = absurd (ne v)

  taken-IsSafe :
      s.lock.sema.value ≢ 0
      → IsSafe (
          after s (
            true,
            record s.lock.sema { value = (s.lock.sema.value + 2 ^ 8 - 1) % 2 ^ 8 },
            s.machine,
          ))
  taken-IsSafe ne = record {
    threads = i.threads;
    idle_out = ground (arith, i.idle_out, not_idle);
    stopped = i.stopped;
    waiting = λ u h. ground (arith, i.waiting u h, not_waiting i);
    once = i.once;
    holds = λ u. ground (arith, i.holds u, ap is_inside at);
    phase = taken-Phase ne i.phase;
  }

  -- A round of sema_down by the running thread ends well.
  pub round-IsSafe : Returns (λ r. IsSafe (after s r)) (sema_round s.lock.sema s.machine)
  unfolding sema_round
  round-IsSafe = elim (Bool-cases (s.lock.sema.value == 0)) [
    | inl e ↦
        let sched = intr-IsScheduled true i.threads in
        let r = Returns-result (thread_block-Switch sched task_blocked refl) in
        subst (Returns (λ r. IsSafe (after s r))) (sym (if-true _ _ e)) (
          Returns-assert (ap not (not_waiting i))
            (Returns-after _ r.1 (returns (blocked-IsSafe r.0 (ground (arith, e)) r.1))))
    | inr e ↦
        subst (Returns (λ r. IsSafe (after s r))) (sym (if-false _ _ e))
          (returns (taken-IsSafe (ground (arith, e))))
  ]
