-- ===== src/Locks/Exclusion/Runs.antt =====
-- thread/sync.c: every run of the threads at a lock that starts with a fresh lock is safe.
use kernel_travel.Base.{
  ℕ, ◌+◌, ◌%◌, ◌^◌, ◌≡◌, refl, sym, ap, ◌∙◌, subst, ◌≢◌, inl, inr, Bool, true, false, ◌&&◌, List,
  [], ◌∷◌, arith, ◌==◌, Bool-cases, ok, ◌>>=◌, Returns, returns, Returns-bind, Returns-mono,
  if-false, Returns-ok, Returns-after,
}
use kernel_travel.Threads.Keep.{thread_yield-Switch, woken-IsScheduled}
use kernel_travel.Threads.Switch.{woken, thread_unblock-woken}
use kernel_travel.LinkedList.Chain.{elem}
use kernel_travel.Threads.{Machine, is_parked, thread_yield}
use kernel_travel.Threads.Invariant.{IsScheduled}
use kernel_travel.Threads.Frame.{
  Frame, Wakes, thread_block-Frame, thread_yield-Frame, timer-Frame, thread_unblock-Wakes,
}
use kernel_travel.Locks.{sema_round, sema_up, sema_init, lock_init, wake_first}
use kernel_travel.Locks.System.{
  System, outside, downing, leaving, in_loop, Step, enter, round, own, again, release, up, clock,
  give_way, sleep, wake, interrupts, Reachable, here, there,
}
use kernel_travel.Locks.Exclusion.{critical, Phase, free, IsSafe, move, held}
use kernel_travel.Locks.Exclusion.Enter.{enter-IsSafe, round-IsSafe, intr-IsScheduled}
use kernel_travel.Locks.Exclusion.Leave.{
  own-IsSafe, again-IsSafe, release-IsSafe, up-IsSafe, one_critical, value_one,
}

-- The start: a lock of lock_init, and no thread at it.
unfoldable pub start : Machine → System
unfolding lock_init
start m = record { machine = m; lock = lock_init; place = λ t. outside }

start-IsSafe : (m : Machine) → IsScheduled m → IsSafe (start m)
unfolding start lock_init sema_init
start-IsSafe m s = record {
  threads = s;
  idle_out = refl;
  stopped = λ t h. absurd (ground (arith, h));
  waiting = λ t h. absurd (ground (arith, h));
  once = tt;
  holds = λ t. refl;
  phase = free refl (λ t. refl) (inl refl);
}

wake-IsSafe :
    {s : System} (m : Machine) (t : ℕ)
    → IsSafe s
    → elem t s.lock.sema.wait_list ≡ false
    → Wakes t s.machine m
    → IsSafe (record s { machine = m })
wake-IsSafe {s = s} m t i out w =
    move m i w.scheduled w.same_idle
      (λ u h ne.
        ap is_parked
          (w.others u (λ e. ground (arith, ap (λ v. elem v s.lock.sema.wait_list) e, out, h)))
        ∙ i.stopped u h)
      (λ u l p. elim (Bool-cases (u == t)) [
        | inl e ↦ ap (λ v. is_parked (m.task v).status) (ground (arith, e)) ∙ w.awake
        | inr e ↦ ap is_parked (w.others u (ground (arith, e))) ∙ p
      ])

same_of : (u t : ℕ) → (u == t) ≡ true → u ≡ t
same_of u t e = ground (arith, e)

frame-IsSafe :
    {s : System} (stops : Bool) (m : Machine)
    → IsSafe s
    → (stops && in_loop (s.place s.machine.running)) ≡ false
    → Frame stops s.machine m
    → IsSafe (record s { machine = m })
frame-IsSafe {s = s} stops m i out f =
    move m i f.scheduled f.same_idle (λ u h ne. f.parks u ne (i.stopped u h))
      (λ u l p.
        f.wakes u
          (elim (Bool-cases (u == s.machine.running)) [
            | inl e ↦ ground (
              arith,
              out,
              subst (λ v. in_loop (s.place v) ≡ true) (same_of u s.machine.running e) l,
            )
            | inr e ↦ ground (arith, e)
          ])
          p)

Step-IsSafe : {s s' : System} → IsSafe s → Step s s' → IsSafe s'
Step-IsSafe i (enter at ne no_holder) = enter-IsSafe i at ne
Step-IsSafe i (round r at e) = Returns-ok (round-IsSafe i at) e
Step-IsSafe i (own at) = own-IsSafe i at
Step-IsSafe i (again at h) = again-IsSafe i
Step-IsSafe i (release r at e) = release-IsSafe r i at e
Step-IsSafe i (up r at e) = Returns-ok (up-IsSafe i at) e
Step-IsSafe i (clock m off e) = frame-IsSafe false m i refl (timer-Frame i.threads off e)
Step-IsSafe i (give_way m e) = frame-IsSafe false m i refl (thread_yield-Frame i.threads e)
Step-IsSafe i (sleep m stat out e) = frame-IsSafe true m i out (thread_block-Frame i.threads stat e)
Step-IsSafe i (wake m t out e) = wake-IsSafe m t i out (thread_unblock-Wakes t i.threads e)
Step-IsSafe i (interrupts off) =
    move _ i (intr-IsScheduled off i.threads) refl (λ u h ne. i.stopped u h) (λ u l p. p)

pub Reachable-IsSafe : {m : Machine} {s : System} → IsScheduled m → Reachable (start m) s → IsSafe s
Reachable-IsSafe {m = m} k here = start-IsSafe m k
Reachable-IsSafe k (there r step) = Step-IsSafe (Reachable-IsSafe k r) step

module _ {m : Machine} {s : System} (k : IsScheduled m) (r : Reachable (start m) s) where
  -- In every state that the steps reach from a fresh lock, two threads that have returned from sema_down
  -- and have not called sema_up are the same.
  pub mutual_exclusion :
      (t u : ℕ) → critical (s.place t) ≡ true → critical (s.place u) ≡ true → t ≡ u
  mutual_exclusion t u a b = one_critical (Reachable-IsSafe k r).phase t u a b

  -- In every state that the steps reach from a fresh lock a round of sema_down, and sema_up, end well where a thread comes to them, and leave
  -- exactly one thread running; no ASSERT and no BUG() of the two is reached.
  pub semaphore_runs :
      (s.place s.machine.running ≡ downing
        → Returns (λ q. IsScheduled q.2) (sema_round s.lock.sema s.machine))
      × (s.place s.machine.running ≡ leaving
          → Returns (λ q. IsScheduled q.1) (sema_up s.lock.sema s.machine))
  semaphore_runs = (
    λ at. Returns-mono (round-IsSafe (Reachable-IsSafe k r) at) (λ q i. i.threads),
    λ at. Returns-mono (up-IsSafe (Reachable-IsSafe k r) at) (λ q i. i.threads),
  )

  woken_of_Phase :
      Phase s.lock.sema s.place s.machine.task
      → s.lock.sema.value ≢ 0
      → s.lock.sema.wait_list ≢ []
      → (t : ℕ) × (in_loop (s.place t) ≡ true) × (is_parked (s.machine.task t).status ≡ false)
  woken_of_Phase (free v nobody (inl e)) nz ne = absurd (ne e)
  woken_of_Phase (free v nobody (inr w)) nz ne = w
  woken_of_Phase (held t v one) nz ne = absurd (nz v)

  -- In every state that the steps reach from a fresh lock, where threads wait and the semaphore is not 0, a
  -- thread in the loop of sema_down is awake.
  pub no_lost_wakeup :
      s.lock.sema.value ≢ 0
      → s.lock.sema.wait_list ≢ []
      → (t : ℕ) × (in_loop (s.place t) ≡ true) × (is_parked (s.machine.task t).status ≡ false)
  no_lost_wakeup = woken_of_Phase (Reachable-IsSafe k r).phase

  up_first :
      (w : ℕ) (ws : List ℕ)
      → IsSafe s
      → s.lock.sema.wait_list ≡ w ∷ ws
      → sema_up s.lock.sema s.machine
        ≡ ok (
          record { value = (s.lock.sema.value + 1) % 2 ^ 8; wait_list = ws },
          record (woken s.machine w) { intr_off = s.machine.intr_off },
        )
  unfolding sema_up wake_first
  up_first w ws i e =
      let first : elem w s.lock.sema.wait_list ≡ true = ap (elem w) e ∙ ground arith in
      let m' = record s.machine { intr_off = true } in
      let eq =
        thread_unblock-woken m' w (intr-IsScheduled true i.threads).queue (i.stopped w first) in
      let woke : wake_first (w ∷ ws) s.machine
          ≡ ok (ws, record (woken s.machine w) { intr_off = s.machine.intr_off }) =
        rw eq refl in
      rw (e, woke) refl

  -- In every state that the steps reach from a fresh lock, sema_up with a thread that waits, and a thread_yield after it, make the first waiter
  -- run and get through sema_down.
  pub handoff :
      (w : ℕ) (ws : List ℕ)
      → s.place s.machine.running ≡ leaving
      → s.lock.sema.wait_list ≡ w ∷ ws
      → Returns
          (λ q. (q.0 ≡ true) × (q.2.running ≡ w))
          (do
            freed ← sema_up s.lock.sema s.machine
            m' ← thread_yield freed.1
            sema_round freed.0 m')
  unfolding sema_round
  handoff w ws at e =
      let i = Reachable-IsSafe k r in
      let first : elem w s.lock.sema.wait_list ≡ true = ap (elem w) e ∙ ground arith in
      let sched = woken-IsScheduled i.threads w (i.stopped w first) in
      Returns-after _ (up_first w ws i e) (
        Returns-bind (thread_yield-Switch sched) (λ m' y.
          subst (Returns (λ q. (q.0 ≡ true) × (q.2.running ≡ w)))
            (sym (
              if-false {b = (s.lock.sema.value + 1) % 2 ^ 8 == 0} _ _
                (ground (arith, value_one i at))))
            (returns (refl, y.runs))))
