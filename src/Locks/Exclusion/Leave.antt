-- ===== src/Locks/Exclusion/Leave.antt =====
-- thread/sync.c: the writes of lock_acquire, and lock_release with sema_up, keep the invariant of Exclusion.
use kernel_travel.Base.{
  ℕ, ◌+◌, ◌-◌, ◌%◌, ◌^◌, ◌≡◌, refl, sym, ap, ◌∙◌, subst, ◌≢◌, ◌⊎◌, inl, inr, Bool, true, false, not,
  none, List, [], ◌∷◌, arith, ◌==◌, if◌then◌else◌, Bool-cases, ok, panic, ◌>>◌, assert, Returns,
  returns, Returns-bind, Returns-after, is_ok, value_or,
}
use kernel_travel.LinkedList.Chain.{elem, Distinct}
use kernel_travel.Threads.{Machine, Thread, is_parked}
use kernel_travel.Threads.Invariant.{IsScheduled}
use kernel_travel.Threads.Switch.{woken, thread_unblock-woken}
use kernel_travel.Threads.Frame.{thread_unblock-Wakes}
use kernel_travel.Locks.{
  Semaphore, Lock, is_holder, wake_first, sema_up, take_lock, take_again, lock_release,
}
use kernel_travel.Locks.System.{
  System, Place, outside, downing, taken, inside, leaving, in_loop, put_place, after_release,
}
use kernel_travel.Locks.Exclusion.{
  critical, is_inside, HasWoken, Phase, free, held, IsSafe, Phase-map,
}
use kernel_travel.Locks.Exclusion.Enter.{intr-IsScheduled}

critical-outside :
    {s : System}
    → IsSafe s
    → critical (s.place s.machine.running) ≡ true
    → s.machine.running ≢ s.machine.idle
critical-outside {s = s} i c e = ground (arith, ap critical (ap s.place e ∙ i.idle_out), c)

-- Two threads of which both have the lock are the same.
pub one_critical :
    {sema : Semaphore} {place : ℕ → Place} {task : ℕ → Thread}
    → Phase sema place task
    → (t u : ℕ) → critical (place t) ≡ true
    → critical (place u) ≡ true
    → t ≡ u
one_critical (free v nobody w) t u a b = absurd (ground (arith, nobody t, a))
one_critical (held h v one) t u a b = ground (arith, one t, one u, a, b)

-- The running thread goes from one place with the lock to another.
stay_IsSafe :
    {s : System} (p : Place) (lk : Lock)
    → IsSafe s
    → critical (s.place s.machine.running) ≡ true
    → critical p ≡ true
    → in_loop (s.place s.machine.running) ≡ false
    → lk.sema ≡ s.lock.sema
    → ((u : ℕ) → is_holder lk.holder u ≡ is_inside (put_place s.place s.machine.running p u))
    → IsSafe (record s { lock = lk; place = put_place s.place s.machine.running p })
stay_IsSafe {s = s} p lk i c c' l same holds =
    let ne = critical-outside i c in
    record {
      threads = i.threads;
      idle_out = ground (arith, i.idle_out, ne);
      stopped = λ u h. i.stopped u (ap (λ q. elem u q.wait_list) (sym same) ∙ h);
      waiting = λ u h. ground (arith, i.waiting u (ap (λ q. elem u q.wait_list) (sym same) ∙ h), l);
      once = subst (λ q. Distinct q.wait_list) (sym same) i.once;
      holds = holds;
      phase =
          subst (λ q. Phase q (put_place s.place s.machine.running p) s.machine.task) (sym same)
            (Phase-map (λ u. ground (arith, c, c')) (λ u h. ground (arith, l, h)) (λ u h k. k)
              i.phase);
    }

inside-critical : (p : Place) → is_inside p ≡ true → critical p ≡ true
inside-critical outside e = absurd (ground (arith, e))
inside-critical downing e = absurd (ground (arith, e))
inside-critical taken e = refl
inside-critical inside e = refl
inside-critical leaving e = refl

-- Where the running thread has the lock no other thread is inside.
others_out :
    {s : System}
    → IsSafe s
    → critical (s.place s.machine.running) ≡ true
    → (u : ℕ) → u ≢ s.machine.running
    → is_inside (s.place u) ≡ false
others_out {s = s} i c u ne = elim (Bool-cases (is_inside (s.place u))) [
  | inl e ↦ absurd (ne (one_critical i.phase u s.machine.running (inside-critical (s.place u) e) c))
  | inr e ↦ e
]

pub own-IsSafe :
    {s : System}
    → IsSafe s
    → s.place s.machine.running ≡ taken
    → IsSafe (record s {
      lock = take_lock s.lock s.machine.running;
      place = put_place s.place s.machine.running inside;
    })
unfolding take_lock
own-IsSafe {s = s} i at =
    stay_IsSafe inside (take_lock s.lock s.machine.running) i (ap critical at) refl (ap in_loop at)
      refl (λ u. ground (arith, others_out i (ap critical at) u))

pub again-IsSafe : {s : System} → IsSafe s → IsSafe (record s { lock = take_again s.lock })
unfolding take_again
again-IsSafe i = record {
  threads = i.threads;
  idle_out = i.idle_out;
  stopped = i.stopped;
  waiting = i.waiting;
  once = i.once;
  holds = i.holds;
  phase = i.phase;
}

release-cases :
    (a b c : Bool) (x y r : Bool × Lock)
    → (assert a >> (if b then panic else if c then ok x else ok y)) ≡ ok r
    → (x ≡ r) ⊎ (y ≡ r)
release-cases false b c x y r e = absurd (ground (arith, ap is_ok e))
release-cases true true c x y r e = absurd (ground (arith, ap is_ok e))
release-cases true false true x y r e = inl (ap (value_or x) e)
release-cases true false false x y r e = inr (ap (value_or y) e)

-- The system after lock_release, up to sema_up.
abbrev pub released : (s : System) → Bool × Lock → System
released s r = record s {
  lock = r.1;
  place = put_place s.place s.machine.running (after_release r.0);
}

pub release-IsSafe :
    {s : System} (r : Bool × Lock)
    → IsSafe s
    → s.place s.machine.running ≡ inside
    → lock_release s.lock s.machine.running ≡ ok r
    → IsSafe (released s r)
unfolding lock_release
release-IsSafe {s = s} r i at e = elim (release-cases (not (s.lock.acquire_nr == 0)) _ _ _ _ r e) [
  | inl last ↦
      subst (λ q. IsSafe (released s q)) last
        (stay_IsSafe leaving (record s.lock { acquire_nr = 0; holder = none }) i (ap critical at)
          refl (ap in_loop at) refl (λ u. ground (arith, others_out i (ap critical at) u)))
  | inr more ↦
      subst (λ q. IsSafe (released s q)) more
        (stay_IsSafe inside (record s.lock { acquire_nr = s.lock.acquire_nr - 1 }) i
          (ap critical at) refl (ap in_loop at) refl
          (λ u. ground (arith, i.holds u, ap is_inside at)))
]

-- The system after sema_up.
abbrev pub risen : (s : System) → Semaphore × Machine → System
risen s r = record {
  machine = r.1;
  lock = record s.lock { sema = r.0 };
  place = put_place s.place s.machine.running outside;
}

module _ {s : System} (i : IsSafe s) (at : s.place s.machine.running ≡ leaving) where
  pub value_zero : Phase s.lock.sema s.place s.machine.task → s.lock.sema.value ≡ 0
  value_zero (free v nobody w) = absurd (ground (arith, nobody s.machine.running, ap critical at))
  value_zero (held t v one) = v

  pub value_one : (s.lock.sema.value + 1) % 2 ^ 8 ≡ 1
  value_one = omega (arith, value_zero i.phase)

  nobody_left : (u : ℕ) → critical (put_place s.place s.machine.running outside u) ≡ false
  nobody_left u = elim (Bool-cases (critical (s.place u))) [
    | inl c ↦ ground (arith, one_critical i.phase u s.machine.running c (ap critical at))
    | inr c ↦ ground (arith, c)
  ]

  risen-IsSafe :
      (ws : List ℕ) (m' : Machine)
      → IsScheduled m'
      → m'.idle ≡ s.machine.idle
      → ((u : ℕ)
          → elem u ws ≡ true
          → (elem u s.lock.sema.wait_list ≡ true)
            × ((m'.task u).status ≡ (s.machine.task u).status))
      → Distinct ws
      → HasWoken ws (put_place s.place s.machine.running outside) m'.task
      → IsSafe (risen s (record { value = (s.lock.sema.value + 1) % 2 ^ 8; wait_list = ws }, m'))
  risen-IsSafe ws m' sched idle old d w = record {
    threads = sched;
    idle_out = ap (put_place s.place s.machine.running outside) idle ∙ ground (arith, i.idle_out);
    stopped = λ u h. ap is_parked (old u h).1 ∙ i.stopped u (old u h).0;
    waiting = λ u h. ground (arith, i.waiting u (old u h).0, ap in_loop at);
    once = d;
    holds = λ u. ground (arith, i.holds u, ap is_inside at);
    phase = free value_one nobody_left w;
  }

  up_from :
      (ws : List ℕ)
      → ws ≡ s.lock.sema.wait_list
      → Returns
          (λ r.
            IsSafe
              (risen s (record { value = (s.lock.sema.value + 1) % 2 ^ 8; wait_list = r.0 }, r.1)))
          (wake_first ws s.machine)
  unfolding wake_first
  up_from [] e =
      returns
        (risen-IsSafe [] s.machine i.threads refl (λ u h. absurd (ground (arith, h))) tt (inl refl))
  up_from (b ∷ bs) e =
      let first : elem b s.lock.sema.wait_list ≡ true = ap (elem b) (sym e) ∙ ground arith in
      let d : Distinct (b ∷ bs) = subst Distinct (sym e) i.once in
      let m = record s.machine { intr_off = true } in
      let sched = intr-IsScheduled true i.threads in
      let eq = thread_unblock-woken m b sched.queue (i.stopped b first) in
      let w = thread_unblock-Wakes b sched eq in
      Returns-after _ eq (
        returns (
          risen-IsSafe bs (record (woken m b) { intr_off = s.machine.intr_off })
            (intr-IsScheduled s.machine.intr_off w.scheduled) refl
            (λ u h. (
              ap (elem u) (sym e) ∙ ground (arith, h),
              w.others u (λ k. ground (arith, d.0, h, ap (λ v. elem v bs) k)),
            ))
            d.1 (inr (b, ground (arith, i.waiting b first, ap in_loop at), w.awake))))

  pub up-IsSafe : Returns (λ r. IsSafe (risen s r)) (sema_up s.lock.sema s.machine)
  unfolding sema_up
  up-IsSafe = Returns-bind (up_from s.lock.sema.wait_list refl) (λ r k. returns k)
