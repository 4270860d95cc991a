-- ===== src/Threads/Frame.antt =====
-- thread/thread.c: which threads the switches stop and wake.
use kernel_travel.Base.{
  ℕ, zero, suc, ◌≡◌, refl, sym, ap, ◌∙◌, ◌≢◌, inl, inr, Bool, true, false, ◌&&◌, List, [], ◌∷◌,
  arith, ◌==◌, Bool-cases, ok, returns, if-true, if-false, Returns-ok, assert-true,
}
use kernel_travel.LinkedList.Chain.{elem, elem-append}
use kernel_travel.Threads.{
  Status, Machine, is_running, is_parked, thread_block, thread_unblock, thread_yield,
  intr_timer_handler,
}
use kernel_travel.Threads.Invariant.{IsScheduled, parked-else, running-else}
use kernel_travel.Threads.Switch.{Switch, next_of, put_last, thread_unblock-woken}
use kernel_travel.Threads.Keep.{
  parked, yielded, ticked, thread_block-Switch, thread_yield-Switch, timer-Switch, timer-ticked,
  ticked-IsScheduled, woken-IsScheduled,
}

-- No thread but the idle one is woken from `m` to `m'`, and none but the one that ran, if `stops`, is
-- stopped.
pub record Frame (stops : Bool) (m m' : Machine) : Type 0 where
  pub scheduled : IsScheduled m'
  pub same_idle : m'.idle ≡ m.idle
  pub parks :
      (u : ℕ)
      → u ≢ m.idle
      → is_parked (m.task u).status ≡ true
      → is_parked (m'.task u).status ≡ true
  pub wakes :
      (u : ℕ)
      → (stops && u == m.running) ≡ false
      → is_parked (m.task u).status ≡ false
      → is_parked (m'.task u).status ≡ false

next-ne : (q : List ℕ) (idle u : ℕ) → u ≢ idle → elem u q ≡ false → (u == next_of q idle) ≡ false
next-ne [] idle u ne out = ground arith
next-ne (t ∷ ts) idle u ne out = ground arith

-- A switch from `mid` gives the frame, where `mid` differs from `m` in the running thread only.
module _ (stops : Bool) (m mid m' : Machine) (s : IsScheduled m) (w : Switch mid m')
    (idle : mid.idle ≡ m.idle) (ready : (u : ℕ) → u ≢ m.running → elem u mid.ready ≡ elem u m.ready)
    (rest : (u : ℕ) → u ≢ m.running → (mid.task u).status ≡ (m.task u).status)
    (cur : is_parked (mid.task m.running).status ≡ stops) where
  frame-parks :
      (u : ℕ)
      → u ≢ m.idle
      → is_parked (m.task u).status ≡ true
      → is_parked (m'.task u).status ≡ true
  frame-parks u ne p =
      let f = parked-else (m.task u).status p in
      let other : u ≢ m.running = λ e. ground (arith, s.one_runs u, f) in
      let out : elem u mid.ready ≡ false = ready u other ∙ sym (s.queue.queued u) ∙ f.0 in
      let off : (u == m'.running) ≡ false =
        ap (λ r. u == r) w.runs ∙ next-ne mid.ready mid.idle u (λ e. ne (e ∙ idle)) out in
      ap is_parked (w.statuses u ∙ if-false _ _ off ∙ rest u other) ∙ p

  frame-wakes :
      (u : ℕ)
      → (stops && u == m.running) ≡ false
      → is_parked (m.task u).status ≡ false
      → is_parked (m'.task u).status ≡ false
  frame-wakes u off p = elim (Bool-cases (u == m'.running)) [
    | inl on ↦ ap is_parked (w.statuses u ∙ if-true _ _ on)
    | inr on ↦ ap is_parked (w.statuses u ∙ if-false _ _ on) ∙ (elim (Bool-cases (u == m.running)) [
      | inl e ↦
          ap (λ v. is_parked (mid.task v).status) (ground (arith, e)) ∙ cur ∙ ground (arith, e, off)
      | inr e ↦ ap is_parked (rest u (ground (arith, e))) ∙ p
    ])
  ]

  frame_of : Frame stops m m'
  frame_of = record {
    scheduled = w.scheduled;
    same_idle = w.same_idle ∙ idle;
    parks = frame-parks;
    wakes = frame-wakes;
  }

module _ {m m' : Machine} (s : IsScheduled m) where
  pub thread_block-Frame : (stat : Status) → thread_block m stat ≡ ok m' → Frame true m m'
  unfolding thread_block
  thread_block-Frame stat e =
      let p = assert-true (is_parked stat) _ e in
      let w = Returns-ok (thread_block-Switch s stat p) e in
      frame_of true m (parked m stat) m' s w refl (λ u ne. refl) (λ u ne. ground arith)
        (ground (arith, p))

  pub thread_yield-Frame : thread_yield m ≡ ok m' → Frame false m m'
  thread_yield-Frame e =
      let w = Returns-ok (thread_yield-Switch s) e in
      frame_of false m (yielded m) m' s w refl
        (λ u ne. ground (arith, elem-append u m.ready (m.running ∷ []))) (λ u ne. ground arith)
        (ground arith)

  timer-Frame_at :
      (n : ℕ)
      → (m.task m.running).ticks ≡ n
      → m.intr_off ≡ true
      → intr_timer_handler m ≡ ok m'
      → Frame false m m'
  timer-Frame_at zero t off e =
      let w = Returns-ok (timer-Switch s off t) e in
      frame_of false m (put_last (ticked m (m.task m.running).ticks)) m' s w refl
        (λ u ne. ground (arith, elem-append u m.ready (m.running ∷ []))) (λ u ne. ground arith)
        (ground arith)
  timer-Frame_at (suc n) t off e =
      let k = ticked-IsScheduled s n in
      Returns-ok {P = Frame false m}
        (returns (record {
          scheduled = k;
          same_idle = refl;
          parks = λ u ne p. ground (arith, p);
          wakes = λ u no_stop p. ground (arith, p);
        }))
        (sym (timer-ticked s n t) ∙ e)

  pub timer-Frame : m.intr_off ≡ true → intr_timer_handler m ≡ ok m' → Frame false m m'
  timer-Frame = timer-Frame_at (m.task m.running).ticks refl

-- thread_unblock wakes the one thread, which was stopped.
pub record Wakes (t : ℕ) (m m' : Machine) : Type 0 where
  pub scheduled : IsScheduled m'
  pub same_idle : m'.idle ≡ m.idle
  pub same_running : m'.running ≡ m.running
  pub first : m'.ready ≡ t ∷ m.ready
  pub awake : is_parked (m'.task t).status ≡ false
  pub others : (u : ℕ) → u ≢ t → (m'.task u).status ≡ (m.task u).status

pub thread_unblock-Wakes :
    {m m' : Machine} (t : ℕ) → IsScheduled m → thread_unblock m t ≡ ok m' → Wakes t m m'
unfolding thread_unblock
thread_unblock-Wakes {m = m} t s e =
    let p = assert-true (is_parked (m.task t).status) _ e in
    Returns-ok {P = Wakes t m}
      (returns (record {
        scheduled = woken-IsScheduled s t p;
        same_idle = refl;
        same_running = refl;
        first = refl;
        awake = ground arith;
        others = λ u ne. ground arith;
      }))
      (sym (thread_unblock-woken m t s.queue p) ∙ e)

-- The thread that blocks is stopped, unless it is the idle thread.
pub thread_block-stops :
    {m m' : Machine} (stat : Status)
    → IsScheduled m
    → m.running ≢ m.idle
    → thread_block m stat ≡ ok m'
    → is_parked (m'.task m.running).status ≡ true
unfolding thread_block
thread_block-stops {m = m} {m' = m'} stat s ne e =
    let p = assert-true (is_parked stat) _ e in
    let w = Returns-ok (thread_block-Switch s stat p) e in
    let run : is_running (m.task m.running).status ≡ true = ground (arith, s.one_runs m.running) in
    let out = sym (s.queue.queued m.running) ∙ (running-else (m.task m.running).status run).0 in
    let off : (m.running == m'.running) ≡ false =
      ap (λ r. m.running == r) w.runs ∙ next-ne m.ready m.idle m.running ne out in
    ap is_parked (w.statuses m.running ∙ if-false _ _ off) ∙ ground (arith, p)
