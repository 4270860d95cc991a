-- ===== src/Pipe/Ring.antt =====
-- drivers/ioqueue.c: the ring is a bounded queue of bytes.

use kernel_travel.Base.{
  ℕ, zero, suc, ◌+◌, ◌-◌, ◌%◌, ◌<◌, ◌≡◌, refl, sym, ap, ◌∙◌, subst, ◌≢◌, ◌↔◌, true, false, Option,
  none, some, List, [], ◌∷◌, arith, ◌==◌, length, get_or, get_elem?-eq-get_or, present, Returns,
  returns, Returns-bind, Returns-assert, Returns-after, assert_run,
}
use kernel_travel.Base.{present}
use kernel_travel.Pipe.{
  Ioqueue, bufsize, ioq_empty, done, ioq_getchar, ioq_length, next_pos, wakeup,
}
use kernel_travel.Threads.{Machine, is_parked}
use kernel_travel.Threads.Invariant.{IsScheduled}
use kernel_travel.Threads.Switch.{thread_unblock-woken}
use kernel_travel.Threads.Frame.{Wakes, thread_unblock-Wakes}

pub record IsValid (q : Ioqueue) : Type 0 where
  pub storage : length q.buf ≡ bufsize
  pub head_in : q.head < bufsize
  pub tail_in : q.tail < bufsize

-- The `n` bytes from index `t` on, round the ring.
abbrev pub window : List ℕ → ℕ → ℕ → List ℕ
window buf t zero = []
window buf t (suc n) = get_or buf t 0 ∷ window buf ((t + 1) % bufsize) n

-- The bytes in the queue, the oldest first.
abbrev pub contents : Ioqueue → List ℕ
contents q = window q.buf q.tail ((q.head + bufsize - q.tail) % bufsize)

pub length-window : (buf : List ℕ) (t n : ℕ) → length (window buf t n) ≡ n
length-window buf t zero = refl
length-window buf t (suc n) = ap suc (length-window buf ((t + 1) % bufsize) n)

window-step :
    (buf : List ℕ) (t n : ℕ)
    → n ≢ 0
    → window buf t n ≡ get_or buf t 0 ∷ window buf ((t + 1) % bufsize) (n - 1)
window-step buf t zero h = absurd (h refl)
window-step buf t (suc n) h =
    ap (λ k. get_or buf t 0 ∷ window buf ((t + 1) % bufsize) k) (omega arith)

-- A waiter is stopped.
abbrev pub IsAsleep : Machine → Option ℕ → Type 0
IsAsleep m none = Unit
IsAsleep m (some t) = is_parked (m.task t).status ≡ true

-- The waiter, if any, is woken, and no other thread.
abbrev pub Woke : Machine → Option ℕ → Machine → Type 0
Woke m none m' = m' ≡ m
Woke m (some t) m' = Wakes t m m'

wakeup-Woke :
    (m : Machine) (waiter : Option ℕ)
    → IsScheduled m
    → IsAsleep m waiter
    → Returns (Woke m waiter) (wakeup m waiter)
unfolding wakeup
wakeup-Woke m none s asleep = returns refl
wakeup-Woke m (some t) s asleep =
    let run = thread_unblock-woken m t s.queue asleep in
    subst (Returns (Wakes t m)) (sym run) (returns (thread_unblock-Wakes t s run))

module _ {q : Ioqueue} (v : IsValid q) where
  -- ioq_length is the number of bytes in the queue, which is full at one byte less than the array has.
  pub ioq_length-contents :
      (ioq_length q ≡ length (contents q))
      × (((next_pos q.head == q.tail) ≡ true) ↔ (length (contents q) ≡ bufsize - 1))
      × (((q.head == q.tail) ≡ true) ↔ (length (contents q) ≡ 0))
  unfolding ioq_length next_pos
  ioq_length-contents =
      rw (length-window) (
        ground arith,
        (λ h. ground arith, λ h. ground arith),
        (λ h. ground arith, λ h. ground arith),
      )

  -- ioq_getchar on a valid queue with bytes, with interrupts off, one thread running and the waiting producer,
  -- if any, stopped, ends well: it takes the oldest byte, empties the producer's slot and wakes the producer
  -- that waited and no other thread; the consumer's slot and the other bytes are as before.
  pub ioq_getchar-first :
      (m : Machine) (c : ℕ) (rest : List ℕ)
      → m.intr_off ≡ true
      → IsScheduled m
      → IsAsleep m q.producer
      → contents q ≡ c ∷ rest
      → Returns
          (λ r.
            (m' : Machine) × (q' : Ioqueue) × (r ≡ done c m' q')
            × Woke m q.producer m'
            × IsValid q'
            × (contents q' ≡ rest)
            × (q'.producer ≡ none)
            × (q'.consumer ≡ q.consumer))
          (ioq_getchar m q)
  unfolding ioq_getchar ioq_empty next_pos
  ioq_getchar-first m c rest off s asleep e =
      let n : ℕ = (q.head + bufsize - q.tail) % bufsize in
      let some_bytes : n ≢ 0 = λ z. not_nil n q.tail z e in
      let not_empty : (q.head == q.tail) ≡ false = ground (arith, v.tail_in) in
      let taken : get_or q.buf q.tail 0 ∷ window q.buf ((q.tail + 1) % bufsize) (n - 1) ≡ c ∷ rest =
        sym (window-step q.buf q.tail n some_bytes) ∙ e in
      let first : get_or q.buf q.tail 0 ≡ c = cc in
      let fewer : (q.head + bufsize - (q.tail + 1) % bufsize) % bufsize ≡ n - 1 =
        omega (arith, v.head_in, v.tail_in) in
      let place = get_elem?-eq-get_or q.buf q.tail 0 (omega (arith, v.storage, v.tail_in)) in
      Returns-assert off (
        Returns-after _ (assert_run _ off) (
          rw not_empty (
            Returns-after _ (ap present (place ∙ ap some first)) (
              Returns-bind (wakeup-Woke m q.producer s asleep) λ m' woke. returns (
                m',
                record q { tail = (q.tail + 1) % bufsize; producer = none },
                refl,
                woke,
                record { storage = v.storage; head_in = v.head_in; tail_in = omega arith },
                rw fewer (cc taken),
                refl,
                refl,
              )))))
    where
      not_nil : (n t : ℕ) → n ≡ 0 → window q.buf t n ≡ c ∷ rest → ⊥
      not_nil zero t z w = cc
      not_nil (suc n) t z w = absurd (omega arith)
