-- ===== src/Locks.antt =====
-- thread/sync.c: semaphores and locks, on the threads of Threads. sema_down turns the interrupts off, so
-- that one round of its loop is one step of the system; what lies between two rounds is a switch to
-- other threads. lock_acquire and lock_release run with the interrupts on: their parts are steps of their
-- own, between which the clock may take the CPU away.
pub mod System
pub mod Exclusion
mod Tests
use kernel_travel.Base.{
  ℕ, zero, suc, ◌+◌, ◌-◌, ◌*◌, ◌/◌, ◌%◌, ◌^◌, ◌≤◌, ◌<◌, min, max, bit_and, bit_or, bit_xor, ◌≡◌,
  refl, sym, ap, ◌∙◌, subst, ◌≢◌, ◌↔◌, ◌⊎◌, inl, inr, Bool, true, false, not, ◌&&◌, ◌||◌, Option,
  none, some, List, [], ◌∷◌, ◌++◌, map, arith, ltb, leb, ◌==◌, if◌then◌else◌, u32, u64, ==_iff,
  ltb→lt, lt→ltb, le→ltb, Bool-cases, Option-cases, all_below, all_below_sound, length, get_elem?,
  get_or, set, take, drop, replicate, length-append, length-set, length-replicate,
  get_elem?-eq-get_or, get_elem?-eq-none, get_or-set_self, get_or-set_ne, get_or-replicate, Outcome,
  ok, panic, fault, spin, ◌>>=◌, ◌>>◌, assert, present, Returns, returns, Returns-bind,
  Returns-mono, u32_small, u64_small, bind-eq, bit_or-high, ℤ, pos, negsuc, sub_ℕ,
  get_elem?-set_self, get_elem?-set_ne, get_elem?-in, Returns-result, Returns-assert, if-true,
  if-false, bind_assoc,
}
use kernel_travel.LinkedList.Chain.{elem}
use kernel_travel.Threads.{Machine, Status, task_blocked, thread_block, thread_unblock}

pub record Semaphore : Type 0 where
  pub value : ℕ
  pub wait_list : List ℕ

-- `holder` is none for NULL.
pub record Lock : Type 0 where
  pub holder : Option ℕ
  pub sema : Semaphore
  pub acquire_nr : ℕ

unfoldable pub sema_init : ℕ → Semaphore
sema_init value = record { value = value % 2 ^ 8; wait_list = [] }

-- A round of the loop of sema_down by the running thread: true if the loop is over, with the decrement
-- that follows it, and false if the thread has blocked and goes round again when it is on again.
unfoldable pub sema_round : Semaphore → Machine → Outcome (Bool × Semaphore × Machine)
unfolding thread_block
sema_round sema m =
    if sema.value == 0
    then assert (not (elem m.running sema.wait_list)) >> (do
      m' ← thread_block (record m { intr_off = true }) task_blocked
      ok (false, record sema { wait_list = sema.wait_list ++ m.running ∷ [] }, m'))
    else ok (true, record sema { value = (sema.value + 2 ^ 8 - 1) % 2 ^ 8 }, m)

-- The first waiter is woken, if there is one.
unfoldable pub wake_first : List ℕ → Machine → Outcome (List ℕ × Machine)
unfolding thread_unblock
wake_first [] m = ok ([], m)
wake_first (b ∷ bs) m = do
  m' ← thread_unblock (record m { intr_off = true }) b
  ok (bs, record m' { intr_off = m.intr_off })

unfoldable pub sema_up : Semaphore → Machine → Outcome (Semaphore × Machine)
unfolding wake_first
sema_up sema m = do
  r ← wake_first sema.wait_list m
  ok (record { value = (sema.value + 1) % 2 ^ 8; wait_list = r.0 }, r.1)

unfoldable pub lock_init : Lock
unfolding sema_init
lock_init = record { holder = none; sema = sema_init 1; acquire_nr = 0 }

abbrev pub is_holder : Option ℕ → ℕ → Bool
is_holder none t = false
is_holder (some h) t = h == t

-- The end of lock_acquire, after sema_down, and its other branch.
unfoldable pub take_lock : Lock → ℕ → Lock
take_lock lk t = record lk { holder = some t; acquire_nr = 1 }

unfoldable pub take_again : Lock → Lock
take_again lk = record lk { acquire_nr = u32 (lk.acquire_nr + 1) }

-- lock_release up to sema_up, and whether sema_up follows.
unfoldable pub lock_release : Lock → ℕ → Outcome (Bool × Lock)
lock_release lk t =
    assert (not (lk.acquire_nr == 0))
    >> (if not (is_holder lk.holder t)
        then panic
        else if lk.acquire_nr == 1
        then ok (true, record lk { acquire_nr = 0; holder = none })
        else ok (false, record lk { acquire_nr = lk.acquire_nr - 1 }))
