-- ===== src/Threads.antt =====
-- thread/thread.c and intr_timer_handler of drivers/timer.c: the state of the threads, the ready queue
-- and the switches between threads on the one CPU. A thread is known by the address of its task_struct.
-- A list of tags is the sequence of its threads, which LinkedList shows the C lists to be. What the
-- hardware does at a switch (the registers, the page table, the clock) is not part of the state: a switch
-- is a change of the running thread, and what stands behind a switch in the C text runs when the thread
-- is on again.
pub mod Invariant
pub mod Switch
pub mod Keep
pub mod Fair
pub mod Frame
pub mod Tests
use kernel_travel.Base.{
  ℕ, zero, suc, ◌+◌, ◌-◌, ◌*◌, ◌/◌, ◌%◌, ◌^◌, ◌≤◌, ◌<◌, min, max, bit_and, bit_or, bit_xor, ◌≡◌,
  refl, sym, ap, ◌∙◌, subst, ◌≢◌, ◌↔◌, ◌⊎◌, inl, inr, Bool, true, false, not, ◌&&◌, ◌||◌, Option,
  none, some, List, [], ◌∷◌, ◌++◌, map, arith, ltb, leb, ◌==◌, if◌then◌else◌, u32, u64, ==_iff,
  ltb→lt, lt→ltb, le→ltb, Bool-cases, Option-cases, all_below, all_below_sound, length, get_elem?,
  get_or, set, take, drop, replicate, length-append, length-set, length-replicate,
  get_elem?-eq-get_or, get_elem?-eq-none, get_or-set_self, get_or-set_ne, get_or-replicate, Outcome,
  ok, panic, fault, spin, ◌>>=◌, ◌>>◌, assert, present, Returns, returns, Returns-bind,
  Returns-mono, u32_small, u64_small, bind-eq, bit_or-high, ℤ, pos, negsuc, sub_ℕ,
  get_elem?-set_self, get_elem?-set_ne, get_elem?-in, Returns-result,
}
use kernel_travel.LinkedList.Chain.{elem}

pub data Status : Type 0 where
  task_running task_ready task_blocked task_waiting task_hanging task_died : Status

-- the fields of `struct task_struct` that the switches use
pub record Thread : Type 0 where
  pub status : Status
  pub priority : ℕ
  pub ticks : ℕ
  pub elapsed_ticks : ℕ

-- The thread that runs, all task_structs, thread_ready_list, idle_thread, the global `ticks`, and whether
-- interrupts are off.
pub record Machine : Type 0 where
  pub running : ℕ
  pub task : ℕ → Thread
  pub ready : List ℕ
  pub idle : ℕ
  pub now : ℕ
  pub intr_off : Bool

abbrev pub is_running : Status → Bool
is_running task_running = true
is_running _ = false

abbrev pub is_ready : Status → Bool
is_ready task_ready = true
is_ready _ = false

-- stat==TASK_BLOCKED || stat==TASK_WAITING || stat==TASK_HANGING
abbrev pub is_parked : Status → Bool
is_parked task_blocked = true
is_parked task_waiting = true
is_parked task_hanging = true
is_parked _ = false

-- A write to the task_struct at an address.
abbrev pub put : (ℕ → Thread) → ℕ → Thread → ℕ → Thread
put task t v u = if u == t then v else task u

abbrev pub set_status : Machine → ℕ → Status → Machine
set_status m t s = record m { task = put m.task t (record (m.task t) { status = s }) }

-- The interrupts are off inside and as before afterwards.
unfoldable pub thread_unblock : Machine → ℕ → Outcome Machine
thread_unblock m t =
    assert (is_parked (m.task t).status)
    >> (let woken = set_status m t task_ready in
        if elem t m.ready then panic else ok (record woken { ready = t ∷ m.ready }))

-- The first branch of schedule: a thread that could run on goes to the end of the queue.
unfoldable pub put_back : Machine → Outcome Machine
put_back m =
    let cur = m.task m.running in
    if is_running cur.status
    then assert (not (elem m.running m.ready))
      >> ok (record m {
        ready = m.ready ++ m.running ∷ [];
        task = put m.task m.running (record cur { ticks = cur.priority; status = task_ready });
      })
    else ok m

-- if (list_empty(&thread_ready_list)) thread_unblock(idle_thread);
unfoldable pub wake_idle : Machine → List ℕ → Outcome Machine
unfolding thread_unblock
wake_idle m [] = thread_unblock m m.idle
wake_idle m (t ∷ ts) = ok m

-- The first ready thread becomes the running one.
unfoldable pub run_next : Machine → List ℕ → Outcome Machine
run_next m [] = fault
run_next m (t ∷ ts) = ok (record (set_status m t task_running) { ready = ts; running = t })

unfoldable pub schedule : Machine → Outcome Machine
unfolding put_back wake_idle run_next
schedule m = assert m.intr_off >> (do m ← put_back m; m ← wake_idle m m.ready; run_next m m.ready)

unfoldable pub thread_block : Machine → Status → Outcome Machine
unfolding schedule
thread_block m stat =
    assert (is_parked stat)
    >> (assert (is_running (m.task m.running).status)
        >> schedule (set_status (record m { intr_off = true }) m.running stat))

unfoldable pub thread_preempt : Machine → ℕ → Outcome Machine
unfolding thread_unblock schedule
thread_preempt m t = do m ← thread_unblock m t; schedule (record m { intr_off = true })

unfoldable pub thread_yield : Machine → Outcome Machine
unfolding schedule
thread_yield m =
    assert (not (elem m.running m.ready))
    >> schedule (
        set_status (record m { intr_off = true; ready = m.ready ++ m.running ∷ [] }) m.running
          task_ready)

-- The tick of the clock: one tick of the running thread, or the end of its turn.
unfoldable pub intr_timer_handler : Machine → Outcome Machine
unfolding schedule
intr_timer_handler m =
    let cur = m.task m.running in
    let elapsed = record cur { elapsed_ticks = u32 (cur.elapsed_ticks + 1) } in
    let ticked = record m { task = put m.task m.running elapsed; now = u64 (m.now + 1) } in
    if cur.ticks == 0
    then schedule ticked
    else ok
        (record ticked { task = put m.task m.running (record elapsed { ticks = cur.ticks - 1 }) })

-- `ticks` of them, one after the other.
unfoldable pub run_ticks : ℕ → Machine → Outcome Machine
unfolding intr_timer_handler
run_ticks zero m = ok m
run_ticks (suc n) m = do m ← intr_timer_handler m; run_ticks n m
