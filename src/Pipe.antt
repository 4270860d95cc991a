-- ===== src/Pipe.antt =====
-- drivers/ioqueue.c and the pipe functions of fs/fd.c: the ring of bytes behind a pipe. The
-- threads are those of Threads. A call that has to sleep returns `blocked` with the state in which it sleeps.
-- `bytes` of the char array are numbers below 256.
pub mod Ring
pub mod Checks
mod Tests
use kernel_travel.Base.{
  ℕ, zero, suc, ◌+◌, ◌-◌, ◌*◌, ◌/◌, ◌%◌, ◌^◌, ◌≤◌, ◌<◌, min, max, bit_and, bit_or, bit_xor, ◌≡◌,
  refl, sym, ap, ◌∙◌, subst, ◌≢◌, ◌↔◌, ◌⊎◌, inl, inr, Bool, true, false, not, ◌&&◌, ◌||◌, Option,
  none, some, List, [], ◌∷◌, ◌++◌, map, arith, ltb, leb, ◌==◌, if◌then◌else◌, u32, u64, ==_iff,
  ltb→lt, lt→ltb, le→ltb, Bool-cases, Option-cases, all_below, all_below_sound, length, get_elem?,
  get_or, set, take, drop, replicate, length-append, length-set, length-replicate,
  get_elem?-eq-get_or, get_elem?-eq-none, get_or-set_self, get_or-set_ne, get_or-replicate, Outcome,
  ok, panic, fault, spin, ◌>>=◌, ◌>>◌, assert, present, Returns, returns, Returns-bind,
  Returns-mono, u32_small, u64_small, bind-eq, bit_or-high, ℤ, pos, negsuc, sub_ℕ,
  get_elem?-set_self, get_elem?-set_ne, get_elem?-in, Returns-result,
}
use kernel_travel.Threads.{Machine, task_blocked, thread_block, thread_unblock}

abbrev pub bufsize : ℕ
bufsize = 2048

-- `struct ioqueue`; `flag` is false once the pipe is closed.
pub record Ioqueue : Type 0 where
  pub flag : Bool
  pub lock : Option ℕ
  pub producer : Option ℕ
  pub consumer : Option ℕ
  pub buf : List ℕ
  pub head : ℕ
  pub tail : ℕ

unfoldable pub ioqueue_init : Ioqueue → Ioqueue
ioqueue_init ioq = record ioq {
  flag = true;
  lock = none;
  producer = none;
  consumer = none;
  head = 0;
  tail = 0;
}

unfoldable pub next_pos : ℕ → ℕ
next_pos p = (p + 1) % bufsize

unfoldable pub ioq_full : Machine → Ioqueue → Outcome Bool
unfolding next_pos
ioq_full m ioq = do assert m.intr_off; ok (next_pos ioq.head == ioq.tail)

unfoldable pub ioq_empty : Machine → Ioqueue → Outcome Bool
ioq_empty m ioq = do assert m.intr_off; ok (ioq.head == ioq.tail)

-- What a call comes to: it is done; or the caller sleeps as the waiter of the queue; or it sleeps on the lock
-- that another waiter holds.
pub data Step (A : Type 0) : Type 0 where
  done : A → Machine → Ioqueue → Step A
  blocked : Machine → Ioqueue → Step A
  blocked_on_lock : Step A

abbrev pub is_none : Option ℕ → Bool
is_none none = true
is_none (some t) = false

-- lock_acquire; ioq_wait on the consumer's slot. The lock stays held while the thread sleeps.
unfoldable pub wait_consumer : Machine → Ioqueue → Outcome (Step ℕ)
wait_consumer m ioq =
    if is_none ioq.lock
    then (do
      assert (is_none ioq.consumer)
      m' ← thread_block m task_blocked
      ok (blocked m' (record ioq { lock = some m.running; consumer = some m.running })))
    else ok blocked_on_lock

unfoldable pub wait_producer : Machine → Ioqueue → Outcome (Step (Unit {0}))
wait_producer m ioq =
    if is_none ioq.lock
    then (do
      assert (is_none ioq.producer)
      m' ← thread_block m task_blocked
      ok (blocked m' (record ioq { lock = some m.running; producer = some m.running })))
    else ok blocked_on_lock

-- if (*waiter != NULL) wakeup(waiter); the slot is emptied by the caller.
unfoldable pub wakeup : Machine → Option ℕ → Outcome Machine
wakeup m none = ok m
wakeup m (some waiter) = thread_unblock m waiter

-- lock_release, when the waiter runs again
unfoldable pub resume : Ioqueue → Ioqueue
resume ioq = record ioq { lock = none }

-- One turn of the caller's loop. A closed and empty queue gives the byte '@'.
unfoldable pub ioq_getchar : Machine → Ioqueue → Outcome (Step ℕ)
unfolding ioq_empty next_pos wait_consumer wakeup
ioq_getchar m ioq = do
  assert m.intr_off
  empty ← ioq_empty m ioq
  (if empty then (if ioq.flag then wait_consumer m ioq else ok (done b'@' m ioq)) else (do
    byte ← present (get_elem? ioq.buf ioq.tail)
    m' ← wakeup m ioq.producer
    ok (done byte m' (record ioq { tail = next_pos ioq.tail; producer = none }))))

unfoldable pub ioq_putchar : Machine → Ioqueue → ℕ → Outcome (Step (Unit {0}))
unfolding ioq_full next_pos wait_producer wakeup
ioq_putchar m ioq byte = do
  assert m.intr_off
  full ← ioq_full m ioq
  (if full then wait_producer m ioq else (do
    _ ← present (get_elem? ioq.buf ioq.head)
    m' ← wakeup m ioq.consumer
    ok (
        done tt m' (record ioq {
          buf = set ioq.buf ioq.head byte;
          head = next_pos ioq.head;
          consumer = none;
        }))))

unfoldable pub ioq_length : Ioqueue → ℕ
ioq_length ioq =
    if leb ioq.tail ioq.head then ioq.head - ioq.tail else bufsize - (ioq.tail - ioq.head)

-- The two checks of poll; the lock that they take and give back is not shown.
unfoldable pub pipe_check_read : Ioqueue → Bool
pipe_check_read p = if not (p.head == p.tail) then true else if not p.flag then true else false

-- `head - tail` is a signed difference.
unfoldable pub pipe_check_write : Ioqueue → Bool
pipe_check_write p =
    if elim (sub_ℕ p.head p.tail) [ pos n ↦ ltb n bufsize | negsuc n ↦ true ]
    then true
    else if not p.flag
    then true
    else false

-- pipe_write of fs/fd.c as long as it need not sleep: the bytes taken, and the queue.
unfoldable pub write_loop : Machine → Ioqueue → List ℕ → ℕ → ℕ → Outcome (ℕ × Machine × Ioqueue)
unfolding ioq_putchar
write_loop m ioq buffer zero bytes_write = ok (bytes_write, m, ioq)
write_loop m ioq [] (suc size) bytes_write = fault
write_loop m ioq (c ∷ buffer) (suc size) bytes_write =
    if ioq.flag
    then (do
      r ← ioq_putchar m ioq c
      elim r [
        | done _ m' ioq' ↦ write_loop m' ioq' buffer size (bytes_write + 1)
        | blocked m' ioq' ↦ spin
        | blocked_on_lock ↦ spin
      ])
    else ok (0, m, ioq)

unfoldable pub pipe_write : Machine → Ioqueue → List ℕ → ℕ → Outcome (ℕ × Machine × Ioqueue)
unfolding write_loop ioq_length
pipe_write m ioq buf count =
    let ioq_left = u32 (bufsize + 2 ^ 32 - ioq_length ioq - 1) in
    write_loop m ioq buf (if ltb count ioq_left then count else ioq_left) 0

-- What pipe_read comes to: the number of bytes, or -1 at a byte '@', with the bytes stored; or the
-- caller sleeps with the bytes stored so far.
pub data Read : Type 0 where
  bytes_read : ℕ → List ℕ → Machine → Ioqueue → Read
  at_end : List ℕ → Machine → Ioqueue → Read
  sleeping : List ℕ → Machine → Ioqueue → Read
  on_lock : List ℕ → Read

-- The loop of pipe_read for `n` more bytes; `buffer` holds those read.
unfoldable pub read_loop : Machine → Ioqueue → List ℕ → ℕ → Outcome Read
unfolding ioq_getchar
read_loop m ioq buffer zero = ok (bytes_read (length buffer) buffer m ioq)
read_loop m ioq buffer (suc n) = do
  r ← ioq_getchar m ioq
  elim r [
    | done c m' ioq' ↦
        (let rest = read_loop m' ioq' (buffer ++ c ∷ []) n in
          if c == b'@' then ok (at_end (buffer ++ c ∷ []) m' ioq') else rest)
    | blocked m' ioq' ↦ ok (sleeping buffer m' ioq')
    | blocked_on_lock ↦ ok (on_lock buffer)
  ]

unfoldable pub pipe_read : Machine → Ioqueue → ℕ → Outcome Read
unfolding read_loop
pipe_read m ioq count = read_loop m ioq [] count
