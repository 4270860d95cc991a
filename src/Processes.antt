-- ===== src/Processes.antt =====
-- userprog/wait.c with thread_exit, pid2thread and the pids of thread/thread.c: the end of a process and
-- the wait of its parent, on the threads of Threads. The pages and the open files that a process gives
-- back are outside this state.
pub mod Wake
pub mod Exit
mod Tests
use kernel_travel.Base.{
  ℕ, zero, suc, ◌+◌, ◌-◌, ◌*◌, ◌/◌, ◌%◌, ◌^◌, ◌≤◌, ◌<◌, min, max, bit_and, bit_or, bit_xor, ◌≡◌,
  refl, sym, ap, ◌∙◌, subst, ◌≢◌, ◌↔◌, ◌⊎◌, inl, inr, Bool, true, false, not, ◌&&◌, ◌||◌, Option,
  none, some, List, [], ◌∷◌, ◌++◌, map, arith, ltb, leb, ◌==◌, if◌then◌else◌, u32, u64, ==_iff,
  ltb→lt, lt→ltb, le→ltb, Bool-cases, Option-cases, all_below, all_below_sound, length, get_elem?,
  get_or, set, take, drop, replicate, length-append, length-set, length-replicate,
  get_elem?-eq-get_or, get_elem?-eq-none, get_or-set_self, get_or-set_ne, get_or-replicate, Outcome,
  ok, panic, fault, spin, ◌>>=◌, ◌>>◌, assert, present, Returns, returns, Returns-bind,
  Returns-mono, u32_small, u64_small, bind-eq, bit_or-high, ℤ, pos, negsuc, sub_ℕ,
  get_elem?-set_self, get_elem?-set_ne, get_elem?-in, Returns-result, Returns-assert, if-true,
  if-false, bind_assoc, Returns-ok, assert-true, Returns-after, is_ok, value_or, assert_run,
  bind_ok,
}
use kernel_travel.LinkedList.Chain.{elem}
use kernel_travel.Bitmap.{Bitmap, bitmap_set}
use kernel_travel.Threads.{
  Status, Machine, task_waiting, task_hanging, task_died, set_status, thread_block, thread_unblock,
}

-- fields of `struct task_struct`; a pid is not negative here.
pub record Process : Type 0 where
  pub pid : ℕ
  pub ppid : ℕ
  pub exit_status : ℕ
  pub tms_stime : ℕ
  pub tms_utime : ℕ
  pub tms_cstime : ℕ
  pub tms_cutime : ℕ

-- The machine, thread_all_list, the fields of each task_struct, main_thread, and pid_pool.
pub record System : Type 0 where
  pub machine : Machine
  pub all : List ℕ
  pub info : ℕ → Process
  pub main_thread : ℕ
  pub pid_bitmap : Bitmap

abbrev pub is_hanging : Status → Bool
is_hanging task_hanging = true
is_hanging _ = false

abbrev pub is_waiting : Status → Bool
is_waiting task_waiting = true
is_waiting _ = false

-- list_traversal: the first element that passes.
unfoldable pub find_first : (ℕ → Bool) → List ℕ → Option ℕ
find_first test [] = none
find_first test (t ∷ ts) = let rest = find_first test ts in if test t then some t else rest

unfoldable pub pid2thread : System → ℕ → Option ℕ
unfolding find_first
pid2thread s pid = find_first (λ t. (s.info t).pid == pid) s.all

-- pid - pid_start, with pid_start 1
unfoldable pub release_pid : Bitmap → ℕ → Outcome Bitmap
release_pid pool pid = bitmap_set pool (u32 (pid + 2 ^ 32 - 1)) 0

abbrev pub remove : ℕ → List ℕ → List ℕ
remove t [] = []
remove t (u ∷ us) = if u == t then us else u ∷ remove t us

-- task_free gives the page of the task_struct back; the pid is read all the same.
unfoldable pub thread_exit : System → ℕ → Outcome System
unfolding release_pid
thread_exit s t = do
  let off = record s.machine { intr_off = true }
  let dead = set_status off t task_died
  _ ← assert (not (elem t s.machine.ready))
  pool ← release_pid s.pid_bitmap (s.info t).pid
  ok (record s { machine = dead; all = remove t s.all; pid_bitmap = pool })

-- init_adopt_child on all threads: the children of `pid` become those of process 1.
abbrev pub adopt : System → ℕ → ℕ → Process
adopt s pid t =
    let p = s.info t in if elem t s.all && p.ppid == pid then record p { ppid = 1 } else p

abbrev pub put_info : (ℕ → Process) → ℕ → Process → ℕ → Process
put_info info t v u = if u == t then v else info u

-- The wake-up of the parent; pid2thread gives NULL where there is none.
unfoldable pub wake_parent : Machine → Option ℕ → Outcome Machine
unfolding thread_unblock
wake_parent m none = fault
wake_parent m (some parent) =
    if is_waiting (m.task parent).status then thread_unblock m parent else ok m

-- exit_status is an int16_t: its bit pattern.
unfoldable pub sys_exit : System → ℕ → Outcome System
unfolding pid2thread wake_parent thread_block
sys_exit s status = do
  let child = s.machine.running
  let ended = record s {
    info = put_info s.info child (record (s.info child) { exit_status = status * 256 % 2 ^ 16 });
  }
  let adopted = record ended { info = adopt ended (ended.info child).pid }
  m ← wake_parent adopted.machine (pid2thread adopted (adopted.info child).ppid)
  m ← thread_block m task_hanging
  ok (record adopted { machine = m })

-- The test of find_hanging_child; `any` is for a pid of -1.
abbrev pub hanging_child : System → ℕ → Bool → ℕ → ℕ → Bool
hanging_child s parent any pid t =
    (any || (s.info t).pid == pid)
    && ((s.info t).ppid == (s.info parent).pid && is_hanging (s.machine.task t).status)

-- What a round of the loop of sys_wait comes to: a child is taken with its pid and status, there is no
-- child, or the parent blocks and goes round again later.
pub data Waited : Type 0 where
  reaped : (pid exit_status : ℕ) → System → Waited
  no_child : Waited
  waits : System → Waited

unfoldable pub reap : System → ℕ → Outcome Waited
unfolding thread_exit
reap s child = do
  let parent = s.machine.running
  let p = s.info parent
  let c = s.info child
  let counted = put_info s.info parent (record p {
    tms_cstime = u64 (p.tms_cstime + c.tms_stime);
    tms_cutime = u64 (p.tms_cutime + c.tms_utime);
  })
  s' ← thread_exit (record s { info = counted }) child
  ok (reaped c.pid c.exit_status s')

unfoldable pub wait_for_child : System → Option ℕ → Outcome Waited
unfolding thread_block
wait_for_child s none = ok no_child
wait_for_child s (some t) = do
  m ← thread_block s.machine task_waiting
  ok (waits (record s { machine = m }))

unfoldable pub wait_found : System → Option ℕ → Outcome Waited
unfolding reap wait_for_child find_first
wait_found s (some child) = reap s child
wait_found s none =
    wait_for_child s (find_first (λ t. (s.info t).ppid == (s.info s.machine.running).pid) s.all)

unfoldable pub wait_round : System → Bool → ℕ → Outcome Waited
unfolding wait_found find_first
wait_round s any pid = wait_found s (find_first (hanging_child s s.machine.running any pid) s.all)
