-- ===== src/Processes/Exit.antt =====
-- userprog/wait.c: the status of a process that ends comes to the parent that waits.
use kernel_travel.Base.{
  ℕ, ◌+◌, ◌-◌, ◌*◌, ◌%◌, ◌^◌, ◌≤◌, ◌≡◌, refl, sym, ap, ◌∙◌, subst, ◌≢◌, true, false, not, some,
  arith, ◌==◌, u32, u64, ok, ◌>>=◌, Returns, returns, Returns-bind, Returns-assert, bind_assoc,
}
use kernel_travel.LinkedList.Chain.{elem}
use kernel_travel.Bitmap.Valid.{IsValid, bitmap_set-WasSet}
use kernel_travel.Threads.{Machine, task_hanging, thread_block}
use kernel_travel.Threads.Invariant.{IsScheduled}
use kernel_travel.Processes.{
  Process, System, is_hanging, is_waiting, find_first, pid2thread, release_pid, remove, thread_exit,
  adopt, put_info, wake_parent, sys_exit, hanging_child, reaped, reap, wait_found, wait_round,
}
use kernel_travel.Processes.Wake.{
  find_first_unique, hanging-else, put_info-pid, stop_after_wake, child_ne_parent,
}

-- A running process whose parent waits; the pids of the threads are different and the pool has that of the
-- child.
pub record HasParent (s : System) (parent : ℕ) : Type 0 where
  pub threads : IsScheduled s.machine
  pub child_listed : elem s.machine.running s.all ≡ true
  pub parent_listed : elem parent s.all ≡ true
  pub stopped : is_waiting (s.machine.task parent).status ≡ true
  pub one_pid :
      (t u : ℕ)
      → elem t s.all ≡ true
      → elem u s.all ≡ true
      → (s.info t).pid ≡ (s.info u).pid
      → t ≡ u
  pub of_parent : (s.info s.machine.running).ppid ≡ (s.info parent).pid
  pub pool : IsValid s.pid_bitmap
  pub pid_low : 1 ≤ (s.info s.machine.running).pid
  pub pid_high : (s.info s.machine.running).pid ≤ s.pid_bitmap.btmp_bytes_len * 8

module _ {s : System} {parent : ℕ} (h : HasParent s parent) (status : ℕ) where
  abbrev child : ℕ
  child = s.machine.running

  abbrev code : ℕ
  code = status * 256 % 2 ^ 16

  -- The processes after the writes of sys_exit.
  abbrev ended : System
  ended = record s { info = put_info s.info child (record (s.info child) { exit_status = code }) }

  abbrev adopted : System
  adopted = record ended { info = adopt ended (ended.info child).pid }

  same_pid : (t : ℕ) → (adopted.info t).pid ≡ (s.info t).pid
  same_pid t = ground arith

  pids_differ : (s.info parent).pid ≢ (s.info child).pid
  pids_differ e = ground (
    arith,
    h.one_pid parent child h.parent_listed h.child_listed e,
    child_ne_parent s.machine parent h.threads h.stopped,
  )

  same_ppid : (adopted.info child).ppid ≡ (s.info parent).pid
  same_ppid = ground (arith, h.of_parent, pids_differ)

  same_code : (adopted.info child).exit_status ≡ code
  same_code = ground arith

  parent_found : pid2thread adopted (adopted.info child).ppid ≡ some parent
  unfolding pid2thread
  parent_found =
      find_first_unique (λ t. (adopted.info t).pid == (adopted.info child).ppid) s.all parent
        h.parent_listed (ground (arith, same_pid parent, same_ppid))
        (λ u m k. h.one_pid u parent m h.parent_listed (ground (arith, k, same_pid u, same_ppid)))

  -- thread_exit of the child ends well, whatever else is noted of the processes.
  exit_child :
      (m : Machine) (info : ℕ → Process)
      → IsScheduled m
      → is_hanging (m.task child).status ≡ true
      → (info child).pid ≡ (s.info child).pid
      → Returns
          (λ s'. s'.all ≡ remove child s.all)
          (thread_exit (record s { machine = m; info = info }) child)
  unfolding thread_exit release_pid
  exit_child m info sched zombie pid =
      let out : elem child m.ready ≡ false =
        sym (sched.queue.queued child) ∙ hanging-else (m.task child).status zombie in
      Returns-assert (ap not out) (
        Returns-bind
          (bitmap_set-WasSet h.pool (u32 ((info child).pid + 2 ^ 32 - 1)) 0
            (omega (arith, pid, h.pid_low, h.pid_high, h.pool.small)) (omega arith))
          (λ pool w. returns refl))

  reap-child :
      (m : Machine)
      → IsScheduled m
      → is_hanging (m.task child).status ≡ true
      → Returns
          (λ w.
            (s' : System) × (w ≡ reaped (s.info child).pid code s') × (s'.all ≡ remove child s.all))
          (reap (record adopted { machine = m }) child)
  unfolding reap
  reap-child m sched zombie =
      let p = adopted.info m.running in
      let c = adopted.info child in
      let noted : Process = record p {
        tms_cstime = u64 (p.tms_cstime + c.tms_stime);
        tms_cutime = u64 (p.tms_cutime + c.tms_utime);
      } in
      Returns-bind
        (exit_child m (put_info adopted.info m.running noted) sched zombie
          (put_info-pid adopted.info m.running child noted refl ∙ same_pid child))
        (λ s' w. returns (
          s',
          ap (λ k. reaped k c.exit_status s') (same_pid child)
              ∙ ap (λ k. reaped (s.info child).pid k s') same_code,
          w,
        ))

  -- What the parent's round of sys_wait then comes to.
  reaps :
      (m : Machine)
      → IsScheduled m
      → m.running ≡ parent
      → is_hanging (m.task child).status ≡ true
      → Returns
          (λ w.
            (s' : System) × (w ≡ reaped (s.info child).pid code s') × (s'.all ≡ remove child s.all))
          (wait_round (record adopted { machine = m }) false (s.info child).pid)
  unfolding wait_round wait_found
  reaps m sched runs zombie =
      let x : System = record adopted { machine = m } in
      let at_parent : (adopted.info m.running).pid ≡ (s.info parent).pid =
        ap (λ r. (adopted.info r).pid) runs ∙ same_pid parent in
      let passes : hanging_child x m.running false (s.info child).pid child ≡ true =
        ground (arith, same_pid child, same_ppid, at_parent, zombie) in
      let found : find_first (hanging_child x m.running false (s.info child).pid) s.all
          ≡ some child =
        find_first_unique (hanging_child x m.running false (s.info child).pid) s.all child
          h.child_listed passes
          (λ u n k. h.one_pid u child n h.child_listed (ground (arith, k, same_pid u))) in
      subst
        (λ o.
          Returns
            (λ w.
              (s' : System) × (w ≡ reaped (s.info child).pid code s')
              × (s'.all ≡ remove child s.all))
            (wait_found x o))
        (sym found) (reap-child m sched zombie)

  exit_steps : sys_exit s status ≡ (
      (wake_parent s.machine (some parent) >>= λ w. thread_block w task_hanging) >>= λ m.
      ok (record adopted { machine = m }))
  unfolding sys_exit
  exit_steps =
      ap
        (λ o. wake_parent s.machine o >>= λ w.
          thread_block w task_hanging >>= λ m. ok (record adopted { machine = m }))
        parent_found
      ∙ sym (
          bind_assoc (wake_parent s.machine (some parent)) (λ w. thread_block w task_hanging)
            (λ m. ok (record adopted { machine = m })))

  -- sys_exit of a process whose parent waits ends well with the parent running, and the round of sys_wait
  -- that the parent then makes for the pid of the child takes the child: it returns that pid with the low
  -- byte of the status as the high byte of the exit status, and the child leaves the list of threads.
  pub sys_exit-wait :
      Returns
        (λ s1.
          (s1.machine.running ≡ parent)
          × Returns
              (λ w.
                (s' : System) × (w ≡ reaped (s.info child).pid code s')
                × (s'.all ≡ remove child s.all))
              (wait_round s1 false (s.info child).pid))
        (sys_exit s status)
  sys_exit-wait = subst (Returns _) (sym exit_steps) (
      Returns-bind (stop_after_wake s.machine parent h.threads h.stopped)
        (λ m w. returns (w.1, reaps m w.0 w.1 w.2)))
