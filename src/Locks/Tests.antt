-- ===== src/Locks/Tests.antt =====
-- Thread 2 has the lock when 3 and then 4 come to it.
use kernel_travel.Base.{
  ℕ, ◌≡◌, refl, ap, true, false, List, [], ◌∷◌, arith, length, ◌>>=◌, Returns, value_or,
}
use kernel_travel.Threads.{is_parked, thread_yield}
use kernel_travel.Threads.Tests.{office, office-IsScheduled}
use kernel_travel.Threads.Invariant.{IsScheduled}
use kernel_travel.Locks.{sema_round, sema_up, take_lock, lock_release}
use kernel_travel.Locks.System.{
  System, outside, downing, inside, leaving, in_loop, enter, round, own, release, up, give_way,
  put_place, after_round, after_release, Reachable, here, there,
}
use kernel_travel.Locks.Exclusion.Runs.{
  start, mutual_exclusion, semaphore_runs, no_lost_wakeup, handoff,
}

abbrev entered : System → System
entered s = record s { place = put_place s.place s.machine.running downing }

unfoldable gone_round : System → System
unfolding sema_round
gone_round s =
    let r = value_or (true, s.lock.sema, s.machine) (sema_round s.lock.sema s.machine) in
    record {
      machine = r.2;
      lock = record s.lock { sema = r.1 };
      place = put_place s.place s.machine.running (after_round r.0);
    }

unfoldable owned : System → System
unfolding take_lock
owned s = record s {
  lock = take_lock s.lock s.machine.running;
  place = put_place s.place s.machine.running inside;
}

unfoldable gave_way : System → System
unfolding thread_yield
gave_way s = record s { machine = value_or s.machine (thread_yield s.machine) }

unfoldable let_go : System → System
unfolding lock_release
let_go s =
    let r = value_or (true, s.lock) (lock_release s.lock s.machine.running) in
    record s { lock = r.1; place = put_place s.place s.machine.running (after_release r.0) }

unfoldable rose : System → System
unfolding sema_up
rose s =
    let r = value_or (s.lock.sema, s.machine) (sema_up s.lock.sema s.machine) in
    record {
      machine = r.1;
      lock = record s.lock { sema = r.0 };
      place = put_place s.place s.machine.running outside;
    }

unfoldable at_door : System
unfolding start
at_door = entered (start office)

unfoldable inside_2 : System
unfolding at_door gone_round owned
inside_2 = owned (gone_round at_door)

unfoldable two_wait : System
unfolding inside_2 gave_way gone_round let_go
two_wait = let_go (gone_round (entered (gone_round (entered (gave_way inside_2)))))

unfoldable one_woken : System
unfolding two_wait rose
one_woken = rose two_wait

two_wait_list : two_wait.lock.sema.wait_list ≡ 3 ∷ 4 ∷ []
unfolding two_wait
two_wait_list = refl

door-Reachable : Reachable (start office) at_door
unfolding at_door
door-Reachable = there here (enter refl (λ e. omega (arith, e)) refl)

inside-Reachable : Reachable (start office) inside_2
unfolding inside_2
inside-Reachable = there (there door-Reachable (round (true, _, _) refl refl)) (own refl)

two_wait-Reachable : Reachable (start office) two_wait
unfolding two_wait
two_wait-Reachable =
    there
      (there
        (there
          (there
            (there (there inside-Reachable (give_way _ refl))
              (enter refl (λ e. omega (arith, e)) refl))
            (round (false, _, _) refl refl))
          (enter refl (λ e. omega (arith, e)) refl))
        (round (false, _, _) refl refl))
      (release (true, _) refl refl)

one_woken-Reachable : Reachable (start office) one_woken
unfolding one_woken
one_woken-Reachable = there two_wait-Reachable (up _ refl refl)

mutual_exclusion_example : ◌≡◌ {A = ℕ} 2 2
unfolding inside_2
mutual_exclusion_example = mutual_exclusion office-IsScheduled inside-Reachable 2 2 refl refl

semaphore_runs_example :
    (at_door.place at_door.machine.running ≡ downing
      → Returns (λ q. IsScheduled q.2) (sema_round at_door.lock.sema at_door.machine))
    × (at_door.place at_door.machine.running ≡ leaving
        → Returns (λ q. IsScheduled q.1) (sema_up at_door.lock.sema at_door.machine))
semaphore_runs_example = semaphore_runs office-IsScheduled door-Reachable

no_lost_wakeup_example :
    (t : ℕ) × (in_loop (one_woken.place t) ≡ true)
    × (is_parked (one_woken.machine.task t).status ≡ false)
unfolding one_woken
no_lost_wakeup_example =
    no_lost_wakeup office-IsScheduled one_woken-Reachable (λ e. ground (arith, e))
      (λ e. omega (arith, ap {A = List ℕ} length e))

handoff_example :
    Returns
      (λ q. (q.0 ≡ true) × (q.2.running ≡ 3))
      (do
        freed ← sema_up two_wait.lock.sema two_wait.machine
        m' ← thread_yield freed.1
        sema_round freed.0 m')
unfolding two_wait
handoff_example = handoff office-IsScheduled two_wait-Reachable 3 (4 ∷ []) refl refl
