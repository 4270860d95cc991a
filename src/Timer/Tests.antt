-- ===== src/Timer/Tests.antt =====
-- drivers/timer.c: one timer, put into the wheel and taken out again.
use kernel_travel.Base.{
  ℕ, ◌+◌, ◌-◌, ◌*◌, ◌≤◌, ◌<◌, ◌≡◌, refl, inl, [], ◌∷◌, arith, ◌==◌, if◌then◌else◌, ok, panic,
  Returns, returns,
}
use kernel_travel.Base.{returns, ok}
use kernel_travel.Timer.Run.{run_timers}
use kernel_travel.LinkedList.{Queue}
use kernel_travel.LinkedList.Chain.{IsList}
use kernel_travel.LinkedList.Distinct.{nodes}
use kernel_travel.LinkedList.Update.{Fresh, Becomes}
use kernel_travel.Timer.{Wheel, add_timer, del_timer}
use kernel_travel.Timer.Place.{add_timer-appends}
use kernel_travel.Timer.Reuse.{del_timer-add_timer}

-- Vector `i` has its sentinels at 3i + 1 and 3i + 2, and is empty; the timer is at 3.
abbrev lists_at : ℕ → Queue
lists_at i = record { head = 3 * i + 1; tail = 3 * i + 2 }

abbrev empty_wheel : Wheel
empty_wheel = record {
  store = record { prev = λ a. if a == 3 then 0 else a - 1; next = λ a. a + 1 };
  vec = lists_at;
  index = λ l. 0;
  expires = λ t. 100;
  timer_ticks = 30;
}

all_empty : (i : ℕ) → IsList empty_wheel.store (lists_at i) [] × Fresh 3 (lists_at i) []
all_empty i = (
  record { chain = (omega arith, ground arith); distinct = ground arith; not_null = ground arith },
  ground arith,
)

add_timer-appends_example :
    (idx : ℕ) × (64 ≤ idx)
    × (idx < 128)
    × Returns
        (λ w'.
          Becomes empty_wheel.store (lists_at idx) (3 ∷ nodes (lists_at idx) []) (3 ∷ []) w'.store)
        (add_timer empty_wheel 3)
add_timer-appends_example =
    add_timer-appends empty_wheel 3 1 (λ i. []) (omega arith) (inl (omega arith)) (omega arith) refl
      all_empty

-- The same timer in the list of vector 1.
abbrev used_wheel : Wheel
used_wheel = record empty_wheel {
  store = record {
    prev = λ a. if a == 3 then 4 else if a == 5 then 3 else 0;
    next = λ a. if a == 4 then 3 else if a == 3 then 5 else 0;
  };
}

one_timer : IsList used_wheel.store (lists_at 1) (3 ∷ [])
one_timer = record { chain = (refl, refl, (refl, refl)); distinct = ground arith; not_null = refl }

del_timer-add_timer_example :
    Returns
      (λ r.
        (r.0 ≡ 1)
        × Becomes used_wheel.store (lists_at 1) (nodes (lists_at 1) (3 ∷ [])) [] r.1.store
        × (add_timer r.1 3 ≡ panic))
      (del_timer used_wheel 3)
del_timer-add_timer_example = del_timer-add_timer used_wheel (lists_at 1) 3 [] [] one_timer

-- Three ticks with no timer: the time and the index of the first level move on by three, those of the
-- upper levels by one.
idle_ticks :
    Returns
      (λ w. (w.timer_ticks ≡ 33) × (w.index 0 ≡ 3) × (w.index 6 ≡ 1))
      (run_timers (λ w t. ok w) 10 33 empty_wheel)
unfolding run_timers
idle_ticks = returns (refl, refl, refl)
