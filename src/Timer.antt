-- ===== src/Timer.antt =====
-- drivers/timer.c: the wheel of timers. A timer is the address of its list element; the vectors of all
-- levels are numbered through, 64 to a level.
pub mod Place
pub mod Reuse
pub mod Run
mod Tests
use kernel_travel.Base.{
  ℕ, zero, suc, ◌+◌, ◌-◌, ◌*◌, ◌/◌, ◌%◌, ◌^◌, ◌≤◌, ◌<◌, min, max, bit_and, bit_or, bit_xor, ◌≡◌,
  refl, sym, ap, ◌∙◌, subst, ◌≢◌, ◌↔◌, ◌⊎◌, inl, inr, Bool, true, false, not, ◌&&◌, ◌||◌, Option,
  none, some, List, [], ◌∷◌, ◌++◌, map, arith, ltb, leb, ◌==◌, if◌then◌else◌, u32, u64, ==_iff,
  ltb→lt, lt→ltb, le→ltb, Bool-cases, Option-cases, all_below, all_below_sound, length, get_elem?,
  get_or, set, take, drop, replicate, length-append, length-set, length-replicate,
  get_elem?-eq-get_or, get_elem?-eq-none, get_or-set_self, get_or-set_ne, get_or-replicate, Outcome,
  ok, panic, fault, spin, ◌>>=◌, ◌>>◌, assert, present, Returns, returns, Returns-bind,
  Returns-mono, u32_small, u64_small, bind-eq, bit_or-high, ℤ, pos, negsuc, sub_ℕ,
  get_elem?-set_self, get_elem?-set_ne, get_elem?-in, Returns-result, Returns-assert, if-true,
  if-false, bind_assoc, Returns-ok, assert-true, Returns-after, is_ok, value_or, assert_run,
  bind_ok,
}
use kernel_travel.LinkedList.{Store, Queue, get_next, get_prev, list_init, list_append, list_remove}

abbrev pub lvl_size : ℕ
lvl_size = 64

abbrev pub lvl_mask : ℕ
lvl_mask = lvl_size - 1

-- The store of the lists, the vectors' lists, the index of each level, the time at which each timer
-- expires, and timer_ticks.
pub record Wheel : Type 0 where
  pub store : Store
  pub vec : ℕ → Queue
  pub index : ℕ → ℕ
  pub expires : ℕ → ℕ
  pub timer_ticks : ℕ

unfoldable pub calc_index : ℕ → ℕ → ℕ
calc_index expire lvl = bit_and (u32 (expire / 2 ^ (lvl * 6) + 1)) lvl_mask + lvl * lvl_size

-- The level for a distance in time; none where `idx` is not set.
abbrev pub level_of : ℕ → Option ℕ
level_of delta =
    if ltb delta (2 ^ 6)
    then some 0
    else if ltb delta (2 ^ 12)
    then some 1
    else if ltb delta (2 ^ 18)
    then some 2
    else if ltb delta (2 ^ 24)
    then some 3
    else if ltb delta (2 ^ 30)
    then some 4
    else if ltb delta (2 ^ 36)
    then some 5
    else none

abbrev pub index_at : ℕ → Option ℕ → Option ℕ
index_at expire none = none
index_at expire (some lvl) = some (calc_index expire lvl)

unfoldable pub calc_wheel_idx : Wheel → ℕ → Option ℕ
unfolding calc_index
calc_wheel_idx w timer =
    let expire = w.expires timer in
    index_at expire (level_of (u64 (expire + 2 ^ 64 - w.timer_ticks)))

-- enqueue_timer at the vector with this number; a number that is not set is any.
unfoldable pub enqueue_timer : Wheel → ℕ → Option ℕ → Outcome Wheel
unfolding list_append
enqueue_timer w timer none = fault
enqueue_timer w timer (some idx) = do
  s ← list_append w.store (w.vec idx) timer
  ok (record w { store = s })

unfoldable pub internal_add_timer : Wheel → ℕ → Outcome Wheel
unfolding calc_wheel_idx enqueue_timer
internal_add_timer w timer = enqueue_timer w timer (calc_wheel_idx w timer)

unfoldable pub add_timer : Wheel → ℕ → Outcome Wheel
unfolding internal_add_timer
add_timer w timer = do
  p ← get_prev w.store timer
  (if p == 0 then internal_add_timer w timer else panic)

unfoldable pub detach_timer : Wheel → ℕ → Outcome (ℕ × Wheel)
unfolding list_remove
detach_timer w timer = do
  p ← get_prev w.store timer
  (if p == 0 then ok (0, w) else (do s ← list_remove w.store timer; ok (1, record w { store = s })))

unfoldable pub mod_timer : Wheel → ℕ → ℕ → Outcome (ℕ × Wheel)
unfolding detach_timer internal_add_timer
mod_timer w timer expire = do
  let later = record w { expires = λ t. if t == timer then expire else w.expires t }
  r ← detach_timer later timer
  w' ← internal_add_timer r.1 timer
  ok (r.0, w')

unfoldable pub del_timer : Wheel → ℕ → Outcome (ℕ × Wheel)
unfolding detach_timer
del_timer w timer = detach_timer w timer

-- The loop of cascade_timers from `cur` on, within `fuel` rounds.
unfoldable pub cascade_loop : ℕ → Wheel → ℕ → ℕ → Outcome Wheel
unfolding internal_add_timer
cascade_loop zero w stop cur = spin
cascade_loop (suc fuel) w stop cur = if cur == stop then ok w else (do
  w' ← internal_add_timer w cur
  following ← get_next w'.store cur
  cascade_loop fuel w' stop following)

unfoldable pub cascade_timers : ℕ → Wheel → ℕ → Outcome Wheel
unfolding cascade_loop list_init
cascade_timers fuel w level = do
  let own = w.vec (level * lvl_size + w.index level)
  first ← get_next w.store own.head
  w' ← cascade_loop fuel w own.tail first
  s ← list_init w'.store own
  ok (record w' {
    store = s;
    index = λ l. if l == level then bit_and (w'.index level + 1) lvl_mask else w'.index l;
  })
