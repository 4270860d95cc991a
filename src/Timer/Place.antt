-- ===== src/Timer/Place.antt =====
-- drivers/timer.c: where add_timer puts a timer.
use kernel_travel.Base.{
  ℕ, zero, suc, ◌+◌, ◌-◌, ◌*◌, ◌/◌, ◌^◌, ◌≤◌, ◌<◌, ◌≡◌, sym, ap, ◌∙◌, subst, ◌⊎◌, false, some, List,
  [], ◌∷◌, ◌++◌, arith, ◌==◌, if◌then◌else◌, u32, u64, ok, panic, ◌>>=◌, Returns, returns,
  Returns-bind, if-false, bit_and_mask,
}
use kernel_travel.LinkedList.{get_prev}
use kernel_travel.LinkedList.Chain.{IsList}
use kernel_travel.LinkedList.Distinct.{nodes}
use kernel_travel.LinkedList.Update.{Fresh, Becomes, list_append-IsList}
use kernel_travel.Timer.{
  Wheel, lvl_size, calc_index, calc_wheel_idx, level_of, index_at, enqueue_timer,
  internal_add_timer, add_timer,
}

-- The distance of a timer's end from the wheel's time.
abbrev pub distance : Wheel → ℕ → ℕ
distance w timer = u64 (w.expires timer + 2 ^ 64 - w.timer_ticks)

level_of-at :
    (delta lvl : ℕ)
    → lvl < 6
    → 2 ^ (lvl * 6) ≤ delta ⊎ lvl ≡ 0
    → delta < 2 ^ (lvl * 6 + 6)
    → level_of delta ≡ some lvl
level_of-at delta zero l from upto = ground (arith, from, upto)
level_of-at delta (suc zero) l from upto = ground (arith, from, upto)
level_of-at delta (suc (suc zero)) l from upto = ground (arith, from, upto)
level_of-at delta (suc (suc (suc zero))) l from upto = ground (arith, from, upto)
level_of-at delta (suc (suc (suc (suc zero)))) l from upto = ground (arith, from, upto)
level_of-at delta (suc (suc (suc (suc (suc zero))))) l from upto = ground (arith, from, upto)
level_of-at delta (suc (suc (suc (suc (suc (suc more)))))) l from upto = absurd (omega (arith, l))

-- The vector of a timer whose end is less than 2^36 ticks away is of the level whose span covers the
-- distance.
pub calc_wheel_idx-level :
    (w : Wheel) (timer lvl : ℕ)
    → lvl < 6
    → 2 ^ (lvl * 6) ≤ distance w timer ⊎ lvl ≡ 0
    → distance w timer < 2 ^ (lvl * 6 + 6)
    → (idx : ℕ) × (calc_wheel_idx w timer ≡ some idx)
      × (lvl * lvl_size ≤ idx)
      × (idx < (lvl + 1) * lvl_size)
unfolding calc_wheel_idx calc_index
calc_wheel_idx-level w timer lvl low from upto =
    let masked = bit_and_mask (u32 (w.expires timer / 2 ^ (lvl * 6) + 1)) 63 in
    (
      calc_index (w.expires timer) lvl,
      ap (index_at (w.expires timer)) (level_of-at (distance w timer) lvl low from upto),
      omega arith,
      omega (arith, masked),
    )

add_timer-place :
    (w : Wheel) (timer idx : ℕ)
    → (timer == 0) ≡ false
    → w.store.prev timer ≡ 0
    → calc_wheel_idx w timer ≡ some idx
    → add_timer w timer ≡ enqueue_timer w timer (some idx)
unfolding add_timer internal_add_timer
add_timer-place w timer idx live unlinked at_idx =
    let unlinked_run : get_prev w.store timer ≡ ok 0 = if-false _ _ live ∙ ap ok unlinked in
    ap (λ r. do p ← r; (if p == 0 then internal_add_timer w timer else panic)) unlinked_run
    ∙ ap (enqueue_timer w timer) at_idx

enqueue_timer-Becomes :
    (w : Wheel) (timer idx : ℕ) (xs : List ℕ)
    → IsList w.store (w.vec idx) xs
    → Fresh timer (w.vec idx) xs
    → Returns
        (λ w'.
          Becomes w.store (w.vec idx) (timer ∷ nodes (w.vec idx) xs) (xs ++ timer ∷ []) w'.store)
        (enqueue_timer w timer (some idx))
unfolding enqueue_timer
enqueue_timer-Becomes w timer idx xs is fresh =
    Returns-bind (list_append-IsList timer xs is fresh) (λ s b. returns b)

-- add_timer of a timer in no list whose end is less than 2^36 ticks away ends well: the timer is the last of
-- one vector's list then, the vector being of the level whose span covers the distance; no node outside that
-- list but the timer's is touched.
pub add_timer-appends :
    (w : Wheel) (timer lvl : ℕ) (lists : ℕ → List ℕ)
    → lvl < 6
    → 2 ^ (lvl * 6) ≤ distance w timer ⊎ lvl ≡ 0
    → distance w timer < 2 ^ (lvl * 6 + 6)
    → w.store.prev timer ≡ 0
    → ((i : ℕ) → IsList w.store (w.vec i) (lists i) × Fresh timer (w.vec i) (lists i))
    → (idx : ℕ) × (lvl * lvl_size ≤ idx)
      × (idx < (lvl + 1) * lvl_size)
      × Returns
          (λ w'.
            Becomes w.store
              (w.vec idx)
              (timer ∷ nodes (w.vec idx) (lists idx))
              (lists idx ++ timer ∷ [])
              w'.store)
          (add_timer w timer)
add_timer-appends w timer lvl lists low from upto unlinked are =
    let place = calc_wheel_idx-level w timer lvl low from upto in
    (
      place.0,
      place.2,
      place.3,
      subst (Returns _)
          (sym (add_timer-place w timer place.0 (ground (arith, (are place.0).1)) unlinked place.1))
          (enqueue_timer-Becomes w timer place.0 (lists place.0) (are place.0).0 (are place.0).1),
    )
