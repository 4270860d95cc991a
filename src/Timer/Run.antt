-- ===== src/Timer/Run.antt =====
-- drivers/timer.c: run_timers. The functions of the timers are a parameter, and no interrupt comes while it
-- runs: `ticks` stays. Each loop runs within `fuel` rounds.
use kernel_travel.Base.{
  ℕ, zero, suc, ◌+◌, ◌-◌, ◌^◌, bit_and, not, ◌&&◌, ltb, ◌==◌, if◌then◌else◌, u64, Outcome, ok, spin,
  ◌>>=◌,
}
use kernel_travel.LinkedList.{Queue, get_next, list_empty, list_remove}
use kernel_travel.Timer.{Wheel, lvl_mask, cascade_timers}

abbrev pub lvl_depth : ℕ
lvl_depth = 7

-- The loop over the upper levels, with `left` of them to go, the next being `n`.
unfoldable pub cascade_levels : ℕ → ℕ → Wheel → ℕ → Outcome Wheel
unfolding cascade_timers
cascade_levels fuel zero w n = ok w
cascade_levels fuel (suc left) w n = do
  w' ← cascade_timers fuel w n
  (if not (w'.index n == 1) then ok w' else cascade_levels fuel left w' (n + 1))

module _ (call : Wheel → ℕ → Outcome Wheel) where
  -- The loop that runs the timers of a list.
  unfoldable pub run_list : ℕ → Wheel → Queue → Outcome Wheel
  unfolding list_empty list_remove
  run_list zero w cur_list = spin
  run_list (suc fuel) w cur_list = do
    done ← list_empty w.store cur_list
    (if done then ok w else (do
      timer ← get_next w.store cur_list.head
      called ← call w timer
      first ← get_next called.store cur_list.head
      s ← list_remove called.store first
      run_list fuel (record called { store = s }) cur_list))

  -- The loop over the ticks that the wheel is behind.
  unfoldable pub catch_up : ℕ → ℕ → Wheel → Queue → Outcome Wheel
  unfolding cascade_levels run_list
  catch_up zero ticks w cur_list = spin
  catch_up (suc fuel) ticks w cur_list =
      let behind = u64 (ticks + 2 ^ 64 - w.timer_ticks) in
      if not (ltb 0 behind && ltb behind (2 ^ 63)) then ok w else (do
        turned ← (if w.index 0 == 0 then cascade_levels fuel (lvl_depth - 1) w 1 else ok w)
        ran ← run_list fuel turned cur_list
        catch_up fuel ticks
            (record ran {
              timer_ticks = u64 (ran.timer_ticks + 1);
              index = λ l. if l == 0 then bit_and (ran.index 0 + 1) lvl_mask else ran.index l;
            })
            cur_list)

  -- Without the raise_softirq at its end.
  unfoldable pub run_timers : ℕ → ℕ → Wheel → Outcome Wheel
  unfolding catch_up
  run_timers fuel ticks w = catch_up fuel ticks w (w.vec (w.index 0))
