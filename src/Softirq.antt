-- ===== src/Softirq.antt =====
-- kernel/softirq.c: the soft interrupts that are raised, and the pass that runs them. What an action
-- does to the state is a parameter, `act`: it may raise soft interrupts again, as run_timers of
-- drivers/timer.c does. The interrupts that come while an action runs count as a part of it.
pub mod Pass
mod Tests
use kernel_travel.Base.{
  ℕ, zero, suc, ◌+◌, ◌-◌, ◌/◌, ◌%◌, ◌^◌, bit_or, Bool, true, List, [], ◌∷◌, ◌==◌, if◌then◌else◌,
  u32, get_elem?, set, Outcome, ok, fault, spin, ◌>>=◌, present,
}

-- softirq_active, bh_count and softirq_vec: for each number whether an action is there.
pub record Softirq : Type 0 where
  pub softirq_active : ℕ
  pub bh_count : ℕ
  pub softirq_vec : List Bool

unfoldable pub bh_enable : Softirq → Softirq
bh_enable s = record s { bh_count = u32 (s.bh_count + 2 ^ 32 - 1) }

unfoldable pub bh_disable : Softirq → Softirq
bh_disable s = record s { bh_count = u32 (s.bh_count + 1) }

-- The loop over the bits of `active`, from number `h` on, for at most `n` bits: the numbers of the actions
-- that run, and the state that they leave.
unfoldable pub action_loop :
    (ℕ → Softirq → Outcome Softirq) → ℕ → ℕ → ℕ → Softirq → Outcome (List ℕ × Softirq)
action_loop act zero active h s = if active == 0 then ok ([], s) else spin
action_loop act (suc n) active h s =
    if active == 0
    then ok ([], s)
    else if active % 2 == 1
    then (do
      there ← present (get_elem? s.softirq_vec h)
      s' ← (if there then act h s else fault)
      rest ← action_loop act n (active / 2) (h + 1) s'
      ok (h ∷ rest.0, rest.1))
    else action_loop act n (active / 2) (h + 1) s

-- bh_disable, and the clearing of the set: the state in which the actions run.
unfoldable pub cleared : Softirq → Softirq
unfolding bh_disable
cleared s = record (bh_disable s) { softirq_active = 0 }

-- `in_interrupt` is its answer at the call. The actions run with the set cleared before.
unfoldable pub do_softirq :
    (ℕ → Softirq → Outcome Softirq) → Bool → Softirq → Outcome (List ℕ × Softirq)
unfolding bh_enable cleared action_loop
do_softirq act in_interrupt s =
    if in_interrupt
    then ok ([], s)
    else (do r ← action_loop act 32 s.softirq_active 0 (cleared s); ok (r.0, bh_enable r.1))

unfoldable pub open_softirq : ℕ → Softirq → Outcome Softirq
open_softirq nr s = do
  _ ← present (get_elem? s.softirq_vec nr)
  ok (record s { softirq_vec = set s.softirq_vec nr true })

unfoldable pub raise_softirq : ℕ → Softirq → Softirq
raise_softirq nr s = record s { softirq_active = bit_or s.softirq_active (2 ^ nr) }
