-- ===== src/Softirq/Tests.antt =====
-- Two soft interrupts are raised; each action raises number 0 again, as run_timers does.
use kernel_travel.Base.{
  ℕ, zero, suc, ◌≡◌, refl, true, false, some, [], ◌∷◌, arith, get_elem?, Outcome, ok, Returns,
  returns,
}
use kernel_travel.LinkedList.Chain.{elem}
use kernel_travel.Softirq.{Softirq, bh_enable, do_softirq, raise_softirq}
use kernel_travel.Softirq.Pass.{
  raised, Ascends, ActionsReturn, run_actions, start, do_softirq-raised,
}

abbrev pending : Softirq
pending = record { softirq_active = 5; bh_count = 0; softirq_vec = true ∷ false ∷ true ∷ [] }

abbrev raise_again : ℕ → Softirq → Outcome Softirq
raise_again k s = ok (raise_softirq 0 s)

raise_again-ActionsReturn : ActionsReturn raise_again
unfolding raise_softirq
raise_again-ActionsReturn k s = returns refl

have_actions : (k : ℕ) → raised 5 k ≡ true → get_elem? pending.softirq_vec k ≡ some true
have_actions zero e = refl
have_actions (suc zero) e = absurd (ground (arith, e))
have_actions (suc (suc zero)) e = refl
have_actions (suc (suc (suc k))) e = absurd (ground (arith, nothing_left k, e))
  where
    nothing_left : (k : ℕ) → raised 0 k ≡ false
    nothing_left zero = refl
    nothing_left (suc k) = nothing_left k

do_softirq-raised_example :
    Returns
      (λ r.
        Ascends 0 r.0
        × ((k : ℕ) → elem k r.0 ≡ raised 5 k)
        × ((last : Softirq) × (run_actions raise_again r.0 (start pending) ≡ ok last)
            × (r.1 ≡ bh_enable last)))
      (do_softirq raise_again false pending)
do_softirq-raised_example =
    do_softirq-raised raise_again pending raise_again-ActionsReturn (omega arith) have_actions
