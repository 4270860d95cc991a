-- ===== src/Signals/Deliver.antt =====
-- kernel/signal.c: a handler is entered and left again.
use kernel_travel.Base.{
  ℕ, suc, ◌-◌, ◌<◌, ◌≡◌, refl, ◌≢◌, false, some, arith, ◌==◌, lt→ltb, get_elem?, ok, Returns,
  returns,
}
use kernel_travel.Signals.{
  Sigaction, Task, Regs, Frame, sigismember, sigset_or, deliver, restore_sigcontext, set_sigframe,
  save_sigcontext, check_loop, Checked,
}

-- The handler is entered with the signal as its argument; restore_sigcontext with the frame puts the
-- registers back, and leaves the handler's mask blocked.
pub record Handled (sig : ℕ) (ka : Sigaction) (t : Task) (r : Regs) (c : Checked) : Type 0 where
  pub frame : Frame
  pub entered : (c.2 ≡ some frame) × (c.1.csr_era ≡ ka.sa_handler) × (c.1.regs 4 ≡ sig)
  pub restored :
      (r' : Regs)
      → ((i : ℕ) → i < 32 → (restore_sigcontext frame r' c.0).0.regs i ≡ r.regs i)
        × ((restore_sigcontext frame r' c.0).0.csr_era ≡ r.csr_era)
        × ((restore_sigcontext frame r' c.0).0.csr_prmd ≡ r.csr_prmd)
  pub mask_left :
      (r' : Regs) → (restore_sigcontext frame r' c.0).1.blocked ≡ sigset_or t.blocked ka.sa_mask

deliver-Handled :
    (sigreturn_addr frame_size sig : ℕ) (ka : Sigaction) (t : Task) (r : Regs)
    → Handled sig ka t r (deliver sigreturn_addr frame_size sig ka t r)
unfolding deliver restore_sigcontext set_sigframe save_sigcontext
deliver-Handled sigreturn_addr frame_size sig ka t r = record {
  frame = save_sigcontext r (sigset_or t.blocked ka.sa_mask);
  entered = (refl, refl, refl);
  restored = λ r'. ((λ i hi. rw (lt→ltb i 32 hi) refl), refl, refl);
  mask_left = λ r'. refl;
}

-- The loop of check_signals with a signal that is not blocked and has a handler ends in its first round: the
-- handler is entered with the signal; restore_sigcontext then restores the 32 registers, the return
-- address and the mode, but leaves the signals of the handler's mask blocked.
pub check_loop-Handled :
    (fuel sigreturn_addr frame_size sig : ℕ) (ka : Sigaction) (t : Task) (r : Regs)
    → sig ≢ 0
    → sigismember t.blocked sig ≡ ok false
    → get_elem? t.action (sig - 1) ≡ some ka
    → ka.sa_handler ≢ 0
    → Returns (Handled sig ka t r) (check_loop (suc fuel) sigreturn_addr frame_size sig t r)
unfolding check_loop
check_loop-Handled fuel sigreturn_addr frame_size sig ka t r hs free at has =
    let not_zero : (sig == 0) ≡ false = ground (arith, hs) in
    let handler : (ka.sa_handler == 0) ≡ false = ground (arith, has) in
    rw (not_zero, free, at, handler)
      (returns (deliver-Handled sigreturn_addr frame_size sig ka t r))
