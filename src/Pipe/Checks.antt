-- ===== src/Pipe/Checks.antt =====
-- drivers/ioqueue.c: the checks that poll makes of a pipe.
use kernel_travel.Base.{◌<◌, ◌≡◌, ◌↔◌, ◌⊎◌, inl, inr, true, false, arith, ◌==◌, Bool-cases, length}
use kernel_travel.Pipe.{Ioqueue, pipe_check_read, pipe_check_write}
use kernel_travel.Pipe.Ring.{IsValid, contents, length-window}

module _ {q : Ioqueue} (v : IsValid q) where
  -- pipe_check_read says ready exactly if the pipe holds a byte or is closed.
  pub pipe_check_read_iff :
      (pipe_check_read q ≡ true) ↔ ((0 < length (contents q)) ⊎ (q.flag ≡ false))
  unfolding pipe_check_read
  pipe_check_read_iff = rw length-window (
    λ h. elim (Bool-cases (q.head == q.tail)) [
      | inl e ↦ ground (arith, h, e)
      | inr e ↦ ground (arith, e, v.head_in, v.tail_in)
    ],
    λ h. ground (arith, h, v.head_in, v.tail_in),
  )

  -- pipe_check_write says ready of every pipe, of a full and open one too.
  pub pipe_check_write-true : pipe_check_write q ≡ true
  unfolding pipe_check_write
  pipe_check_write-true = ground (arith, v.head_in)
