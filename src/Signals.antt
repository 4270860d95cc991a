-- ===== src/Signals.antt =====
-- kernel/signal.c and include/xkernel/sigset.h: the signals pending for a thread, and what the thread does about
-- them on its way back to user code. A word of a set uses its low eight bits. The frame that set_sigframe
-- puts on the user stack is part of the result.
pub mod Deliver
mod Tests
use kernel_travel.Base.{
  ℕ, zero, suc, ◌+◌, ◌-◌, ◌*◌, ◌/◌, ◌%◌, ◌^◌, ◌≤◌, ◌<◌, min, max, bit_and, bit_or, bit_xor, ◌≡◌,
  refl, sym, ap, ◌∙◌, subst, ◌≢◌, ◌↔◌, ◌⊎◌, inl, inr, Bool, true, false, not, ◌&&◌, ◌||◌, Option,
  none, some, List, [], ◌∷◌, ◌++◌, map, arith, ltb, leb, ◌==◌, if◌then◌else◌, u32, u64, ==_iff,
  ltb→lt, lt→ltb, le→ltb, Bool-cases, Option-cases, all_below, all_below_sound, length, get_elem?,
  get_or, set, take, drop, replicate, length-append, length-set, length-replicate,
  get_elem?-eq-get_or, get_elem?-eq-none, get_or-set_self, get_or-set_ne, get_or-replicate, Outcome,
  ok, panic, fault, spin, ◌>>=◌, ◌>>◌, assert, present, Returns, returns, Returns-bind,
  Returns-mono, u32_small, u64_small, bind-eq, bit_or-high, ℤ, pos, negsuc, sub_ℕ,
  get_elem?-set_self, get_elem?-set_ne, get_elem?-in, Returns-result,
}

abbrev pub sigmax : ℕ
sigmax = 32

abbrev pub nsig_words : ℕ
nsig_words = 4

-- `struct k_sigaction`; the handlers 0 and 1 are SIG_DFL and SIG_IGN.
pub record Sigaction : Type 0 where
  pub sa_handler : ℕ
  pub sa_mask : List ℕ

-- the fields of `struct task_struct` on signals
pub record Task : Type 0 where
  pub pending : List ℕ
  pub blocked : List ℕ
  pub action : List Sigaction

-- the fields of `struct pt_regs` that a frame saves
pub record Regs : Type 0 where
  pub regs : ℕ → ℕ
  pub csr_era : ℕ
  pub csr_prmd : ℕ

-- `struct sigframe`
pub record Frame : Type 0 where
  pub uc_sigmask : List ℕ
  pub uc_stack : ℕ
  pub space : ℕ → ℕ
  pub csr_era : ℕ
  pub csr_prmd : ℕ

unfoldable pub init_sigset : List ℕ
init_sigset = replicate nsig_words 0

abbrev pub in_range : ℕ → Bool
in_range signo = ltb 0 signo && leb signo sigmax

unfoldable pub sigismember : List ℕ → ℕ → Outcome Bool
sigismember sigset signo = do
  assert (in_range signo)
  w ← present (get_elem? sigset ((signo - 1) / 8))
  ok (not (bit_and w (2 ^ ((signo - 1) % 8)) == 0))

unfoldable pub sigaddset : List ℕ → ℕ → Outcome (List ℕ)
sigaddset sigset signo = do
  assert (in_range signo)
  w ← present (get_elem? sigset ((signo - 1) / 8))
  ok (set sigset ((signo - 1) / 8) (bit_or w (2 ^ ((signo - 1) % 8))))

unfoldable pub sigremove : List ℕ → ℕ → Outcome (List ℕ)
sigremove sigset signo = do
  assert (in_range signo)
  w ← present (get_elem? sigset ((signo - 1) / 8))
  ok (set sigset ((signo - 1) / 8) (bit_and w (2 ^ 64 - 1 - 2 ^ ((signo - 1) % 8))))

-- The loop over the words, of which both sets have the same number.
unfoldable pub sigset_or : List ℕ → List ℕ → List ℕ
sigset_or [] ws = []
sigset_or (v ∷ vs) [] = v ∷ vs
sigset_or (v ∷ vs) (w ∷ ws) = bit_or v w ∷ sigset_or vs ws

-- The loop of find_lsb over the `n` bits from `i` on.
unfoldable pub find_lsb : ℕ → ℕ → ℕ → ℕ
find_lsb x i zero = 0
find_lsb x i (suc n) =
    let rest = find_lsb x (i + 1) n in if not (bit_and x (2 ^ i) == 0) then i else rest

-- SIG_KERNEL_IGNORE_MASK: SIGCONT, SIGCHLD, SIGWINCH and SIGURG
unfoldable pub sig_kernel_ignore : ℕ → Bool
sig_kernel_ignore sig = sig == 18 || sig == 17 || sig == 28 || sig == 23

unfoldable pub isignored_signals : ℕ → Task → Outcome Bool
unfolding sigismember sig_kernel_ignore
isignored_signals sig t = do
  b ← sigismember t.blocked sig
  (if b then ok false else (do
    ac ← present (get_elem? t.action (sig - 1))
    ok (ac.sa_handler == 1 || (ac.sa_handler == 0 && sig_kernel_ignore sig))))

unfoldable pub specific_sendsig : ℕ → Task → Outcome (ℕ × Task)
unfolding isignored_signals sigaddset
specific_sendsig sig t = do
  ignored ← isignored_signals sig t
  (if ignored
      then ok (0, t)
      else (do p ← sigaddset t.pending sig; ok (sig, record t { pending = p })))

-- pid2thread of threads that the argument gives
unfoldable pub sys_kill : Option Task → ℕ → Outcome (ℕ × Option Task)
unfolding specific_sendsig
sys_kill none sig = ok (1, none)
sys_kill (some t) sig = do r ← specific_sendsig sig t; ok (r.0, some r.1)

-- `*s && ~*m`: the second test is whether some bit of the word is not blocked.
unfoldable pub get_signal : List ℕ → List ℕ → ℕ → ℕ
unfolding find_lsb
get_signal [] ms i = 0
get_signal (s ∷ ss) [] i = 0
get_signal (s ∷ ss) (m ∷ ms) i =
    let rest = get_signal ss ms (i + 1) in
    if not (s == 0) && not (m == 2 ^ 64 - 1) then i * 8 + find_lsb s 0 64 + 1 else rest

unfoldable pub dequeue_signal : Task → Outcome (ℕ × Task)
unfolding get_signal sigremove
dequeue_signal t =
    let sig = get_signal t.pending t.blocked 0 in
    if not (sig == 0)
    then (do p ← sigremove t.pending sig; ok (sig, record t { pending = p }))
    else ok (0, t)

unfoldable pub save_sigcontext : Regs → List ℕ → Frame
save_sigcontext r blocked = record {
  uc_sigmask = blocked;
  uc_stack = r.regs 3;
  space = r.regs;
  csr_era = r.csr_era;
  csr_prmd = r.csr_prmd;
}

-- The copy of sigreturn_code to user memory is not shown. The signal handler is to run with the frame at `frame_addr` and the return address `sigreturn_addr`.
unfoldable pub set_sigframe : ℕ → ℕ → ℕ → Regs → List ℕ → ℕ → Frame × Regs
unfolding save_sigcontext
set_sigframe sigreturn_addr frame_size sig r blocked handler = (
  save_sigcontext r blocked,
  record {
    regs = λ i.
        if i == 1
        then sigreturn_addr
        else if i == 3
        then u64 (r.regs 3 + 2 ^ 64 - frame_size)
        else if i == 4
        then sig
        else r.regs i;
    csr_era = handler;
    csr_prmd = r.csr_prmd;
  },
)

unfoldable pub restore_sigcontext : Frame → Regs → Task → Regs × Task
restore_sigcontext f r t = (
  record {
    regs = λ i. if ltb i 32 then f.space i else r.regs i;
    csr_era = f.csr_era;
    csr_prmd = f.csr_prmd;
  },
  record t { blocked = f.uc_sigmask },
)

-- `stack` is the frames on the user stack, by their addresses; the frame is the one at register 3.
unfoldable pub sys_sigreturn : (ℕ → Option Frame) → Regs → Task → Outcome (Regs × Task)
unfolding restore_sigcontext
sys_sigreturn stack r t = do f ← present (stack (r.regs 3)); ok (restore_sigcontext f r t)

-- What check_signals comes to: the thread, its registers, and the frame if a handler is to run.
abbrev pub Checked : Type 0
Checked = Task × Regs × Option Frame

-- The branch for a signal that has a handler.
unfoldable pub deliver : ℕ → ℕ → ℕ → Sigaction → Task → Regs → Checked
unfolding set_sigframe sigset_or
deliver sigreturn_addr frame_size sig ka t r =
    let blocked' = sigset_or t.blocked ka.sa_mask in
    let (f, r') = set_sigframe sigreturn_addr frame_size sig r blocked' ka.sa_handler in
    (record t { blocked = blocked' }, r', some f)

-- The loop of check_signals within `fuel` rounds, for the signal taken from the set.
unfoldable pub check_loop : ℕ → ℕ → ℕ → ℕ → Task → Regs → Outcome Checked
unfolding sigismember specific_sendsig dequeue_signal deliver sig_kernel_ignore
check_loop zero sigreturn_addr frame_size sig t r = if sig == 0 then ok (t, r, none) else spin
check_loop (suc fuel) sigreturn_addr frame_size sig t r = if sig == 0 then ok (t, r, none) else (do
  b ← sigismember t.blocked sig
  (if b
      then (do
        sent ← specific_sendsig sig t
        following ← dequeue_signal sent.1
        check_loop fuel sigreturn_addr frame_size following.0 following.1 r)
      else (do
        ka ← present (get_elem? t.action (sig - 1))
        (if not (ka.sa_handler == 0)
            then ok (deliver sigreturn_addr frame_size sig ka t r)
            else if sig_kernel_ignore sig
            then check_loop fuel sigreturn_addr frame_size sig t r
            else (do
              following ← dequeue_signal t
              check_loop fuel sigreturn_addr frame_size following.0 following.1 r)))))

unfoldable pub check_signals : ℕ → ℕ → ℕ → Task → Regs → Outcome Checked
unfolding dequeue_signal check_loop
check_signals fuel sigreturn_addr frame_size t r = do
  first ← dequeue_signal t
  check_loop fuel sigreturn_addr frame_size first.0 first.1 r

-- `action[-1]` for signal 0 is out of bounds.
unfoldable pub sys_sigaction : ℕ → Sigaction → Task → Outcome Task
sys_sigaction zero act t = fault
sys_sigaction (suc k) act t = do
  _ ← present (get_elem? t.action k)
  ok (record t { action = set t.action k act })
