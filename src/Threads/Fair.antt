-- ===== src/Threads/Fair.antt =====
-- drivers/timer.c: the clock gives every ready thread its turn.
use mathlib.Core.List.{append_assoc}
use kernel_travel.Base.{
  ℕ, zero, suc, ◌+◌, ◌≡◌, refl, sym, ap, ◌∙◌, subst, ◌≢◌, true, false, List, [], ◌∷◌, ◌++◌, arith,
  ◌>>=◌, Returns, returns, Returns-bind, Returns-mono, bind_assoc,
}
use kernel_travel.LinkedList.Chain.{elem, Distinct, elem-append}
use kernel_travel.Threads.{Thread, Machine, intr_timer_handler, run_ticks, is_running}
use kernel_travel.Threads.Invariant.{IsScheduled, running-else}
use kernel_travel.Threads.Switch.{next_of, rest_of}
use kernel_travel.Threads.Keep.{ticked, timer-Switch, timer-ticked, ticked-IsScheduled}

-- The ticks that these threads have left, with the one that ends each turn.
abbrev pub turns : (ℕ → Thread) → List ℕ → ℕ
turns task [] = 0
turns task (t ∷ ts) = (task t).ticks + 1 + turns task ts

run_ticks-add : (a b : ℕ) (m : Machine) → run_ticks (a + b) m ≡ (run_ticks a m >>= run_ticks b)
unfolding run_ticks
run_ticks-add zero b m = ap (λ k. run_ticks k m) (omega arith)
run_ticks-add (suc a) b m =
    let shift : suc a + b ≡ suc (a + b) = omega arith in
    ap (λ k. run_ticks k m) shift
    ∙ (λ i. intr_timer_handler m >>= λ m'. run_ticks-add a b m' i)
    ∙ sym (bind_assoc (intr_timer_handler m) (run_ticks a) (run_ticks b))

-- What a turn of the running thread makes.
record Turn (m m' : Machine) : Type 0 where
  scheduled : IsScheduled m'
  runs : m'.running ≡ next_of (m.ready ++ m.running ∷ []) m.idle
  leaves : m'.ready ≡ rest_of (m.ready ++ m.running ∷ [])
  off : m'.intr_off ≡ true
  others : (u : ℕ) → u ≢ m.running → (m'.task u).ticks ≡ (m.task u).ticks

turn :
    (n : ℕ) (m : Machine)
    → IsScheduled m
    → m.intr_off ≡ true
    → (m.task m.running).ticks ≡ n
    → Returns (Turn m) (run_ticks (suc n) m)
unfolding run_ticks
turn zero m s off e = Returns-bind (timer-Switch s off e) (λ m' w. returns (record {
  scheduled = w.scheduled;
  runs = w.runs;
  leaves = w.leaves;
  off = w.same_intr ∙ off;
  others = λ u ne. ground (arith, w.ticks u);
}))
turn (suc n) m s off e = rw (timer-ticked s n e) (
    Returns-mono (turn n (ticked m n) (ticked-IsScheduled s n) off (ground arith)) (λ m' w. record {
      scheduled = w.scheduled;
      runs = w.runs;
      leaves = w.leaves;
      off = w.off;
      others = λ u ne. ground (arith, w.others u ne);
    }))

turns-same :
    (task task' : ℕ → Thread) (a : ℕ) (ts : List ℕ)
    → elem a ts ≡ false
    → ((u : ℕ) → u ≢ a → (task' u).ticks ≡ (task u).ticks)
    → turns task' ts ≡ turns task ts
turns-same task task' a [] out same = refl
turns-same task task' a (t ∷ ts) out same =
    rw (same t (ground arith), turns-same task task' a ts (ground arith) same) refl

-- The running thread is not in the queue.
not_ahead :
    (m : Machine)
    → IsScheduled m
    → (xs ys : List ℕ) → m.ready ≡ xs ++ ys
    → elem m.running xs ≡ false
not_ahead m s xs ys e =
    let run : is_running (m.task m.running).status ≡ true = ground (arith, s.one_runs m.running) in
    let none : elem m.running (xs ++ ys) ≡ false =
      sym (ap (elem m.running) e)
      ∙ sym (s.queue.queued m.running)
      ∙ (running-else (m.task m.running).status run).0 in
    ground (arith, elem-append m.running xs ys, none)

-- After the ticks of the running thread and of those before it in the queue a ready thread runs.
pub run_ticks-runs :
    (xs : List ℕ) (t : ℕ) (ys : List ℕ) (m : Machine)
    → IsScheduled m
    → m.intr_off ≡ true
    → m.ready ≡ xs ++ t ∷ ys
    → Returns
        (λ m'. IsScheduled m' × (m'.running ≡ t))
        (run_ticks (turns m.task (m.running ∷ xs)) m)
run_ticks-runs [] t ys m s off e =
    let whole : suc (m.task m.running).ticks ≡ turns m.task (m.running ∷ []) = omega arith in
    subst (λ k. Returns (λ m'. IsScheduled m' × (m'.running ≡ t)) (run_ticks k m)) whole
      (Returns-mono (turn (m.task m.running).ticks m s off refl)
        (λ m' w. (w.scheduled, w.runs ∙ ap (λ q. next_of (q ++ m.running ∷ []) m.idle) e)))
run_ticks-runs (x ∷ xs) t ys m s off e =
    let whole : suc (m.task m.running).ticks + turns m.task (x ∷ xs)
        ≡ turns m.task (m.running ∷ x ∷ xs) =
      omega arith in
    let d : Distinct (x ∷ (xs ++ t ∷ ys)) = subst Distinct e s.queue.once in
    let out : elem m.running (x ∷ xs) ≡ false = not_ahead m s (x ∷ xs) (t ∷ ys) e in
    subst (λ k. Returns (λ m'. IsScheduled m' × (m'.running ≡ t)) (run_ticks k m)) whole
      (subst (Returns (λ m'. IsScheduled m' × (m'.running ≡ t)))
        (sym (run_ticks-add (suc (m.task m.running).ticks) (turns m.task (x ∷ xs)) m))
        (Returns-bind (turn (m.task m.running).ticks m s off refl) (λ m' w.
          let runs : m'.running ≡ x = w.runs ∙ ap (λ q. next_of (q ++ m.running ∷ []) m.idle) e in
          let left : m'.ready ≡ xs ++ t ∷ (ys ++ m.running ∷ []) =
            w.leaves
            ∙ ap (λ q. rest_of (q ++ m.running ∷ [])) e
            ∙ append_assoc xs (t ∷ ys) (m.running ∷ []) in
          let same : turns m'.task (m'.running ∷ xs) ≡ turns m.task (x ∷ xs) =
            ap (λ r. turns m'.task (r ∷ xs)) runs
            ∙ turns-same m.task m'.task m.running (x ∷ xs) out w.others in
          subst (λ k. Returns (λ m''. IsScheduled m'' × (m''.running ≡ t)) (run_ticks k m')) same
            (run_ticks-runs xs t (ys ++ m.running ∷ []) m' w.scheduled w.off left))))
