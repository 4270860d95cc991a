-- ===== src/Processes/Wake.antt =====
-- userprog/wait.c: the wake-up of a parent by a child that ends, and the search for a thread.
use kernel_travel.Base.{
  ℕ, ◌≡◌, refl, sym, ap, ◌∙◌, subst, inl, inr, Bool, true, false, some, List, [], ◌∷◌, arith, ◌==◌,
  Bool-cases, ◌>>=◌, Returns, Returns-mono, if-true, if-false,
}
use kernel_travel.LinkedList.Chain.{elem}
use kernel_travel.Threads.{
  Status, Machine, is_parked, is_ready, task_running, task_waiting, task_hanging, task_died,
  thread_block, task_ready, task_blocked,
}
use kernel_travel.Threads.Invariant.{IsScheduled, parked-else}
use kernel_travel.Threads.Switch.{thread_unblock-woken}
use kernel_travel.Threads.Keep.{thread_block-Switch, woken-IsScheduled}
use kernel_travel.Processes.{Process, is_hanging, is_waiting, find_first, put_info, wake_parent}

pub same_of : (a b : ℕ) → (a == b) ≡ true → a ≡ b
same_of a b e = ground (arith, e)

in_rest :
    (test : ℕ → Bool) (u t : ℕ) (us : List ℕ)
    → test t ≡ true
    → test u ≡ false
    → elem t (u ∷ us) ≡ true
    → elem t us ≡ true
in_rest test u t us h k m = elim (Bool-cases (t == u)) [
  | inl e ↦ absurd (ground (arith, sym h ∙ ap test (same_of t u e) ∙ k))
  | inr e ↦ ground (arith, m, e)
]

pub find_first_unique :
    (test : ℕ → Bool) (ts : List ℕ) (t : ℕ)
    → elem t ts ≡ true
    → test t ≡ true
    → ((u : ℕ) → elem u ts ≡ true → test u ≡ true → u ≡ t)
    → find_first test ts ≡ some t
unfolding find_first
find_first_unique test [] t m h one = absurd (ground (arith, m))
find_first_unique test (u ∷ us) t m h one = elim (Bool-cases (test u)) [
  | inl k ↦ if-true _ _ k ∙ ap some (one u (ground arith) k)
  | inr k ↦
      if-false _ _ k
      ∙ find_first_unique test us t (in_rest test u t us h k m) h (λ v n. one v (ground (arith, n)))
]

waiting-parked : (st : Status) → is_waiting st ≡ true → is_parked st ≡ true
waiting-parked task_running h = absurd (ground (arith, h))
waiting-parked task_ready h = absurd (ground (arith, h))
waiting-parked task_blocked h = absurd (ground (arith, h))
waiting-parked task_waiting h = refl
waiting-parked task_hanging h = absurd (ground (arith, h))
waiting-parked task_died h = absurd (ground (arith, h))

pub hanging-else : (st : Status) → is_hanging st ≡ true → is_ready st ≡ false
hanging-else task_running h = refl
hanging-else task_ready h = absurd (ground (arith, h))
hanging-else task_blocked h = refl
hanging-else task_waiting h = refl
hanging-else task_hanging h = refl
hanging-else task_died h = refl

-- The machine after the parent has been woken and the child has stopped.
module _ (m : Machine) (parent : ℕ) (sched : IsScheduled m)
    (stopped : is_waiting (m.task parent).status ≡ true) where
  parent_parked : is_parked (m.task parent).status ≡ true
  parent_parked = waiting-parked (m.task parent).status stopped

  pub child_ne_parent : (m.running == parent) ≡ false
  child_ne_parent = elim (Bool-cases (m.running == parent)) [
    | inl e ↦
        absurd (
          ground
            (arith, sched.one_runs parent, parked-else (m.task parent).status parent_parked, e))
    | inr e ↦ e
  ]

  -- The parent is the next thread, and the child is a zombie.
  pub stop_after_wake :
      Returns
        (λ m'.
          IsScheduled m' × (m'.running ≡ parent) × (is_hanging (m'.task m.running).status ≡ true))
        (wake_parent m (some parent) >>= λ w. thread_block w task_hanging)
  unfolding wake_parent
  stop_after_wake =
      let sw = woken-IsScheduled sched parent parent_parked in
      let P = (λ (m' : Machine).
        IsScheduled m' × (m'.running ≡ parent) × (is_hanging (m'.task m.running).status ≡ true)) in
      subst (λ o. Returns P (o >>= λ w. thread_block w task_hanging))
        (sym (if-true _ _ stopped ∙ thread_unblock-woken m parent sched.queue parent_parked))
        (Returns-mono (thread_block-Switch sw task_hanging refl) (λ m' k.
          let off : (m.running == m'.running) ≡ false =
            ap (λ r. m.running == r) k.runs ∙ child_ne_parent in
          (
            k.scheduled,
            k.runs,
            ap is_hanging (k.statuses m.running ∙ if-false _ _ off) ∙ ground arith,
          )))

pub put_info-pid :
    (info : ℕ → Process) (p t : ℕ) (v : Process)
    → v.pid ≡ (info p).pid
    → (put_info info p v t).pid ≡ (info t).pid
put_info-pid info p t v e = elim (Bool-cases (t == p)) [
  | inl k ↦
      ap (λ (w : Process). w.pid) (if-true _ _ k) ∙ e ∙ ap (λ q. (info q).pid) (sym (same_of t p k))
  | inr k ↦ ap (λ (w : Process). w.pid) (if-false _ _ k)
]
