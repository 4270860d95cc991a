-- ===== src/Softirq/Pass.antt =====
-- kernel/softirq.c: a pass over the soft interrupts runs exactly those that are raised, in order.
use kernel_travel.Base.{
  ℕ, zero, suc, ◌+◌, ◌*◌, ◌/◌, ◌%◌, ◌^◌, ◌≤◌, ◌<◌, ◌≡◌, refl, sym, ap, ◌∙◌, subst, inl, inr, Bool,
  true, false, some, List, [], ◌∷◌, arith, ◌==◌, u32, Bool-cases, get_elem?, Outcome, ok, ◌>>=◌,
  present, Returns, returns, Returns-bind, Returns-mono, Returns-result, if-true, if-false,
  Returns-after, bind_ok,
}
use kernel_travel.Base.{u32}
use kernel_travel.Base.{
  ℕ, zero, suc, ◌+◌, ◌*◌, ◌/◌, ◌%◌, ◌^◌, ◌≤◌, ◌<◌, ◌≡◌, refl, sym, ap, ◌∙◌, subst, inl, inr, Bool,
  true, false, some, List, [], ◌∷◌, arith, ◌==◌, u32, Bool-cases, get_elem?, Outcome, ok, ◌>>=◌,
  present, Returns, returns, Returns-bind, Returns-mono, Returns-result, if-true, if-false,
  Returns-after, bind_ok,
}
use kernel_travel.Base.{u32}
use kernel_travel.LinkedList.Chain.{elem}
use kernel_travel.Softirq.{Softirq, bh_enable, cleared, action_loop, do_softirq, bh_disable}

-- Bit `k` of a number.
abbrev pub raised : ℕ → ℕ → Bool
raised active zero = active % 2 == 1
raised active (suc k) = raised (active / 2) k

-- The numbers ascend from `h` on.
abbrev pub Ascends : ℕ → List ℕ → Type 0
Ascends h [] = Unit
Ascends h (k ∷ ks) = (h ≤ k) × Ascends (k + 1) ks

Ascends-weaken : (h : ℕ) (ks : List ℕ) → Ascends (h + 1) ks → Ascends h ks
Ascends-weaken h [] a = tt
Ascends-weaken h (k ∷ ks) a = (omega (arith, a.0), a.1)

Ascends-above : (h k : ℕ) (ks : List ℕ) → Ascends h ks → k < h → elem k ks ≡ false
Ascends-above h k [] a l = refl
Ascends-above h k (x ∷ ks) a l =
    ground (arith, a.0, l, Ascends-above (x + 1) k ks a.1 (omega (arith, a.0, l)))

raised-zero : (k : ℕ) → raised 0 k ≡ false
raised-zero zero = refl
raised-zero (suc k) = raised-zero k

-- The run of the actions of the bits of `active`, the first of number `h`.
record Ran (active h : ℕ) (ran : List ℕ) : Type 0 where
  order : Ascends h ran
  exact : (k : ℕ) → elem (h + k) ran ≡ raised active k

Ran-none : (h active : ℕ) → (active == 0) ≡ true → Ran active h []
Ran-none h active e = record {
  order = tt;
  exact = λ k. sym (raised-zero k) ∙ ap (λ a. raised a k) (ground (arith, e));
}

Ran-skip :
    (active h : ℕ) (ran : List ℕ)
    → (active % 2 == 1) ≡ false
    → Ran (active / 2) (h + 1) ran
    → Ran active h ran
Ran-skip active h ran even r = record { order = Ascends-weaken h ran r.order; exact = at }
  where
    at : (k : ℕ) → elem (h + k) ran ≡ raised active k
    at zero = Ascends-above (h + 1) (h + 0) ran r.order (omega arith) ∙ sym even
    at (suc k) = ap (λ n. elem n ran) (omega arith) ∙ r.exact k

Ran-run :
    (active h : ℕ) (ran : List ℕ)
    → (active % 2 == 1) ≡ true
    → Ran (active / 2) (h + 1) ran
    → Ran active h (h ∷ ran)
Ran-run active h ran odd r = record { order = (omega arith, r.order); exact = at }
  where
    at : (k : ℕ) → elem (h + k) (h ∷ ran) ≡ raised active k
    at zero = ground (arith, odd)
    at (suc k) =
        let shift : h + suc k ≡ h + 1 + k = omega arith in
        ground (arith, ap (λ n. elem n ran) shift, r.exact k)

-- The actions of the numbers, one after the other.
abbrev pub run_actions : (ℕ → Softirq → Outcome Softirq) → List ℕ → Softirq → Outcome Softirq
run_actions act [] s = ok s
run_actions act (k ∷ ks) s = do s' ← act k s; run_actions act ks s'

-- Every action returns, and leaves the table of the actions.
abbrev pub ActionsReturn : (ℕ → Softirq → Outcome Softirq) → Type 0
ActionsReturn act = (k : ℕ) (s : Softirq) → Returns (λ s'. s'.softirq_vec ≡ s.softirq_vec) (act k s)

-- The loop has run the actions of the bits of `active` on `s`.
record LoopRan (act : ℕ → Softirq → Outcome Softirq) (active h : ℕ) (s : Softirq)
    (r : List ℕ × Softirq) : Type 0 where
  ran : Ran active h r.0
  left : run_actions act r.0 s ≡ ok r.1

module _ (act : ℕ → Softirq → Outcome Softirq) (acts : ActionsReturn act) where
  action_loop-LoopRan :
      (n active h : ℕ) (s : Softirq)
      → active < 2 ^ n
      → ((k : ℕ) → raised active k ≡ true → get_elem? s.softirq_vec (h + k) ≡ some true)
      → Returns (LoopRan act active h s) (action_loop act n active h s)
  unfolding action_loop
  action_loop-LoopRan zero active h s small there =
      let empty : (active == 0) ≡ true = ground (arith, small) in
      subst (Returns (LoopRan act active h s)) (sym (if-true _ _ empty))
        (returns (record { ran = Ran-none h active empty; left = refl }))
  action_loop-LoopRan (suc n) active h s small there =
      let double : 2 ^ suc n ≡ 2 * 2 ^ n = omega arith in
      let half : active / 2 < 2 ^ n = omega (arith, small, double) in
      let rest_there : (k : ℕ)
          → raised (active / 2) k ≡ true
          → get_elem? s.softirq_vec (h + 1 + k) ≡ some true =
        (λ k e.
          let shift : h + 1 + k ≡ h + suc k = omega arith in
          ap (get_elem? s.softirq_vec) shift ∙ there (suc k) e) in
      elim (Bool-cases (active == 0)) [
        | inl empty ↦
            subst (Returns (LoopRan act active h s)) (sym (if-true _ _ empty))
              (returns (record { ran = Ran-none h active empty; left = refl }))
        | inr some_left ↦
            subst (Returns (LoopRan act active h s)) (sym (if-false _ _ some_left))
              (elim (Bool-cases (active % 2 == 1)) [
                | inl odd ↦
                    let at : h ≡ h + 0 = omega arith in
                    let (s', run, same) = Returns-result (acts h s) in
                    subst (Returns (LoopRan act active h s)) (sym (if-true _ _ odd)) (
                      Returns-after _ (ap present (ap (get_elem? s.softirq_vec) at ∙ there 0 odd)) (
                        Returns-after _ run (
                          Returns-bind
                            (action_loop-LoopRan n (active / 2) (h + 1) s' half
                              (λ k e. ap (λ v. get_elem? v (h + 1 + k)) same ∙ rest_there k e))
                            (λ r w. returns (record {
                              ran = Ran-run active h r.0 odd w.ran;
                              left = bind_ok (run_actions act r.0) run ∙ w.left;
                            })))))
                | inr even ↦ subst (Returns (LoopRan act active h s)) (sym (if-false _ _ even)) (
                    Returns-mono (action_loop-LoopRan n (active / 2) (h + 1) s half rest_there)
                      (λ r w. record { ran = Ran-skip active h r.0 even w.ran; left = w.left }))
              ])
      ]

at_zero : (k : ℕ) → 0 + k ≡ k
at_zero k = omega arith

-- The state in which the actions run: nothing is raised, and the bottom halves are disabled once more.
abbrev pub start : Softirq → Softirq
start s = record s { softirq_active = 0; bh_count = u32 (s.bh_count + 1) }

cleared-eq-start : (s : Softirq) → cleared s ≡ start s
unfolding cleared bh_disable
cleared-eq-start s = refl

-- A pass outside an interrupt, where every raised number has an action and all actions return and leave the
-- table, ends: the actions that run are exactly those of the numbers that were raised at the start, once
-- each and in ascending order, on a set that was cleared before the first of them. The state then is what
-- they leave, what they have raised again included, with the disabling of the bottom halves taken back.
pub do_softirq-raised :
    (act : ℕ → Softirq → Outcome Softirq) (s : Softirq)
    → ActionsReturn act
    → s.softirq_active < 2 ^ 32
    → ((k : ℕ) → raised s.softirq_active k ≡ true → get_elem? s.softirq_vec k ≡ some true)
    → Returns
        (λ r.
          Ascends 0 r.0
          × ((k : ℕ) → elem k r.0 ≡ raised s.softirq_active k)
          × ((last : Softirq) × (run_actions act r.0 (start s) ≡ ok last) × (r.1 ≡ bh_enable last)))
        (do_softirq act false s)
unfolding do_softirq
do_softirq-raised act s acts small there =
    Returns-bind
      (action_loop-LoopRan act acts 32 s.softirq_active 0 (cleared s) small (λ k e.
        ap (λ v. get_elem? v (0 + k)) (ap (λ v. v.softirq_vec) (cleared-eq-start s))
        ∙ ap (get_elem? s.softirq_vec) (at_zero k)
        ∙ there k e))
      (λ r w. returns (
        w.ran.order,
        (λ k. ap (λ j. elem j r.0) (sym (at_zero k)) ∙ w.ran.exact k),
        (r.1, ap (run_actions act r.0) (sym (cleared-eq-start s)) ∙ w.left, refl),
      ))
