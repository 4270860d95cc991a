-- ===== src/Timer/Reuse.antt =====
-- drivers/timer.c: del_timer, and what is left of a timer for add_timer.
use kernel_travel.Base.{
  ℕ, ◌≡◌, refl, sym, ap, ◌∙◌, subst, false, List, ◌∷◌, ◌++◌, ◌==◌, if◌then◌else◌, Outcome, ok,
  panic, ◌>>=◌, Returns, returns, Returns-bind, if-false,
}
use kernel_travel.LinkedList.{Queue, list_remove}
use kernel_travel.LinkedList.Chain.{IsList}
use kernel_travel.LinkedList.Distinct.{nodes}
use kernel_travel.LinkedList.Update.{Becomes, element-not_null, list_remove-stale}
use kernel_travel.Timer.{Wheel, del_timer, detach_timer, add_timer}

abbrev removed : Wheel → ℕ → Outcome (ℕ × Wheel)
removed w timer = do s ← list_remove w.store timer; ok (1, record w { store = s })

refused :
    (w : Wheel) (timer : ℕ)
    → (timer == 0) ≡ false
    → (w.store.prev timer == 0) ≡ false
    → add_timer w timer ≡ panic
unfolding add_timer
refused w timer live linked = rw (live, linked) refl

detach_timer-linked :
    (w : Wheel) (timer : ℕ)
    → (timer == 0) ≡ false
    → (w.store.prev timer == 0) ≡ false
    → detach_timer w timer ≡ removed w timer
unfolding detach_timer
detach_timer-linked w timer live linked =
    ap (λ r. do p ← r; (if p == 0 then ok (0, w) else removed w timer)) (if-false _ _ live)
    ∙ if-false _ _ linked

-- del_timer of a timer that is in a list takes it out of the list, touches no other node than the
-- list's and returns 1; an add_timer of the timer after that is a panic, since the timer keeps its
-- links.
pub del_timer-add_timer :
    (w : Wheel) (l : Queue) (timer : ℕ) (xs ys : List ℕ)
    → IsList w.store l (xs ++ timer ∷ ys)
    → Returns
        (λ r.
          (r.0 ≡ 1)
          × Becomes w.store l (nodes l (xs ++ timer ∷ ys)) (xs ++ ys) r.1.store
          × (add_timer r.1 timer ≡ panic))
        (del_timer w timer)
unfolding del_timer
del_timer-add_timer w l timer xs ys is =
    let (live, linked) = element-not_null timer xs ys is in
    subst (Returns _) (sym (detach_timer-linked w timer live linked)) (
      Returns-bind (list_remove-stale timer xs ys is)
        (λ s b. returns (refl, b.0, refused (record w { store = s }) timer live b.1)))
