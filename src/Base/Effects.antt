-- ===== src/Base/Effects.antt =====
-- What a run of kernel code comes to. `panic` is a failed ASSERT or a BUG(), after which the machine
-- spins in panic_spin; `fault` is an access that C leaves undefined, such as one past an array;
-- `spin` means that a loop did not end within the rounds that the model gives it.
use mathlib.Core.Path.{◌≡◌, refl, sym, ap, subst}
use mathlib.Core.Bool.{Bool, true, false}
use mathlib.Core.Option.{Option, none, some}

pub data Outcome {ℓ} (A : Type ℓ) : Type ℓ where
  ok : A → Outcome A
  panic fault spin : Outcome A

infixl 5 ◌>>=◌ ◌>>◌
abbrev pub ◌>>=◌ {ℓ κ} : {A : Type ℓ} {B : Type κ} → Outcome A → (A → Outcome B) → Outcome B
ok a >>= f = f a
panic >>= f = panic
fault >>= f = fault
spin >>= f = spin

abbrev pub ◌>>◌ {ℓ} : {B : Type ℓ} → Outcome (Unit {0}) → Outcome B → Outcome B
m >> k = m >>= λ _. k

-- ASSERT(b)
abbrev pub assert : Bool → Outcome (Unit {0})
assert true = ok tt
assert false = panic

-- A read through an index or a pointer that may not be there.
abbrev pub present {ℓ} : {A : Type ℓ} → Option A → Outcome A
present none = fault
present (some a) = ok a

-- Total correctness: the run ends well, and its value has the property.
pub data Returns {ℓ κ} {A : Type ℓ} (P : A → Type κ) : Outcome A → Type (ℓ ⊔ κ) where
  returns : {a : A} → P a → Returns P (ok a)

pub Returns-bind {ℓ κ μ} :
    {A B : Type ℓ} {P : A → Type κ} {Q : B → Type μ} {m : Outcome A} {f : A → Outcome B}
    → Returns P m
    → ((a : A) → P a → Returns Q (f a))
    → Returns Q (m >>= f)
Returns-bind (returns p) next = next _ p

pub Returns-mono {ℓ κ μ} :
    {A : Type ℓ} {P : A → Type κ} {Q : A → Type μ} {m : Outcome A}
    → Returns P m
    → ((a : A) → P a → Q a)
    → Returns Q m
Returns-mono (returns p) weaken = returns (weaken _ p)

-- A run that ends well is followed by what its continuation does at every value with the property.
pub bind-eq {ℓ κ} :
    {A B : Type ℓ} {P : A → Type κ} {m : Outcome A} (f : A → Outcome B) (r : Outcome B)
    → Returns P m
    → ((a : A) → P a → f a ≡ r)
    → (m >>= f) ≡ r
bind-eq f r (returns p) next = next _ p

-- What a run that ends well comes to.
pub Returns-result {ℓ κ} :
    {A : Type ℓ} {P : A → Type κ} {m : Outcome A} → Returns P m → (a : A) × (m ≡ ok a) × P a
Returns-result (returns p) = (_, refl, p)

-- A test that holds lets the run go on.
pub Returns-assert {ℓ κ} :
    {A : Type ℓ} {P : A → Type κ} {b : Bool} {k : Outcome A}
    → b ≡ true
    → Returns P k
    → Returns P (assert b >> k)
Returns-assert e r = rw e r

pub bind_assoc {ℓ} :
    {A B C : Type ℓ} (m : Outcome A) (f : A → Outcome B) (g : B → Outcome C)
    → ((m >>= f) >>= g) ≡ (m >>= λ a. f a >>= g)
bind_assoc (ok a) f g = refl
bind_assoc panic f g = refl
bind_assoc fault f g = refl
bind_assoc spin f g = refl

abbrev pub is_ok {ℓ} : {A : Type ℓ} → Outcome A → Bool
is_ok (ok a) = true
is_ok _ = false

abbrev pub value_or {ℓ} : {A : Type ℓ} → A → Outcome A → A
value_or a (ok b) = b
value_or a _ = a

-- What a run that came to a value is known to return.
pub Returns-ok {ℓ κ} :
    {A : Type ℓ} {P : A → Type κ} {m : Outcome A} {a : A} → Returns P m → m ≡ ok a → P a
Returns-ok {P = P} {a = b} (returns p) e = subst P (ap (value_or b) e) p

-- A run that came to a value has passed its test.
pub assert-true {ℓ} :
    {A : Type ℓ} {a : A} (b : Bool) (k : Outcome A) → (assert b >> k) ≡ ok a → b ≡ true
assert-true true k e = refl
assert-true false k e = ap is_ok e

-- A run goes on from the value that its first part came to.
pub Returns-after {ℓ κ} :
    {A B : Type ℓ} {Q : B → Type κ} {m : Outcome A} {a : A} (f : A → Outcome B)
    → m ≡ ok a
    → Returns Q (f a)
    → Returns Q (m >>= f)
Returns-after {Q = Q} f e r = subst (λ o. Returns Q (o >>= f)) (sym e) r

pub assert_run {ℓ} : {A : Type ℓ} {b : Bool} (k : Outcome A) → b ≡ true → (assert b >> k) ≡ k
assert_run k e = rw e refl

pub bind_ok {ℓ} :
    {A B : Type ℓ} {m : Outcome A} {a : A} (f : A → Outcome B) → m ≡ ok a → (m >>= f) ≡ f a
bind_ok f e = ap (λ o. o >>= f) e
