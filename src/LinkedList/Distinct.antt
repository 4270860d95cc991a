-- ===== src/LinkedList/Distinct.antt =====
-- Lists of different addresses, for lib/kernel/list.c.

use kernel_travel.Base.{ℕ, ◌≡◌, ◌≢◌, true, false, List, [], ◌∷◌, ◌++◌, arith}
use kernel_travel.LinkedList.{Queue}
use kernel_travel.LinkedList.Chain.{elem, Distinct, elem-append}

-- All nodes of a list, its sentinels included.
abbrev pub nodes : Queue → List ℕ → List ℕ
nodes l xs = l.head ∷ (xs ++ l.tail ∷ [])

pub disjoint_of_Distinct :
    (a : ℕ) (xs ys : List ℕ) → Distinct (xs ++ ys) → elem a xs ≡ true → elem a ys ≡ false
disjoint_of_Distinct a [] ys d h = absurd (ground arith)
disjoint_of_Distinct a (x ∷ xs) ys d h =
    ground (arith, elem-append x xs ys, disjoint_of_Distinct a xs ys d.1)

pub Distinct-left : (xs ys : List ℕ) → Distinct (xs ++ ys) → Distinct xs
Distinct-left [] ys d = tt
Distinct-left (x ∷ xs) ys d = (ground (arith, elem-append x xs ys), Distinct-left xs ys d.1)

pub Distinct-insert :
    (e : ℕ) (xs ys : List ℕ)
    → Distinct (xs ++ ys)
    → elem e (xs ++ ys) ≡ false
    → Distinct (xs ++ e ∷ ys)
Distinct-insert e [] ys d h = (h, d)
Distinct-insert e (x ∷ xs) ys d h = (
  ground (arith, elem-append x xs ys, elem-append x xs (e ∷ ys)),
  Distinct-insert e xs ys d.1 (ground arith),
)

pub Distinct-remove :
    (e : ℕ) (xs ys : List ℕ)
    → Distinct (xs ++ e ∷ ys)
    → Distinct (xs ++ ys) × (elem e (xs ++ ys) ≡ false)
Distinct-remove e [] ys d = (d.1, d.0)
Distinct-remove e (x ∷ xs) ys d =
    let rest = Distinct-remove e xs ys d.1 in
    (
      (ground (arith, elem-append x xs ys, elem-append x xs (e ∷ ys)), rest.0),
      ground (arith, elem-append x xs (e ∷ ys), rest.1),
    )

pub absent-insert :
    (a e : ℕ) (xs ys : List ℕ) → a ≢ e → elem a (xs ++ ys) ≡ false → elem a (xs ++ e ∷ ys) ≡ false
absent-insert a e xs ys ne h = ground (arith, elem-append a xs ys, elem-append a xs (e ∷ ys))

pub absent-remove :
    (a e : ℕ) (xs ys : List ℕ) → elem a (xs ++ e ∷ ys) ≡ false → elem a (xs ++ ys) ≡ false
absent-remove a e xs ys h = ground (arith, elem-append a xs ys, elem-append a xs (e ∷ ys))

pub absent_left : (e : ℕ) (xs ys : List ℕ) → Distinct (xs ++ e ∷ ys) → elem e xs ≡ false
absent_left e xs ys d = ground (arith, elem-append e xs ys, Distinct-remove e xs ys d)

pub absent_right : (e : ℕ) (xs ys : List ℕ) → Distinct (xs ++ e ∷ ys) → elem e ys ≡ false
absent_right e xs ys d = ground (arith, elem-append e xs ys, Distinct-remove e xs ys d)
