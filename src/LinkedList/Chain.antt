-- ===== src/LinkedList/Chain.antt =====
-- lib/kernel/list.c: the list of addresses that a store holds between two sentinels, and what the two
-- pointer updates, linking in and unlinking, do to it.
use kernel_travel.Base.{
  ℕ, ◌≡◌, refl, ◌≢◌, Bool, true, false, ◌||◌, List, [], ◌∷◌, ◌++◌, arith, ◌==◌,
}
use kernel_travel.LinkedList.{Store, Queue, update}

abbrev pub elem : ℕ → List ℕ → Bool
elem a [] = false
elem a (x ∷ xs) = a == x || elem a xs

abbrev pub Distinct : List ℕ → Type 0
Distinct [] = Unit
Distinct (x ∷ xs) = (elem x xs ≡ false) × Distinct xs

-- From `p` the `next` pointers lead through `xs` to `q`, and the `prev` pointers lead back.
abbrev pub Chain : Store → ℕ → List ℕ → ℕ → Type 0
Chain s p [] q = (s.next p ≡ q) × (s.prev q ≡ p)
Chain s p (x ∷ xs) q = (s.next p ≡ x) × (s.prev x ≡ p) × Chain s x xs q

-- The list `l` holds the elements `xs`: its addresses are not NULL and are all different.
pub record IsList (s : Store) (l : Queue) (xs : List ℕ) : Type 0 where
  pub chain : Chain s l.head xs l.tail
  pub distinct : Distinct (l.head ∷ (xs ++ l.tail ∷ []))
  pub not_null : elem 0 (l.head ∷ (xs ++ l.tail ∷ [])) ≡ false

pub elem-append : (a : ℕ) (xs ys : List ℕ) → elem a (xs ++ ys) ≡ (elem a xs || elem a ys)
elem-append a [] ys = refl
elem-append a (x ∷ xs) ys = ground (arith, elem-append a xs ys)

pub Chain-frame :
    {s s' : Store} (p : ℕ) (xs : List ℕ) (q : ℕ)
    → Chain s p xs q
    → ((a : ℕ) → elem a (p ∷ xs) ≡ true → s'.next a ≡ s.next a)
    → ((a : ℕ) → elem a (xs ++ q ∷ []) ≡ true → s'.prev a ≡ s.prev a)
    → Chain s' p xs q
Chain-frame p [] q c same_next same_prev = ground (arith, same_next p, same_prev q)
Chain-frame p (x ∷ xs) q c same_next same_prev = (
  ground (arith, same_next p),
  ground (arith, same_prev x),
  Chain-frame x xs q c.2 (λ a h. same_next a (ground arith)) (λ a h. same_prev a (ground arith)),
)

pub Chain-append :
    (s : Store) (p : ℕ) (xs : List ℕ) (b : ℕ) (ys : List ℕ) (q : ℕ)
    → Chain s p xs b
    → Chain s b ys q
    → Chain s p (xs ++ b ∷ ys) q
Chain-append s p [] b ys q c d = (c.0, c.1, d)
Chain-append s p (x ∷ xs) b ys q c d = (c.0, c.1, Chain-append s x xs b ys q c.2 d)

pub Chain-split :
    (s : Store) (p : ℕ) (xs : List ℕ) (b : ℕ) (ys : List ℕ) (q : ℕ)
    → Chain s p (xs ++ b ∷ ys) q
    → Chain s p xs b × Chain s b ys q
Chain-split s p [] b ys q c = ((c.0, c.1), c.2)
Chain-split s p (x ∷ xs) b ys q c =
    let rest = Chain-split s x xs b ys q c.2 in ((c.0, c.1, rest.0), rest.1)

-- What stands before the end of a chain belongs to it.
pub elem-prev :
    (s : Store) (p : ℕ) (xs : List ℕ) (q : ℕ) → Chain s p xs q → elem (s.prev q) (p ∷ xs) ≡ true
elem-prev s p [] q c = ground arith
elem-prev s p (x ∷ xs) q c = ground (arith, elem-prev s x xs q c.2)

pub elem-next :
    (s : Store) (p : ℕ) (xs : List ℕ) (q : ℕ)
    → Chain s p xs q
    → elem (s.next p) (xs ++ q ∷ []) ≡ true
elem-next s p [] q c = ground arith
elem-next s p (x ∷ xs) q c = ground arith

-- The four writes of list_insert_before.
abbrev pub link : Store → ℕ → ℕ → ℕ → Store
link s p elm b = record {
  prev = update (update s.prev elm p) b elm;
  next = update (update s.next p elm) elm b;
}

-- Linking `elm` in before the end `b` of a chain makes it the chain's last element.
pub Chain-link :
    (s : Store) (p : ℕ) (xs : List ℕ) (b elm : ℕ)
    → Chain s p xs b
    → Distinct (p ∷ xs)
    → elem elm (p ∷ xs) ≡ false
    → elem b (p ∷ xs) ≡ false
    → elm ≢ b
    → Chain (link s (s.prev b) elm b) p (xs ++ elm ∷ []) b
Chain-link s p [] b elm c d out_elm out_b ne = ground arith
Chain-link s p (x ∷ xs) b elm c d out_elm out_b ne = (
  ground (arith, elem-prev s x xs b c.2),
  ground arith,
  Chain-link s x xs b elm c.2 d.1 (ground arith) (ground arith) ne,
)

-- The two writes of list_remove.
abbrev pub unlink : Store → ℕ → ℕ → Store
unlink s p q = record { prev = update s.prev q p; next = update s.next p q }

-- Unlinking the element between two chains joins them.
pub Chain-unlink :
    (s : Store) (p : ℕ) (xs : List ℕ) (e : ℕ) (ys : List ℕ) (q : ℕ)
    → Chain s p xs e
    → Chain s e ys q
    → Distinct (p ∷ (xs ++ e ∷ (ys ++ q ∷ [])))
    → Chain (unlink s (s.prev e) (s.next e)) p (xs ++ ys) q
Chain-unlink s p [] e [] q c d dist = ground arith
Chain-unlink s p [] e (y ∷ ys) q c d dist = (
  ground arith,
  ground arith,
  Chain-frame y ys q d.2
      (λ a h. ground (arith, elem-append a ys (q ∷ []), elem-append p ys (q ∷ [])))
      (λ a h. ground arith),
)
Chain-unlink s p (x ∷ xs) e ys q c d dist = (
  ground (arith, elem-prev s x xs e c.2, elem-append p xs (e ∷ (ys ++ q ∷ []))),
  ground (arith, elem-next s e ys q d, elem-append x xs (e ∷ (ys ++ q ∷ []))),
  Chain-unlink s x xs e ys q c.2 d dist.1,
)
