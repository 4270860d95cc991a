-- ===== src/LinkedList/Update.antt =====
-- lib/kernel/list.c: the functions that change a list, against lists of addresses.
use mathlib.Core.List.{append-nil, append_assoc}
use kernel_travel.Base.{
  ℕ, ◌≡◌, refl, sym, ◌≢◌, true, false, List, [], ◌∷◌, ◌++◌, arith, ◌==◌, ok, Returns, returns,
  Returns-bind, Returns-ok,
}
use kernel_travel.Base.{Returns-ok}
use kernel_travel.LinkedList.{
  Store, Queue, list_init, list_insert_before, list_push, list_append, list_remove, list_pop,
  list_tail,
}
use kernel_travel.LinkedList.Chain.{
  elem, Distinct, Chain, IsList, elem-append, Chain-frame, Chain-split, elem-prev, elem-next, link,
  unlink, Chain-link, Chain-unlink,
}
use kernel_travel.LinkedList.Distinct.{
  nodes, Distinct-left, absent-insert, absent-remove, absent_left, Distinct-insert, Distinct-remove,
  absent_right,
}

-- The stores differ at most at the nodes listed.
abbrev pub SameOutside : List ℕ → Store → Store → Type 0
SameOutside xs s s' = (a : ℕ) → elem a xs ≡ false → (s'.next a ≡ s.next a) × (s'.prev a ≡ s.prev a)

abbrev pub Fresh : ℕ → Queue → List ℕ → Type 0
Fresh elm l xs = elem elm (0 ∷ nodes l xs) ≡ false

module _ (l : Queue) (xs ys : List ℕ) (elm : ℕ) where
  Distinct-insert_nodes :
      Distinct (l.head ∷ (xs ++ (ys ++ l.tail ∷ [])))
      → elem elm (l.head ∷ (xs ++ (ys ++ l.tail ∷ []))) ≡ false
      → Distinct (nodes l (xs ++ elm ∷ ys))
  Distinct-insert_nodes d fresh =
      rw append_assoc (Distinct-insert elm (l.head ∷ xs) (ys ++ l.tail ∷ []) d fresh)

  not_null-insert :
      elm ≢ 0
      → elem 0 (l.head ∷ (xs ++ (ys ++ l.tail ∷ []))) ≡ false
      → elem 0 (nodes l (xs ++ elm ∷ ys)) ≡ false
  not_null-insert ne h =
      rw append_assoc (absent-insert 0 elm (l.head ∷ xs) (ys ++ l.tail ∷ []) (λ e. ne (sym e)) h)

  Distinct-remove_nodes : Distinct (nodes l (xs ++ elm ∷ ys)) → Distinct (nodes l (xs ++ ys))
  Distinct-remove_nodes d =
      rw append_assoc
        (Distinct-remove elm (l.head ∷ xs) (ys ++ l.tail ∷ []) (rw append_assoc at d)).0

  not_null-remove : elem 0 (nodes l (xs ++ elm ∷ ys)) ≡ false → elem 0 (nodes l (xs ++ ys)) ≡ false
  not_null-remove h =
      rw append_assoc (absent-remove 0 elm (l.head ∷ xs) (ys ++ l.tail ∷ []) (rw append_assoc at h))

insert_before-ok :
    (s : Store) (b elm : ℕ)
    → b ≢ 0
    → s.prev b ≢ 0
    → elm ≢ 0
    → list_insert_before s b elm ≡ ok (link s (s.prev b) elm b)
unfolding list_insert_before
insert_before-ok s b elm hb hp he = ground arith

prev-ne-null :
    (s : Store) (p : ℕ) (xs ys : List ℕ) (b : ℕ)
    → Chain s p xs b
    → elem 0 (p ∷ (xs ++ ys)) ≡ false
    → s.prev b ≢ 0
prev-ne-null s p xs ys b c h = ground (arith, elem-prev s p xs b c, elem-append 0 xs ys)

list_push-ok :
    (s : Store) (l : Queue) (b elm : ℕ)
    → s.next l.head ≡ b
    → s.prev b ≡ l.head
    → l.head ≢ 0
    → b ≢ 0
    → elm ≢ 0
    → list_push s l elm ≡ ok (link s l.head elm b)
unfolding list_push
list_push-ok s l b elm hn hp hh hb he = ground arith

remove-ok :
    (s : Store) (e : ℕ)
    → e ≢ 0
    → s.prev e ≢ 0
    → s.next e ≢ 0
    → s.prev e ≢ e
    → list_remove s e ≡ ok (unlink s (s.prev e) (s.next e))
unfolding list_remove
remove-ok s e he hp hn ne = ground arith

-- What an update of a list to `ys` leaves: that list, and all but the touched nodes as they were.
abbrev pub Becomes : Store → Queue → List ℕ → List ℕ → Store → Type 0
Becomes s l touched ys s' = IsList s' l ys × SameOutside touched s s'

module _ {s : Store} {l : Queue} (elm : ℕ) where
  -- list_append adds the element at the end of the list, and touches no node outside the list but it.
  pub list_append-IsList :
      (xs : List ℕ)
      → IsList s l xs
      → Fresh elm l xs
      → Returns (Becomes s l (elm ∷ nodes l xs) (xs ++ elm ∷ [])) (list_append s l elm)
  unfolding list_append
  list_append-IsList xs is fresh =
      rw
        (insert_before-ok s l.tail elm (ground (arith, is.not_null, elem-append 0 xs (l.tail ∷ [])))
          (prev-ne-null s l.head xs (l.tail ∷ []) l.tail is.chain is.not_null) (ground arith))
        (returns (
          record {
            chain =
                Chain-link s l.head xs l.tail elm is.chain
                  (Distinct-left (l.head ∷ xs) (l.tail ∷ []) is.distinct)
                  (ground (arith, elem-append elm xs (l.tail ∷ [])))
                  (absent_left l.tail (l.head ∷ xs) [] is.distinct)
                  (ground (arith, elem-append elm xs (l.tail ∷ [])));
            distinct = Distinct-insert_nodes l xs [] elm is.distinct (ground arith);
            not_null = not_null-insert l xs [] elm (ground arith) is.not_null;
          },
          λ a out.
              ground (arith, elem-prev s l.head xs l.tail is.chain, elem-append a xs (l.tail ∷ [])),
        ))

  -- list_push puts the element in front of the list, and touches no node outside the list but it.
  pub list_push-IsList :
      (xs : List ℕ)
      → IsList s l xs
      → Fresh elm l xs
      → Returns (Becomes s l (elm ∷ nodes l xs) (elm ∷ xs)) (list_push s l elm)
  unfolding list_push
  list_push-IsList [] is fresh =
      rw
        (list_push-ok s l l.tail elm is.chain.0 is.chain.1 (ground (arith, is.not_null))
          (ground (arith, is.not_null)) (ground arith))
        (returns (
          record {
            chain = ground (arith, is.distinct);
            distinct = Distinct-insert_nodes l [] [] elm is.distinct (ground arith);
            not_null = not_null-insert l [] [] elm (ground arith) is.not_null;
          },
          λ a out. ground arith,
        ))
  list_push-IsList (y ∷ ys) is fresh =
      rw
        (list_push-ok s l y elm is.chain.0 is.chain.1 (ground (arith, is.not_null))
          (ground (arith, is.not_null)) (ground arith))
        (returns (
          record {
            chain = (
              ground arith,
              ground (arith, is.distinct),
              (
                ground (arith, is.distinct),
                ground arith,
                Chain-frame y ys l.tail is.chain.2
                    (λ a h. ground (
                      arith,
                      is.distinct,
                      elem-append a ys (l.tail ∷ []),
                      elem-append l.head ys (l.tail ∷ []),
                      elem-append elm ys (l.tail ∷ []),
                    ))
                    (λ a h. ground (arith, is.distinct)),
              ),
            );
            distinct = Distinct-insert_nodes l [] (y ∷ ys) elm is.distinct (ground arith);
            not_null = not_null-insert l [] (y ∷ ys) elm (ground arith) is.not_null;
          },
          λ a out. ground arith,
        ))

module _ {s : Store} {l : Queue} (e : ℕ) (xs ys : List ℕ) (is : IsList s l (xs ++ e ∷ ys)) where
  split : Chain s l.head xs e × Chain s e ys l.tail
  split = Chain-split s l.head xs e ys l.tail is.chain

  all-Distinct : Distinct (l.head ∷ (xs ++ e ∷ (ys ++ l.tail ∷ [])))
  all-Distinct = rw append_assoc at is.distinct

  none_null : elem 0 (l.head ∷ (xs ++ e ∷ (ys ++ l.tail ∷ []))) ≡ false
  none_null = rw append_assoc at is.not_null

  next_inside : elem (s.next e) (ys ++ l.tail ∷ []) ≡ true
  next_inside = elem-next s e ys l.tail split.1

  prev_inside : elem (s.prev e) (l.head ∷ xs) ≡ true
  prev_inside = elem-prev s l.head xs e split.0

  unlinks : list_remove s e ≡ ok (unlink s (s.prev e) (s.next e))
  unlinks =
      remove-ok s e (ground (arith, none_null, elem-append 0 xs (e ∷ (ys ++ l.tail ∷ []))))
        (prev-ne-null s l.head xs (e ∷ (ys ++ l.tail ∷ [])) e split.0 none_null)
        (ground (arith, none_null, next_inside, elem-append 0 xs (e ∷ (ys ++ l.tail ∷ []))))
        (ground (arith, prev_inside, absent_left e (l.head ∷ xs) (ys ++ l.tail ∷ []) all-Distinct))

  outside :
      (a : ℕ)
      → elem a (nodes l (xs ++ e ∷ ys)) ≡ false
      → (elem a (l.head ∷ xs) ≡ false) × (elem a (ys ++ l.tail ∷ []) ≡ false)
  outside a out =
      let out' : elem a (l.head ∷ (xs ++ e ∷ (ys ++ l.tail ∷ []))) ≡ false =
        rw append_assoc at out in
      ground (arith, elem-append a xs (e ∷ (ys ++ l.tail ∷ [])))

  -- list_remove takes the element out of the list that it is in, wherever it stands.
  pub list_remove-IsList :
      Returns (Becomes s l (nodes l (xs ++ e ∷ ys)) (xs ++ ys)) (list_remove s e)
  list_remove-IsList = rw unlinks (
      returns (
        record {
          chain = Chain-unlink s l.head xs e ys l.tail split.0 split.1 all-Distinct;
          distinct = Distinct-remove_nodes l xs ys e is.distinct;
          not_null = not_null-remove l xs ys e is.not_null;
        },
        λ a out. ground (arith, outside a out, next_inside, prev_inside),
      ))

  -- An element of a list is not NULL, and neither is what stands before it.
  pub element-not_null : ((e == 0) ≡ false) × ((s.prev e == 0) ≡ false)
  element-not_null = (
    ground (arith, none_null, elem-append 0 xs (e ∷ (ys ++ l.tail ∷ []))),
    ground (arith, prev-ne-null s l.head xs (e ∷ (ys ++ l.tail ∷ [])) e split.0 none_null),
  )

  -- list_remove leaves the element its own links: the one to what was before it is not NULL.
  pub list_remove-stale :
      Returns
        (λ s'. Becomes s l (nodes l (xs ++ e ∷ ys)) (xs ++ ys) s' × ((s'.prev e == 0) ≡ false))
        (list_remove s e)
  list_remove-stale =
      let done = list_remove-IsList in
      rw unlinks (
        returns (
          Returns-ok done unlinks,
          ground (
            arith,
            next_inside,
            absent_right e (l.head ∷ xs) (ys ++ l.tail ∷ []) all-Distinct,
            prev-ne-null s l.head xs (e ∷ (ys ++ l.tail ∷ [])) e split.0 none_null,
          ),
        ))

module _ {s : Store} {l : Queue} (e : ℕ) (xs : List ℕ) where
  -- list_pop returns the first element and leaves the others.
  pub list_pop-IsList :
      IsList s l (e ∷ xs)
      → Returns (λ (r, s'). (r ≡ e) × Becomes s l (nodes l (e ∷ xs)) xs s') (list_pop s l)
  unfolding list_pop
  list_pop-IsList is =
      let head : (l.head == 0) ≡ false = ground (arith, is.not_null) in
      rw (head, is.chain.0) (Returns-bind (list_remove-IsList e [] xs is) λ s' b. returns (refl, b))

  -- list_tail returns the last element and leaves the others.
  pub list_tail-IsList :
      IsList s l (xs ++ e ∷ [])
      → Returns (λ (r, s'). (r ≡ e) × Becomes s l (nodes l (xs ++ e ∷ [])) xs s') (list_tail s l)
  unfolding list_tail
  list_tail-IsList is =
      let tail : (l.tail == 0) ≡ false =
        ground (arith, none_null e xs [] is, elem-append 0 xs (e ∷ l.tail ∷ [])) in
      rw (tail, (split e xs [] is).1.1)
        (Returns-bind (list_remove-IsList e xs [] is) λ s' b. returns (refl, rw append-nil at b))

-- list_init makes the list empty, whatever the store held before.
pub list_init-IsList :
    (s : Store) (l : Queue)
    → l.head ≢ 0
    → l.tail ≢ 0
    → l.head ≢ l.tail
    → Returns (Becomes s l (nodes l []) []) (list_init s l)
unfolding list_init
list_init-IsList s l hh ht ne =
    let head : (l.head == 0) ≡ false = ground arith in
    let tail : (l.tail == 0) ≡ false = ground arith in
    rw (head, tail)
      (returns (
        record { chain = ground arith; distinct = ground arith; not_null = ground arith },
        λ a out. ground arith,
      ))
