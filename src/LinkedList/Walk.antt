-- ===== src/LinkedList/Walk.antt =====
-- lib/kernel/list.c: the functions that walk a list. With more rounds than the list has elements they
-- end, and return what the plain functions on the list of addresses return.
use mathlib.Core.List.{reverse, reverse-cons}
use kernel_travel.Base.{
  ℕ, zero, suc, ◌+◌, ◌^◌, ◌<◌, ◌≡◌, refl, ap, ◌∙◌, Bool, false, Option, none, some, List, [], ◌∷◌,
  ◌++◌, arith, ◌==◌, if◌then◌else◌, length, length-append, ok, u32_small,
}
use kernel_travel.LinkedList.{
  Store, Queue, list_empty, len_loop, list_len, traversal_loop, list_traversal, reverse_loop,
  list_reverse, find_loop, elem_find,
}
use kernel_travel.LinkedList.Chain.{elem, Chain, IsList, elem-append}
use kernel_travel.LinkedList.Distinct.{absent_left}

-- The first element that passes the test.
abbrev pub find? : (ℕ → Bool) → List ℕ → Option ℕ
find? func [] = none
find? func (x ∷ xs) = if func x then some x else find? func xs

-- The `prev` pointers lead from `q` through `xs` to `p`.
abbrev Back : Store → ℕ → List ℕ → ℕ → Type 0
Back s q [] p = s.prev q ≡ p
Back s q (x ∷ xs) p = (s.prev q ≡ x) × Back s x xs p

Back-snoc :
    (s : Store) (q : ℕ) (xs : List ℕ) (x p : ℕ)
    → Back s q xs x
    → s.prev x ≡ p
    → Back s q (xs ++ x ∷ []) p
Back-snoc s q [] x p b e = (b, e)
Back-snoc s q (y ∷ ys) x p b e = (b.0, Back-snoc s y ys x p b.1 e)

Back-reverse : (s : Store) (p : ℕ) (xs : List ℕ) (q : ℕ) → Chain s p xs q → Back s q (reverse xs) p
Back-reverse s p [] q c = c.1
Back-reverse s p (x ∷ xs) q c =
    rw (reverse-cons x xs) (Back-snoc s q (reverse xs) x p (Back-reverse s x xs q c.2) c.1)

elem-reverse : (a : ℕ) (xs : List ℕ) → elem a (reverse xs) ≡ elem a xs
elem-reverse a [] = refl
elem-reverse a (x ∷ xs) =
    rw (reverse-cons x xs) (ground (arith, elem-append a (reverse xs) (x ∷ []), elem-reverse a xs))

length-reverse : (xs : List ℕ) → length (reverse xs) ≡ length xs
length-reverse [] = refl
length-reverse (x ∷ xs) =
    rw (reverse-cons x xs) (omega (arith, length-append (reverse xs) (x ∷ []), length-reverse xs))

module _ (s : Store) (func : ℕ → Bool) where
  traversal_loop-find :
      (fuel p : ℕ) (xs : List ℕ) (q : ℕ)
      → Chain s p xs q
      → elem q xs ≡ false
      → elem 0 xs ≡ false
      → length xs < fuel
      → traversal_loop fuel s func (s.next p) q ≡ ok (find? func xs)
  unfolding traversal_loop
  traversal_loop-find zero p xs q c hq h0 hf = absurd (omega arith)
  traversal_loop-find (suc fuel) p [] q c hq h0 hf = ground arith
  traversal_loop-find (suc fuel) p (x ∷ xs) q c hq h0 hf =
      ground (arith, traversal_loop-find fuel x xs q c.2)

  reverse_loop-find :
      (fuel p : ℕ) (xs : List ℕ) (q : ℕ)
      → Back s q xs p
      → elem p xs ≡ false
      → elem 0 xs ≡ false
      → length xs < fuel
      → reverse_loop fuel s func (s.prev q) p ≡ ok (find? func xs)
  unfolding reverse_loop
  reverse_loop-find zero p xs q c hq h0 hf = absurd (omega arith)
  reverse_loop-find (suc fuel) p [] q c hq h0 hf = ground arith
  reverse_loop-find (suc fuel) p (x ∷ xs) q c hq h0 hf =
      ground (arith, reverse_loop-find fuel p xs x c.1)

len_loop-length :
    (s : Store) (fuel p : ℕ) (xs : List ℕ) (q len : ℕ)
    → Chain s p xs q
    → elem q xs ≡ false
    → elem 0 xs ≡ false
    → length xs < fuel
    → len + length xs < 2 ^ 32
    → len_loop fuel s (s.next p) q len ≡ ok (len + length xs)
unfolding len_loop
len_loop-length s zero p xs q len c hq h0 hf small = absurd (omega arith)
len_loop-length s (suc fuel) p [] q len c hq h0 hf small = ground arith
len_loop-length s (suc fuel) p (x ∷ xs) q len c hq h0 hf small =
    ground (arith, len_loop-length s fuel x xs q (len + 1) c.2, u32_small (len + 1))

find_loop-elem :
    (s : Store) (obj : ℕ) (fuel p : ℕ) (xs : List ℕ) (q : ℕ)
    → Chain s p xs q
    → elem q xs ≡ false
    → elem 0 xs ≡ false
    → length xs < fuel
    → find_loop fuel s obj (s.next p) q ≡ ok (elem obj xs)
unfolding find_loop
find_loop-elem s obj zero p xs q c hq h0 hf = absurd (omega arith)
find_loop-elem s obj (suc fuel) p [] q c hq h0 hf = ground arith
find_loop-elem s obj (suc fuel) p (x ∷ xs) q c hq h0 hf =
    ground (arith, find_loop-elem s obj fuel x xs q c.2)

list_empty-eq :
    (s : Store) (l : Queue) (xs : List ℕ) → IsList s l xs → list_empty s l ≡ ok (length xs == 0)
unfolding list_empty
list_empty-eq s l [] is = ground (arith, is.not_null)
list_empty-eq s l (x ∷ xs) is =
    ground (arith, is.not_null, absent_left l.tail (l.head ∷ x ∷ xs) [] is.distinct)

module _ {s : Store} {l : Queue} {xs : List ℕ} (is : IsList s l xs) where
  inner :
      (elem l.tail xs ≡ false)
      × (elem l.head xs ≡ false)
      × (elem 0 xs ≡ false)
      × ((l.head == 0) ≡ false)
      × ((l.tail == 0) ≡ false)
  inner = ground (
    arith,
    is.not_null,
    is.distinct,
    elem-append 0 xs (l.tail ∷ []),
    elem-append l.head xs (l.tail ∷ []),
    absent_left l.tail (l.head ∷ xs) [] is.distinct,
  )

  module _ (fuel : ℕ) (enough : length xs < fuel) where
    -- list_traversal returns the first element that passes the test, list_reverse the last one,
    -- elem_find says whether the element is in the list, and list_len counts the elements.
    pub walks :
        (func : ℕ → Bool) (obj : ℕ)
        → (list_traversal fuel s l func ≡ ok (find? func xs))
          × (list_reverse fuel s l func ≡ ok (find? func (reverse xs)))
          × (elem_find fuel s l obj ≡ ok (elem obj xs))
          × (length xs < 2 ^ 32 → list_len fuel s l ≡ ok (length xs))
          × (list_empty s l ≡ ok (length xs == 0))
    unfolding list_traversal list_reverse elem_find list_len
    walks func obj = (
      rw inner.3 (traversal_loop-find s func fuel l.head xs l.tail is.chain inner.0 inner.2 enough),
      rw inner.4 (
          reverse_loop-find s func fuel l.head (reverse xs) l.tail
            (Back-reverse s l.head xs l.tail is.chain) (rw elem-reverse inner.1)
            (rw elem-reverse inner.2) (rw length-reverse enough)),
      rw inner.3 (find_loop-elem s obj fuel l.head xs l.tail is.chain inner.0 inner.2 enough),
      λ small. rw inner.3 (
          len_loop-length s fuel l.head xs l.tail 0 is.chain inner.0 inner.2 enough (omega arith)
          ∙ ap ok (omega arith)),
      list_empty-eq s l xs is,
    )
