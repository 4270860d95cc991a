-- ===== src/Buddy/Tests.antt =====
-- mm/memory.c: a zone with one free block of four pages, the first of number 8.
use kernel_travel.Base.{
  ℕ, suc, ◌≡◌, refl, ◌≢◌, ◌⊎◌, true, false, none, some, [], ◌∷◌, arith, ◌==◌, if◌then◌else◌, fault,
  spin, ◌>>=◌, Returns, returns,
}
use kernel_travel.Buddy.{
  Zone, is_listed, buddy_order, find_buddy_pfn, alloc_pages, rmqueue_smallest, free_one_page,
}
use kernel_travel.Buddy.Cover.{in_block, cover}
use kernel_travel.Buddy.Valid.{IsValid, Fits}
use kernel_travel.Buddy.Change.{Added}
use kernel_travel.Buddy.Alloc.{Taken}
use kernel_travel.Buddy.Take.{rmqueue_smallest-Taken, alloc_pages-cases, NoneLeft}
use kernel_travel.Buddy.Free.{Unmistaken, free_one_page-Added, free_one_page-fault}
use kernel_travel.Buddy.RoundTrip.{give_back, alloc_pages-free_pages_core}

abbrev four : Zone
four = record {
  initialized = true;
  free_list = λ o. if o == 2 then 8 ∷ [] else [];
  nr_free = λ o. if o == 2 then 1 else 0;
  private = λ p. if p == 8 then 2 else 0;
  index = λ p. 0;
}

four-IsValid : IsValid four
unfolding in_block buddy_order
four-IsValid = record {
  initialized = refl;
  single = λ p. ground arith;
  tagged = λ o p l h. ground (arith, h);
  found = λ o p l h. ground (arith, h);
  counted = λ o l. ground arith;
}

rmqueue_smallest-Taken_example : Returns (Taken four 1) (rmqueue_smallest four 1)
rmqueue_smallest-Taken_example = rmqueue_smallest-Taken four 1 four-IsValid (omega arith)

alloc_pages-cases_example :
    ((fuel : ℕ) → Returns (λ r. Taken four 0 r × (r.0 ≢ none)) (alloc_pages (suc fuel) four 0))
    ⊎ (NoneLeft four 0 × ((fuel : ℕ) → alloc_pages fuel four 0 ≡ spin))
alloc_pages-cases_example = alloc_pages-cases four 0 four-IsValid (omega arith)

alloc_pages-free_pages_core_example :
    Returns
      (λ w. IsValid w × ((p : ℕ) → cover w p ≡ cover four p))
      (alloc_pages 1 four 1 >>= give_back 1)
alloc_pages-free_pages_core_example =
    alloc_pages-free_pages_core four 1 2 0 four-IsValid (omega arith) (omega arith)
      (omega arith, omega arith, λ e. ground (arith, e))

twelve-Fits : Fits four 12 2
unfolding in_block
twelve-Fits p = ground arith

no_mistake : Unmistaken four 12 2
no_mistake e t = absurd (omega (arith, e))

-- The block from 12 on is merged with that from 8 on.
free_one_page-Added_example : Returns (Added four 12 2) (free_one_page four 12 2 true)
free_one_page-Added_example =
    free_one_page-Added four 12 2 true four-IsValid (omega arith) twelve-Fits no_mistake

tag_13 : buddy_order four (find_buddy_pfn 12 0) ≡ 0
unfolding buddy_order find_buddy_pfn
tag_13 = refl

absent_13 : is_listed four (find_buddy_pfn 12 0) ≡ false
unfolding find_buddy_pfn
absent_13 = refl

-- Page 12 with page 13 in use.
free_one_page-fault_example : free_one_page four 12 0 true ≡ fault
free_one_page-fault_example = free_one_page-fault four 12 true refl tag_13 absent_13

-- A page of the block: the other three are the blocks of the pages 9, and 10 and 11.
one_page :
    Returns
      (λ r. (r.0 ≡ some 8) × (r.1.free_list 0 ≡ 9 ∷ []) × (r.1.free_list 1 ≡ 10 ∷ []))
      (alloc_pages 1 four 0)
unfolding alloc_pages
one_page = returns (refl, refl, refl)
