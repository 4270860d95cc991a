-- ===== src/LinkedList/Tests.antt =====
-- A list of two elements.
use kernel_travel.Base.{refl, [], ◌∷◌, arith, ◌==◌, if◌then◌else◌, Returns}
use kernel_travel.LinkedList.{Store, Queue, list_remove}
use kernel_travel.LinkedList.Chain.{IsList}
use kernel_travel.LinkedList.Distinct.{nodes}
use kernel_travel.LinkedList.Update.{Becomes, list_remove-IsList}

abbrev l : Queue
l = record { head = 1; tail = 2 }

-- the elements 10 and 20 between the sentinels
abbrev s : Store
s = record {
  next = λ p. if p == 1 then 10 else if p == 10 then 20 else if p == 20 then 2 else 0;
  prev = λ p. if p == 2 then 20 else if p == 20 then 10 else if p == 10 then 1 else 0;
}

two-IsList : IsList s l (10 ∷ 20 ∷ [])
two-IsList = record { chain = ground arith; distinct = ground arith; not_null = refl }

list_remove-IsList_example :
    Returns (Becomes s l (nodes l (10 ∷ 20 ∷ [])) (20 ∷ [])) (list_remove s 10)
list_remove-IsList_example = list_remove-IsList 10 [] (20 ∷ []) two-IsList
