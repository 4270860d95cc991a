-- ===== src/Pipe/Tests.antt =====
-- A pipe that holds two bytes.
use kernel_travel.Base.{
  ℕ, ◌≡◌, refl, true, none, some, [], ◌∷◌, arith, replicate, length-replicate, Returns,
}
use kernel_travel.Pipe.{Ioqueue, bufsize, ioq_getchar, done}
use kernel_travel.Pipe.Ring.{IsValid, Woke, contents, ioq_getchar-first}
use kernel_travel.Threads.{Machine}
use kernel_travel.Threads.Tests.{office, office-IsScheduled}

abbrev q : Ioqueue
q = record {
  flag = true;
  lock = none;
  producer = none;
  consumer = some 5;
  buf = replicate bufsize 65;
  head = 1;
  tail = 2047;
}

q-IsValid : IsValid q
q-IsValid = record {
  storage = length-replicate {A = ℕ} bufsize 65;
  head_in = omega arith;
  tail_in = omega arith;
}

ioq_getchar-first_example :
    Returns
      (λ r.
        (m' : Machine) × (q' : Ioqueue) × (r ≡ done 65 m' q')
        × Woke office none m'
        × IsValid q'
        × (contents q' ≡ 65 ∷ [])
        × (q'.producer ≡ none)
        × (q'.consumer ≡ some 5))
      (ioq_getchar office q)
ioq_getchar-first_example =
    ioq_getchar-first q-IsValid office 65 (65 ∷ []) refl office-IsScheduled tt refl
