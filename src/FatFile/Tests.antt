-- ===== src/FatFile/Tests.antt =====
-- An empty table, with 9 pages in the pool.
use kernel_travel.Base.{false, none, arith, Returns}
use kernel_travel.FatFile.{DirentPointer, filepnt_setval}
use kernel_travel.FatFile.Pointer.{WasSet, filepnt_setval-IsEntered}

abbrev closed : DirentPointer
closed = record { second = λ i. none; third = none; valid = false }

filepnt_setval-IsEntered_example :
    Returns (WasSet 9 closed 6000 77) (filepnt_setval 9 closed 6000 77)
filepnt_setval-IsEntered_example =
    filepnt_setval-IsEntered 9 closed 6000 77 (omega arith) (omega arith)
