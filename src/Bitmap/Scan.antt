-- ===== src/Bitmap/Scan.antt =====
-- lib/kernel/bitmap.c: bit_scan finds the first run of clear bits, or says that there is none.
use kernel_travel.Base.{
  Returns-bind, lt→ltb, panic, bind-eq, u32_small, ℕ, zero, suc, ◌+◌, ◌-◌, ◌*◌, ◌/◌, ◌%◌, ◌^◌, ◌≤◌,
  ◌<◌, bit_and, ◌≡◌, ◌≢◌, inl, inr, true, false, arith, ltb, ◌==◌, u32, ==_iff, ltb→lt, lt→ltb,
  Bool-cases, get_or, get_elem?-eq-get_or, ok, panic, Returns, returns, Returns-bind,
}
use kernel_travel.Bitmap.{Bitmap, bit_scan_test, skip_full, scan_run, bit_scan}
use kernel_travel.Bitmap.Bits.{is_clear-full, full_of_taken}
use kernel_travel.Bitmap.Valid.{IsValid, is_free}
use kernel_travel.Bitmap.Runs.{
  IsFirstRun, Scanned, Scanned-miss, Scanned-hit, Scanned-done, Scanned-end, Scanned-start,
}

abbrev pub total : Bitmap → ℕ
total bm = bm.btmp_bytes_len * 8

module _ {bm : Bitmap} (v : IsValid bm) where
  bit_scan_test-ok :
      (i : ℕ)
      → i < total bm
      → bit_scan_test bm i ≡ ok (bit_and (get_or bm.bits (i / 8) 0) (2 ^ (i % 8)))
  unfolding bit_scan_test
  bit_scan_test-ok i h = rw (get_elem?-eq-get_or bm.bits (i / 8) 0 (omega (arith, v.storage)))

  module _ {n i count : ℕ} (s : Scanned (is_free bm) n i count) (here : i < total bm) where
    next_small : (u32 (i + 1) ≡ i + 1) × (u32 (count + 1) ≡ count + 1)
    next_small = omega (arith, v.small, s.inside)

    start_of_run : count + 1 ≡ n → u32 (i + 2 ^ 32 - (count + 1) + 1) ≡ i + 1 - n
    start_of_run e = omega (arith, v.small, s.inside)

  scan_run-IsFirstRun :
      (fuel n i count : ℕ)
      → total bm < i + fuel
      → i ≤ total bm
      → Scanned (is_free bm) n i count
      → Returns (IsFirstRun (is_free bm) (total bm) n) (scan_run fuel bm n i count)
  unfolding scan_run
  scan_run-IsFirstRun zero n i count f h s = absurd (omega arith)
  scan_run-IsFirstRun (suc fuel) n i count f h s = elim (Bool-cases (ltb i (total bm))) [
    | inr out ↦ rw out (returns (Scanned-end (is_free bm) (total bm) (ground arith) s))
    | inl here ↦
        let h' : i < total bm = ltb→lt _ _ here in
        rw (here, bit_scan_test-ok i h', (next_small s h').0)
          (elim (Bool-cases (is_free bm i)) [
            | inl free ↦
                rw (free, (next_small s h').1)
                  (elim (Bool-cases (count + 1 == n)) [
                    | inl e ↦
                        let e' : count + 1 ≡ n = (==_iff _ n).0 e in
                        rw (e, start_of_run s h' e')
                          (returns (Scanned-done (is_free bm) s free (total bm) h' e'))
                    | inr ne ↦ rw ne (
                        scan_run-IsFirstRun fuel n (i + 1) (count + 1) (omega arith) (omega arith)
                          (Scanned-hit (is_free bm) s free (ground (arith, s.short))))
                  ])
            | inr taken ↦
                let ne : (0 == n) ≡ false = ground (arith, s.short) in
                rw (taken, ne)
                  (scan_run-IsFirstRun fuel n (i + 1) 0 (omega arith) (omega arith)
                    (Scanned-miss (is_free bm) s taken))
          ])
  ]

  -- What the first loop leaves: a byte that is not 0xff, or the end; the bits before are all set.
  abbrev Skipped : ℕ → Type 0
  Skipped i =
      (i ≤ bm.btmp_bytes_len)
      × ((j : ℕ) → j < i * 8 → is_free bm j ≡ false)
      × (i < bm.btmp_bytes_len → get_or bm.bits i 0 ≢ 0xff)

  taken_next :
      (i : ℕ)
      → ((j : ℕ) → j < i * 8 → is_free bm j ≡ false)
      → get_or bm.bits i 0 ≡ 0xff
      → (j : ℕ) → j < (i + 1) * 8
      → is_free bm j ≡ false
  taken_next i full e j h = elim (Bool-cases (j / 8 == i)) [
    | inl at ↦
        let same : j / 8 ≡ i = ground arith in rw (same, e) (is_clear-full (j % 8) (omega arith))
    | inr before ↦ full j (ground arith)
  ]

  skip_full-Skipped :
      (fuel i : ℕ)
      → bm.btmp_bytes_len < i + fuel
      → i ≤ bm.btmp_bytes_len
      → ((j : ℕ) → j < i * 8 → is_free bm j ≡ false)
      → Returns Skipped (skip_full fuel bm i)
  unfolding skip_full
  skip_full-Skipped zero i f h full = absurd (omega arith)
  skip_full-Skipped (suc fuel) i f h full = elim (Bool-cases (ltb i bm.btmp_bytes_len)) [
    | inr out ↦ rw out (returns (h, full, λ lt. absurd (ground arith)))
    | inl here ↦
        let h' : i < bm.btmp_bytes_len = ltb→lt _ _ here in
        rw (here, get_elem?-eq-get_or bm.bits i 0 (omega (arith, v.storage)))
          (elim (Bool-cases (get_or bm.bits i 0 == 0xff)) [
            | inl e ↦
                rw (e, u32_small (i + 1) (omega (arith, v.small)))
                  (skip_full-Skipped fuel (i + 1) (omega arith) (omega arith)
                    (taken_next i full ((==_iff _ _).0 e)))
            | inr ne ↦ rw ne (returns (h, full, λ lt. ground arith))
          ])
  ]

  -- With a free bit below the end, bit_scan passes its ASSERT, ends, and returns the first run of
  -- `n` clear bits of the bitmap, or -1 exactly if there is none.
  pub bit_scan-IsFirstRun :
      (n j : ℕ)
      → 0 < n
      → j < total bm
      → is_free bm j ≡ true
      → Returns (IsFirstRun (is_free bm) (total bm) n) (bit_scan bm n)
  unfolding bit_scan
  bit_scan-IsFirstRun n j pos hj free =
      Returns-bind
        (skip_full-Skipped (bm.btmp_bytes_len + 1) 0 (omega arith) (omega arith)
          (λ k h. absurd (omega arith)))
        λ i (le, full, _).
          let here : i < bm.btmp_bytes_len = ground (arith, full j) in
          let ne : (i == bm.btmp_bytes_len) ≡ false = ground arith in
          rw (lt→ltb _ _ here, ne, u32_small (i * 8) (omega (arith, v.small)))
            (scan_run-IsFirstRun _ n (i * 8) 0 (omega arith) (omega arith)
              (Scanned-start (is_free bm) n (i * 8) pos full))

  -- On a bitmap with no free bit the ASSERT of bit_scan fails: -1 is never returned for it.
  pub bit_scan-panic :
      (n : ℕ) → ((j : ℕ) → j < total bm → is_free bm j ≡ false) → bit_scan bm n ≡ panic
  unfolding bit_scan
  bit_scan-panic n full =
      bind-eq _ _
        (skip_full-Skipped (bm.btmp_bytes_len + 1) 0 (omega arith) (omega arith)
          (λ k h. absurd (omega arith)))
        λ i (le, _, not_full). elim (Bool-cases (ltb i bm.btmp_bytes_len)) [
          | inl here ↦ absurd (not_full (ltb→lt _ _ here) (byte_full i (ltb→lt _ _ here)))
          | inr out ↦ rw out
        ]
    where
      byte_full : (i : ℕ) → i < bm.btmp_bytes_len → get_or bm.bits i 0 ≡ 0xff
      byte_full i h = full_of_taken _ (v.bytes i) λ k hk.
          let byte : (i * 8 + k) / 8 ≡ i = omega arith in
          let bit : (i * 8 + k) % 8 ≡ k = omega arith in
          rw (byte, bit) at (full (i * 8 + k) (omega arith))
