-- ===== src/Bitmap/Runs.antt =====
-- Runs of positions that pass a test, and what a left-to-right search for the first run of `n` of
-- them knows after each position (the loop of bit_scan in lib/kernel/bitmap.c).
use kernel_travel.Base.{
  ℕ, ◌+◌, ◌-◌, ◌≤◌, ◌<◌, ◌≡◌, ◌⊎◌, inl, inr, Bool, true, false, Option, none, some, arith, leb,
  ◌==◌, Bool-cases,
}

module _ (p : ℕ → Bool) where
  -- The `n` positions from `i` on pass.
  abbrev pub Run : ℕ → ℕ → Type 0
  Run i n = (j : ℕ) → i ≤ j → j < i + n → p j ≡ true

  -- The outcome of a search for `n` positions in a row below `limit`.
  abbrev pub IsFirstRun : ℕ → ℕ → Option ℕ → Type 0
  IsFirstRun limit n none = (i : ℕ) → i + n ≤ limit → ¬ Run i n
  IsFirstRun limit n (some i) = (i + n ≤ limit) × Run i n × ((j : ℕ) → j < i → ¬ Run j n)

  -- `count` positions that pass end just before `i`, no more, and no run of `n` ends there or before.
  pub record Scanned (n i count : ℕ) : Type 0 where
    pub short : count < n
    pub inside : count ≤ i
    pub run : Run (i - count) count
    pub longest : (j : ℕ) → j ≤ i → Run j (i - j) → i - j ≤ count
    pub none_before : (j : ℕ) → j + n ≤ i → ¬ Run j n

  module _ {n i count : ℕ} (s : Scanned n i count) where
    end_case : (j : ℕ) → j + n ≤ i + 1 → (j + n ≤ i) ⊎ (j + n ≡ i + 1)
    end_case j h = omega arith

    pub Scanned-miss : p i ≡ false → Scanned n (i + 1) 0
    Scanned-miss taken = record {
      short = omega (arith, s.short);
      inside = omega arith;
      run = λ k l h. absurd (omega arith);
      longest = λ j h r. ground (arith, r i);
      none_before = λ j h r. elim (end_case j h) [
        | inl e ↦ s.none_before j e r
        | inr e ↦ ground (arith, r i, s.short)
      ];
    }

    module _ (free : p i ≡ true) where
      Run-hit : Run (i + 1 - (count + 1)) (count + 1)
      Run-hit j l h = elim (Bool-cases (j == i)) [
        | inl e ↦ ground arith
        | inr e ↦ s.run j (omega (arith, s.inside)) (ground (arith, s.inside))
      ]

      longest_hit : (j : ℕ) → j ≤ i + 1 → Run j (i + 1 - j) → i + 1 - j ≤ count + 1
      longest_hit j h r = elim (Bool-cases (leb j i)) [
        | inl e ↦
            let shorter : i - j ≤ count =
              s.longest j (ground arith) (λ k l m. r k l (omega arith)) in
            omega arith
        | inr e ↦ ground arith
      ]

      pub Scanned-hit : count + 1 < n → Scanned n (i + 1) (count + 1)
      Scanned-hit more = record {
        short = more;
        inside = omega (arith, s.inside);
        run = Run-hit;
        longest = longest_hit;
        none_before = λ j h r. elim (end_case j h) [
          | inl e ↦ s.none_before j e r
          | inr e ↦
              let long : i + 1 - j ≤ count + 1 =
                longest_hit j (omega arith) (λ k l m. r k l (omega arith)) in
              omega arith
        ];
      }

      -- The position that completes a run of `n` completes the first one.
      pub Scanned-done :
          (limit : ℕ) → i < limit → count + 1 ≡ n → IsFirstRun limit n (some (i + 1 - n))
      Scanned-done limit h e = (
        omega (arith, s.inside),
        λ j l m. Run-hit j (omega arith) (omega (arith, s.inside)),
        λ j l r. s.none_before j (omega arith) r,
      )

  -- Nothing found below the limit: there is no run there.
  pub Scanned-end :
      {n i count : ℕ} (limit : ℕ) → limit ≤ i → Scanned n i count → IsFirstRun limit n none
  Scanned-end limit h s j l r = s.none_before j (omega arith) r

  -- Where nothing up to `i` passes, a search may start at `i`.
  pub Scanned-start : (n i : ℕ) → 0 < n → ((j : ℕ) → j < i → p j ≡ false) → Scanned n i 0
  Scanned-start n i h none_yet = record {
    short = h;
    inside = omega arith;
    run = λ k l m. absurd (omega arith);
    longest = λ j l r. ground (arith, r j, none_yet j);
    none_before = λ j l r. ground (arith, r j, none_yet j);
  }
