-- ===== src/Boot/Tiles.antt =====
-- mm/memblock.c: the calls of __free_pages_core that __free_memory_core makes.
use kernel_travel.Base.{
  ℕ, zero, suc, ◌+◌, ◌-◌, ◌^◌, ◌≤◌, ◌<◌, min, ◌≡◌, refl, sym, subst, inl, inr, true, false, ◌&&◌,
  List, [], ◌∷◌, arith, ltb, leb, u64, ltb→lt, Bool-cases, all_below, all_below_sound, Returns,
  returns, Returns-bind, Returns-mono, if-true, if-false,
}
use kernel_travel.Boot.{
  pfn_to_page, pfn_up, pfn_down, max_page_order, shrink_order, first_order, free_loop,
  free_memory_core,
}

-- The calls are those for blocks that follow one another from page frame `p` to page frame `q`, none of
-- a higher order than allowed; each passes pfn_to_page of the first page frame of its block.
pub data Tiles : List (ℕ × ℕ) → ℕ → ℕ → Type 0 where
  tiled : {p : ℕ} → Tiles [] p p
  tile :
      {bs : List (ℕ × ℕ)} {p q : ℕ} (order : ℕ)
      → order ≤ max_page_order
      → Tiles bs (p + 2 ^ order) q
      → Tiles ((pfn_to_page p, order) ∷ bs) p q

eleven_powers : all_below 11 (λ k. leb 1 (2 ^ k) && leb (2 ^ k) 1024) ≡ true
unfolding all_below
eleven_powers = refl

-- The powers of the allowed orders.
power_small : (o : ℕ) → o ≤ max_page_order → (1 ≤ 2 ^ o) × (2 ^ o ≤ 1024)
power_small o h =
    let t =
      all_below_sound 11 (λ k. leb 1 (2 ^ k) && leb (2 ^ k) 1024) o eleven_powers
        (omega (arith, h)) in
    (ground (arith, t), ground (arith, t))

-- The order that is taken fits before the end.
shrink_order-fits :
    (start end order : ℕ)
    → start < end
    → end < 2 ^ 63
    → order ≤ max_page_order
    → Returns (λ o. (o ≤ order) × (start + 2 ^ o ≤ end)) (shrink_order start end order)
unfolding shrink_order
shrink_order-fits start end zero h big small =
    let fits : ltb end (u64 (start + 1)) ≡ false = ground (arith, h, big) in
    subst (Returns _) (sym (if-false _ _ fits)) (returns (omega arith, omega (arith, h)))
shrink_order-fits start end (suc order) h big small =
    let size = power_small (suc order) small in
    elim (Bool-cases (ltb end (u64 (start + 2 ^ suc order)))) [
      | inl t ↦
          subst (Returns (λ o. (o ≤ suc order) × (start + 2 ^ o ≤ end))) (sym (if-true _ _ t)) (
            Returns-mono (shrink_order-fits start end order h big (omega (arith, small)))
              (λ o k. (omega (arith, k.0), k.1)))
      | inr t ↦
          subst (Returns (λ o. (o ≤ suc order) × (start + 2 ^ o ≤ end))) (sym (if-false _ _ t))
            (returns (omega arith, ground (arith, t, size, h, big)))
    ]

first_order_small : (start : ℕ) → first_order start ≤ max_page_order
first_order_small start = ground arith

free_loop-Tiles :
    (fuel start end : ℕ)
    → start ≤ end
    → end - start ≤ fuel
    → end < 2 ^ 63
    → Returns (λ r. Tiles r.0 start end × (r.1 ≡ end)) (free_loop fuel start end)
unfolding free_loop
free_loop-Tiles zero start end le room big =
    let at : start ≡ end = omega (arith, le, room) in
    let stop : ltb start end ≡ false = ground (arith, at) in
    subst (Returns _) (sym (if-false _ _ stop)) (returns (subst (Tiles [] start) at tiled, at))
free_loop-Tiles (suc fuel) start end le room big = elim (Bool-cases (ltb start end)) [
  | inl t ↦ subst (Returns (λ r. Tiles r.0 start end × (r.1 ≡ end))) (sym (if-true _ _ t)) (
      Returns-bind
        (shrink_order-fits start end (first_order start) (ltb→lt start end t) big
          (first_order_small start))
        (λ order k.
          let small : order ≤ max_page_order = omega (arith, k.0, first_order_small start) in
          let size = power_small order small in
          let next : u64 (start + 2 ^ order) ≡ start + 2 ^ order = omega (arith, k.1, big) in
          Returns-bind
            (free_loop-Tiles fuel (u64 (start + 2 ^ order)) end (omega (arith, next, k.1))
              (omega (arith, next, size, room)) big)
            (λ rest w. returns (tile order small (subst (λ q. Tiles rest.0 q end) next w.0), w.1))))
  | inr t ↦
      let at : start ≡ end = ground (arith, t, le) in
      subst (Returns (λ r. Tiles r.0 start end × (r.1 ≡ end))) (sym (if-false _ _ t))
        (returns (subst (Tiles [] start) at tiled, at))
]

-- __free_memory_core of a range with a whole page below max_low_pfn ends well: the blocks for which it calls
-- __free_pages_core cover the page frames from the first whole page on up to the end or to max_low_pfn
-- without gap or overlap, and each call passes the first frame number times 4096, in 64 bits, as the
-- pointer. It returns 0.
pub free_memory_core-Tiles :
    (max_low_pfn start end : ℕ)
    → end < 2 ^ 64
    → pfn_up start < min (pfn_down end) max_low_pfn
    → Returns
        (λ r. Tiles r.0 (pfn_up start) (min (pfn_down end) max_low_pfn) × (r.1 ≡ 0))
        (free_memory_core max_low_pfn start end)
unfolding free_memory_core
free_memory_core-Tiles max_low_pfn start end big h =
    let stop : leb (min (pfn_down end) max_low_pfn) (pfn_up start) ≡ false = ground (arith, h) in
    subst (Returns _) (sym (if-false _ _ stop)) (
      Returns-bind
        (free_loop-Tiles (min (pfn_down end) max_low_pfn - pfn_up start) (pfn_up start)
          (min (pfn_down end) max_low_pfn) (omega (arith, h)) (omega arith) (omega (arith, big)))
        (λ r w. returns (w.0, omega (arith, w.1, big))))
