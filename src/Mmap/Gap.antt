-- ===== src/Mmap/Gap.antt =====
-- mm/mmap.c, get_unmapped_area: what it returns is a gap between the areas, and the first there is.
use kernel_travel.Base.{
  ℕ, ◌+◌, ◌-◌, ◌≤◌, ◌<◌, ◌≡◌, refl, sym, ◌∙◌, subst, ◌⊎◌, inl, inr, false, Option, none, some, List,
  [], ◌∷◌, arith, ltb, leb, ◌==◌, if◌then◌else◌, u64, Bool-cases,
}
use kernel_travel.Mmap.{Vma, max_address_space_size, areas_from, gap_loop}
use kernel_travel.Mmap.Tree.{Areas, area, areas_end, Areas-weaken, first_above, some_inj}

-- `len` bytes from `addr` on meet no area.
pub data Apart (addr len : ℕ) : List Vma → Type 0 where
  apart_end : Apart addr len []
  apart :
      {v : Vma} {vs : List Vma}
      → (addr + len ≤ v.vm_start) ⊎ (v.vm_end ≤ addr)
      → Apart addr len vs
      → Apart addr len (v ∷ vs)

-- A place for `len` bytes in the address space.
abbrev pub IsGap : List Vma → ℕ → ℕ → Type 0
IsGap vs len addr = (addr + len ≤ max_address_space_size) × Apart addr len vs

abbrev pub drop_below : List Vma → ℕ → List Vma
drop_below [] addr = []
drop_below (v ∷ vs) addr = if ltb addr v.vm_end then v ∷ vs else drop_below vs addr

pub Apart-above :
    {lo addr len : ℕ} {vs : List Vma} → Areas lo vs → addr + len ≤ lo → Apart addr len vs
Apart-above areas_end h = apart_end
Apart-above (area a b c) h =
    apart (inl (omega (arith, h, a))) (Apart-above c (omega (arith, h, a, b)))

pub Apart-dropped :
    {g addr len : ℕ} (vs : List Vma) → addr ≤ g → Apart g len (drop_below vs addr) → Apart g len vs
Apart-dropped [] h a = a
Apart-dropped {g} {addr} (v ∷ vs) h a = elim (Bool-cases (ltb addr v.vm_end)) [
  | inl e ↦ rw e at a
  | inr e ↦ apart (inr (ground (arith, e, h))) (Apart-dropped {addr = addr} vs h (rw e at a))
]

pub Apart-drop :
    {g len : ℕ} (addr : ℕ) (vs : List Vma) → Apart g len vs → Apart g len (drop_below vs addr)
Apart-drop addr [] a = a
Apart-drop addr (v ∷ vs) (apart h a) = elim (Bool-cases (ltb addr v.vm_end)) [
  | inl e ↦ rw e (apart h a)
  | inr e ↦ rw e (Apart-drop addr vs a)
]

pub Areas-drop : {lo : ℕ} (addr : ℕ) (vs : List Vma) → Areas lo vs → Areas lo (drop_below vs addr)
Areas-drop addr [] a = a
Areas-drop addr (v ∷ vs) (area a b c) = elim (Bool-cases (ltb addr v.vm_end)) [
  | inl e ↦ rw e (area a b c)
  | inr e ↦ rw e (Areas-weaken (omega (arith, a, b)) (Areas-drop addr vs c))
]

first_above-start :
    {lo : ℕ} (vs : List Vma) (addr : ℕ) (w : Vma)
    → Areas lo vs
    → first_above vs addr ≡ some w
    → lo ≤ w.vm_start
first_above-start [] addr w a e = absurd (ground (arith, e))
first_above-start {lo} (v ∷ vs) addr w (area a b c) e = elim (Bool-cases (ltb addr v.vm_end)) [
  | inl h ↦ subst (λ x. lo ≤ x.vm_start) (some_inj (rw h at e)) a
  | inr h ↦ (let above = first_above-start vs addr w c (rw h at e) in omega (arith, above, a, b))
]

areas_from-none : (vs : List Vma) → areas_from vs none ≡ []
unfolding areas_from
areas_from-none [] = refl
areas_from-none (v ∷ vs) = refl

areas_from-skip :
    (v : Vma) (vs : List Vma) (r : Option Vma)
    → ((w : Vma) → r ≡ some w → v.vm_start < w.vm_start)
    → areas_from (v ∷ vs) r ≡ areas_from vs r
unfolding areas_from
areas_from-skip v vs none h = sym (areas_from-none vs)
areas_from-skip v vs (some w) h =
    let other : (v.vm_start == w.vm_start) ≡ false = ground (arith, h w refl) in rw other refl

none_not_some : {a : ℕ} → none ≡ some a → ⊥
none_not_some e = ground (arith, e)

-- vm_next leads from the area that find_vma finds through all areas that end after `addr`.
pub areas_from-first :
    {lo : ℕ} (vs : List Vma) (addr : ℕ)
    → Areas lo vs
    → areas_from vs (first_above vs addr) ≡ drop_below vs addr
unfolding areas_from
areas_from-first [] addr a = refl
areas_from-first (v ∷ vs) addr (area a b c) = elim (Bool-cases (ltb addr v.vm_end)) [
  | inl e ↦ rw e (ground arith)
  | inr e ↦ rw e (
      areas_from-skip v vs (first_above vs addr)
        (λ w z. (let above = first_above-start vs addr w c z in omega (arith, above, b)))
      ∙ areas_from-first vs addr c)
]

abbrev pub head_end : List Vma → ℕ → ℕ
head_end [] d = d
head_end (v ∷ vs) d = v.vm_end

pub head_end-drop : (vs : List Vma) (addr : ℕ) → addr ≤ head_end (drop_below vs addr) addr
head_end-drop [] addr = omega arith
head_end-drop (v ∷ vs) addr = elim (Bool-cases (ltb addr v.vm_end)) [
  | inl e ↦ rw e (ground (arith, e))
  | inr e ↦ rw e (head_end-drop vs addr)
]

head_end-above : {lo : ℕ} (vs : List Vma) → Areas lo vs → lo ≤ head_end vs lo
head_end-above [] areas_end = omega arith
head_end-above (v ∷ vs) (area a b c) = omega (arith, a, b)

-- The loop finds a gap from `addr` on.
pub gap_loop-IsGap :
    {lo : ℕ} (vs : List Vma) (len addr g : ℕ)
    → Areas lo vs
    → addr ≤ head_end vs addr
    → len ≤ max_address_space_size
    → gap_loop vs len addr ≡ some g
    → (addr ≤ g) × IsGap vs len g
unfolding gap_loop
gap_loop-IsGap [] len addr g a above hl e =
    elim (Bool-cases (ltb (max_address_space_size - len) addr)) [
      | inl h ↦ absurd (none_not_some (rw h at e))
      | inr h ↦
          (let same : addr ≡ g = some_inj (rw h at e) in
            (omega (arith, same), (ground (arith, same, h, hl), apart_end)))
    ]
gap_loop-IsGap (v ∷ vs) len addr g (area a b c) above hl e =
    elim (Bool-cases (ltb (max_address_space_size - len) addr)) [
      | inl h ↦ absurd (none_not_some (rw h at e))
      | inr h ↦ elim (Bool-cases (leb (u64 (addr + len)) v.vm_start)) [
        | inl h' ↦
            let same : addr ≡ g = some_inj (rw (h, h') at e) in
            let fits : g + len ≤ v.vm_start = ground (arith, same, h, h', hl) in
            (
              omega (arith, same),
              (
                ground (arith, same, h, hl),
                apart (inl fits) (Apart-above c (omega (arith, fits, b))),
              ),
            )
        | inr h' ↦
            let (higher, (room, clear)) =
              gap_loop-IsGap vs len v.vm_end g c (head_end-above vs c) hl (rw (h, h') at e) in
            (omega (arith, higher, above), (room, apart (inr higher) clear))
      ]
    ]

-- If there is a gap from `addr` on, the loop finds one, and none that starts higher.
pub gap_loop-finds :
    {lo : ℕ} (vs : List Vma) (len addr g : ℕ)
    → Areas lo vs
    → addr ≤ g
    → IsGap vs len g
    → (r : ℕ) × (gap_loop vs len addr ≡ some r) × (r ≤ g)
unfolding gap_loop
gap_loop-finds [] len addr g a h (room, _) =
    let low : ltb (max_address_space_size - len) addr ≡ false = ground (arith, room, h) in
    (addr, rw low refl, h)
gap_loop-finds (v ∷ vs) len addr g (area a b c) h (room, apart side clear) =
    let low : ltb (max_address_space_size - len) addr ≡ false = ground (arith, room, h) in
    elim (Bool-cases (leb (u64 (addr + len)) v.vm_start)) [
      | inl e ↦ (addr, rw (low, e) refl, h)
      | inr e ↦
          let above : v.vm_end ≤ g = ground (arith, side, e, h, room) in
          let (r, found, least) = gap_loop-finds vs len v.vm_end g c above (room, clear) in
          (r, rw (low, e) found, least)
    ]
