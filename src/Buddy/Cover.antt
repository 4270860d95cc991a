-- ===== src/Buddy/Cover.antt =====
-- mm/memory.c: which pages the free lists cover. The count says in how many free blocks a page is.
use kernel_travel.Base.{
  ℕ, zero, suc, ◌+◌, ◌^◌, ◌≤◌, ◌<◌, ◌≡◌, refl, sym, ap, subst, ◌≢◌, inl, inr, true, false, ◌&&◌,
  List, [], ◌∷◌, ◌++◌, arith, ltb, leb, ◌==◌, if◌then◌else◌, ==_iff, Bool-cases, pow_double,
  pow_pos,
}
use kernel_travel.LinkedList.Chain.{elem}
use kernel_travel.Buddy.{Zone, free_areas, remove, listed_in, is_listed}

-- 1 for the pages of the block of 2^order pages from `first` on.
unfoldable pub in_block : ℕ → ℕ → ℕ → ℕ
in_block first order p = if leb first p && ltb p (first + 2 ^ order) then 1 else 0

abbrev pub covered : ℕ → List ℕ → ℕ → ℕ
covered order [] p = 0
covered order (b ∷ bs) p = in_block b order p + covered order bs p

abbrev pub total : ℕ → (ℕ → List ℕ) → ℕ → ℕ
total zero lists p = 0
total (suc n) lists p = covered n (lists n) p + total n lists p

abbrev pub cover : Zone → ℕ → ℕ
cover z p = total free_areas z.free_list p

pub in_block-own : (b order : ℕ) → in_block b order b ≡ 1
unfolding in_block
in_block-own b order = ground (arith, pow_pos order)

-- A block is its two halves.
pub in_block-halves :
    (b order p : ℕ)
    → in_block b (suc order) p ≡ in_block b order p + in_block (b + 2 ^ order) order p
unfolding in_block
in_block-halves b order p = ground (arith, pow_double order)

pub covered-remove :
    (order b : ℕ) (bs : List ℕ) (p : ℕ)
    → elem b bs ≡ true
    → covered order bs p ≡ covered order (remove b bs) p + in_block b order p
covered-remove order b [] p h = absurd (ground (arith, h))
covered-remove order b (x ∷ xs) p h = elim (Bool-cases (x == b)) [
  | inl same ↦ ground (arith, same, ap (λ t. in_block t order p) ((==_iff x b).0 same))
  | inr other ↦ ground (arith, other, covered-remove order b xs p (ground (arith, h, other)))
]

pub remove-absent : (b : ℕ) (bs : List ℕ) → elem b bs ≡ false → remove b bs ≡ bs
remove-absent b [] h = refl
remove-absent b (x ∷ xs) h = ground (arith, h, remove-absent b xs (ground (arith, h)))

pub covered-append :
    (order b : ℕ) (bs : List ℕ) (p : ℕ)
    → covered order (bs ++ b ∷ []) p ≡ covered order bs p + in_block b order p
covered-append order b [] p = omega arith
covered-append order b (x ∷ xs) p = omega (arith, covered-append order b xs p)

covered-elem : (order b : ℕ) (bs : List ℕ) → elem b bs ≡ true → 1 ≤ covered order bs b
covered-elem order b bs h = omega (arith, covered-remove order b bs b h, in_block-own b order)

total-same :
    (n : ℕ) (f g : ℕ → List ℕ) (p : ℕ) → ((o : ℕ) → o < n → f o ≡ g o) → total n f p ≡ total n g p
total-same zero f g p same = refl
total-same (suc n) f g p same = omega (
  arith,
  ap (λ bs. covered n bs p) (same n (omega arith)),
  total-same n f g p (λ o l. same o (omega (arith, l))),
)

-- Lists that differ in one area only, by a block.
pub total-change :
    (n k : ℕ) (f g : ℕ → List ℕ) (p d : ℕ)
    → k < n
    → ((o : ℕ) → o < n → o ≢ k → f o ≡ g o)
    → covered k (f k) p ≡ covered k (g k) p + d
    → total n f p ≡ total n g p + d
total-change zero k f g p d l same h = absurd (omega (arith, l))
total-change (suc n) k f g p d l same h = elim (Bool-cases (n == k)) [
  | inl at ↦
      let here = (==_iff n k).0 at in
      omega (
        arith,
        subst (λ t. covered t (f t) p ≡ covered t (g t) p + d) (sym here) h,
        total-same n f g p (λ o below. same o (omega (arith, below)) (omega (arith, below, here))),
      )
  | inr other ↦ omega (
    arith,
    ap (λ bs. covered n bs p) (same n (omega arith) (ground (arith, other))),
    total-change n k f g p d (ground (arith, other, l)) (λ o below. same o (omega (arith, below)))
        h,
  )
]

pub listed-total : (n : ℕ) (f : ℕ → List ℕ) (p : ℕ) → listed_in n f p ≡ true → 1 ≤ total n f p
listed-total zero f p h = absurd (ground (arith, h))
listed-total (suc n) f p h = elim (Bool-cases (elem p (f n))) [
  | inl there ↦ omega (arith, covered-elem n p (f n) there)
  | inr elsewhere ↦ omega (arith, listed-total n f p (ground (arith, h, elsewhere)))
]

pub listed-elem :
    (n : ℕ) (f : ℕ → List ℕ) (o p : ℕ) → o < n → elem p (f o) ≡ true → listed_in n f p ≡ true
listed-elem zero f o p l h = absurd (omega (arith, l))
listed-elem (suc n) f o p l h = elim (Bool-cases (n == o)) [
  | inl at ↦ ground (arith, ap (λ t. elem p (f t)) ((==_iff n o).0 at), h)
  | inr other ↦ ground (arith, listed-elem n f o p (ground (arith, other, l)) h)
]

-- A page that no block covers is in no list.
pub uncovered-listed : (z : Zone) (p : ℕ) → cover z p ≡ 0 → is_listed z p ≡ false
uncovered-listed z p e = elim (Bool-cases (is_listed z p)) [
  | inl there ↦ absurd (omega (arith, e, listed-total free_areas z.free_list p there))
  | inr absent ↦ absent
]
