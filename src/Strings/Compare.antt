-- ===== src/Strings/Compare.antt =====
-- lib/string.c: comparing and searching, against lists of characters without NUL.
use kernel_travel.Base.{
  ℕ, ◌+◌, ◌^◌, ◌<◌, ◌≡◌, refl, sym, ap, ◌∙◌, ◌≢◌, ◌↔◌, inl, inr, true, false, Option, none, some,
  List, [], ◌∷◌, ◌++◌, arith, ltb, ◌==◌, if◌then◌else◌, u32, Bool-cases, length, ok, Returns,
  returns, Returns-mono, u32_small, pos, negsuc,
}
use kernel_travel.Strings.{
  char_key, strcmp, strchr_loop, strchr, strrchr_loop, strrchr, strchrs_loop, strchrs,
}
use kernel_travel.Strings.Text.{NoNul}

-- Characters of a string are bytes and not NUL.
abbrev pub IsString : List ℕ → Type 0
IsString [] = Unit
IsString (x ∷ xs) = (x ≢ 0) × (x < 256) × IsString xs

-- The verdict on the first two characters that differ.
differ :
    {P : Type 0} (x y : ℕ)
    → x < 256
    → y < 256
    → x ≢ y
    → ¬ P
    → Returns
        (λ r. (r ≡ pos 0) ↔ P)
        (if ltb (char_key x) (char_key y)
          then ok (negsuc 0)
          else if ltb (char_key y) (char_key x)
          then ok (pos 1)
          else ok (pos 0))
differ x y hx hy ne np = elim (Bool-cases (ltb (char_key x) (char_key y))) [
  | inl lt ↦ rw lt (returns (λ e. cc, λ p. absurd (np p)))
  | inr ge ↦
      let gt : ltb (char_key y) (char_key x) ≡ true = ground arith in
      rw (ge, gt) (returns (λ e. cc, λ p. absurd (np p)))
]

-- strcmp ends on any two strings, and returns 0 exactly if they are equal.
pub strcmp_iff :
    (xs ys rest rest' : List ℕ)
    → IsString xs
    → IsString ys
    → Returns (λ r. (r ≡ pos 0) ↔ (xs ≡ ys)) (strcmp (xs ++ 0 ∷ rest) (ys ++ 0 ∷ rest'))
unfolding strcmp
strcmp_iff [] [] rest rest' hx hy = returns (λ e. refl, λ e. refl)
strcmp_iff [] (y ∷ ys) rest rest' hx hy =
    differ 0 y (omega arith) hy.1 (λ e. hy.0 (sym e)) (λ e. cc)
strcmp_iff (x ∷ xs) [] rest rest' hx hy =
    let nz : (x == 0) ≡ false = ground arith in rw nz (differ x 0 hx.1 (omega arith) hx.0 (λ e. cc))
strcmp_iff (x ∷ xs) (y ∷ ys) rest rest' hx hy =
    let nz : (x == 0) ≡ false = ground arith in
    elim (Bool-cases (x == y)) [
      | inl e ↦
          rw (nz, e)
            (Returns-mono (strcmp_iff xs ys rest rest' hx.2 hy.2)
              λ r h. (λ z. ground (arith, h.0 z), λ q. h.1 (cc)))
      | inr ne ↦ rw (nz, ne) (differ x y hx.1 hy.1 (λ q. ground arith) (λ q. ground arith))
    ]

-- The index of the first and of the last occurrence, and the number of occurrences.
abbrev pub index_of : List ℕ → ℕ → Option ℕ
index_of [] ch = none
index_of (x ∷ xs) ch =
    if x == ch then some 0 else elim (index_of xs ch) [ none ↦ none | some i ↦ some (i + 1) ]

abbrev pub last_index_of : List ℕ → ℕ → Option ℕ
last_index_of [] ch = none
last_index_of (x ∷ xs) ch = elim (last_index_of xs ch) [
  | none ↦ if x == ch then some 0 else none
  | some i ↦ some (i + 1)
]

abbrev pub count : List ℕ → ℕ → ℕ
count [] ch = 0
count (x ∷ xs) ch = if x == ch then count xs ch + 1 else count xs ch

abbrev shifted : Option ℕ → ℕ → Option ℕ → Option ℕ
shifted none i d = d
shifted (some k) i d = some (i + k)

strchr_loop-index :
    (xs rest : List ℕ) (ch i : ℕ)
    → NoNul xs
    → strchr_loop (xs ++ 0 ∷ rest) ch i ≡ ok (shifted (index_of xs ch) i none)
unfolding strchr_loop
strchr_loop-index [] rest ch i h = refl
strchr_loop-index (x ∷ xs) rest ch i h = ground (arith, strchr_loop-index xs rest ch (i + 1) h.1)

strrchr_loop-index :
    (xs rest : List ℕ) (ch i : ℕ) (d : Option ℕ)
    → NoNul xs
    → strrchr_loop (xs ++ 0 ∷ rest) ch i d ≡ ok (shifted (last_index_of xs ch) i d)
unfolding strrchr_loop
strrchr_loop-index [] rest ch i d h = refl
strrchr_loop-index (x ∷ xs) rest ch i d h =
    ground (arith, strrchr_loop-index xs rest ch (i + 1) (if x == ch then some i else d) h.1)

strchrs_loop-count :
    (xs rest : List ℕ) (ch n : ℕ)
    → NoNul xs
    → n + length xs < 2 ^ 32
    → strchrs_loop (xs ++ 0 ∷ rest) ch n ≡ ok (n + count xs ch)
unfolding strchrs_loop
strchrs_loop-count [] rest ch n h small = ground arith
strchrs_loop-count (x ∷ xs) rest ch n h small = ground (
  arith,
  strchrs_loop-count xs rest ch (if x == ch then u32 (n + 1) else n) h.1,
  u32_small (n + 1),
)

shifted_zero : (o : Option ℕ) → shifted o 0 none ≡ o
shifted_zero none = refl
shifted_zero (some k) = ap some (omega arith)

-- On a string shorter than 4 GiB, strchr returns the place of the first occurrence of a character,
-- strrchr that of the last one, each NULL if there is none, and strchrs the number of occurrences.
pub searches :
    (xs rest : List ℕ) (ch : ℕ)
    → NoNul xs
    → length xs < 2 ^ 32
    → (strchr (xs ++ 0 ∷ rest) ch ≡ ok (index_of xs ch))
      × (strrchr (xs ++ 0 ∷ rest) ch ≡ ok (last_index_of xs ch))
      × (strchrs (xs ++ 0 ∷ rest) ch ≡ ok (count xs ch))
unfolding strchr strrchr strchrs
searches xs rest ch h small = (
  strchr_loop-index xs rest ch 0 h ∙ ap ok (shifted_zero (index_of xs ch)),
  strrchr_loop-index xs rest ch 0 none h ∙ ap ok (shifted_zero (last_index_of xs ch)),
  strchrs_loop-count xs rest ch 0 h (omega arith) ∙ ap ok (omega arith),
)
