-- ===== src/Strings/Text.antt =====
-- lib/string.c: measuring, copying and appending, against lists of characters without NUL.

use kernel_travel.Base.{
  ℕ, zero, suc, ◌+◌, ◌-◌, ◌^◌, ◌≤◌, ◌<◌, min, ◌≡◌, refl, ap, ◌∙◌, ◌≢◌, none, List, [], ◌∷◌, ◌++◌,
  arith, ltb, leb, if◌then◌else◌, lt→ltb, length, get_elem?, set, take, drop, length-append, ok,
  fault,
}
use kernel_travel.Strings.{memcpy, strcpy, strlen_loop, strlen, strcat, append_at, strlcat}

abbrev pub NoNul : List ℕ → Type 0
NoNul [] = Unit
NoNul (x ∷ xs) = (x ≢ 0) × NoNul xs

strlen_loop-length :
    (xs rest : List ℕ) (n : ℕ)
    → NoNul xs
    → n + length xs < 2 ^ 32
    → strlen_loop (xs ++ 0 ∷ rest) n ≡ ok (n + length xs)
unfolding strlen_loop
strlen_loop-length [] rest n h small = ap ok (omega arith)
strlen_loop-length (x ∷ xs) rest n h small = ground (arith, strlen_loop-length xs rest (n + 1) h.1)

-- strlen of a string shorter than 4 GiB is its number of characters.
pub strlen-length :
    (xs rest : List ℕ) → NoNul xs → length xs < 2 ^ 32 → strlen (xs ++ 0 ∷ rest) ≡ ok (length xs)
unfolding strlen
strlen-length xs rest h small = strlen_loop-length xs rest 0 h (omega arith) ∙ ap ok (omega arith)

-- strcpy into a buffer with room for the string and its NUL writes both and leaves the rest of the buffer as it
-- was; into a shorter buffer it runs past the end.
pub strcpy_lem :
    (dest xs rest : List ℕ)
    → NoNul xs
    → strcpy dest (xs ++ 0 ∷ rest) ≡ (
        if ltb (length xs) (length dest) then ok (xs ++ 0 ∷ drop (suc (length xs)) dest) else fault)
unfolding strcpy
strcpy_lem [] xs rest h = ground arith
strcpy_lem (d ∷ dest) [] rest h = ground arith
strcpy_lem (d ∷ dest) (x ∷ xs) rest h = ground (arith, strcpy_lem dest xs rest h.1)

-- strcat to a buffer that holds a string: with room for both and the NUL it appends, and leaves
-- the rest as it was; with less room it runs past the end.
pub strcat_lem :
    (xs room ys rest : List ℕ)
    → NoNul xs
    → NoNul ys
    → strcat (xs ++ 0 ∷ room) (ys ++ 0 ∷ rest) ≡ (
        if leb (length ys) (length room)
        then ok (xs ++ (ys ++ 0 ∷ drop (length ys) room))
        else fault)
unfolding strcat
strcat_lem [] room ys rest hx hy = ground (arith, strcpy_lem (0 ∷ room) ys rest hy)
strcat_lem (x ∷ xs) room ys rest hx hy = ground (arith, strcat_lem xs room ys rest hx.1 hy)

memcpy_lem :
    (dst src : List ℕ) (n : ℕ)
    → n ≤ length dst
    → n ≤ length src
    → memcpy dst src n ≡ ok (take n src ++ drop n dst)
unfolding memcpy
memcpy_lem dst src zero h k = refl
memcpy_lem [] src (suc n) h k = absurd (omega arith)
memcpy_lem (d ∷ dst) [] (suc n) h k = absurd (omega arith)
memcpy_lem (d ∷ dst) (c ∷ src) (suc n) h k = ground (arith, memcpy_lem dst src n)

set-take-drop :
    (n : ℕ) (src dst : List ℕ)
    → n < length dst
    → n ≤ length src
    → (set (take n src ++ drop n dst) n 0 ≡ take n src ++ 0 ∷ drop (suc n) dst)
      × (get_elem? (take n src ++ drop n dst) n ≢ none)
set-take-drop zero src [] h k = absurd (omega arith)
set-take-drop zero src (d ∷ dst) h k = (refl, λ e. cc)
set-take-drop (suc n) [] dst h k = absurd (omega arith)
set-take-drop (suc n) (c ∷ src) [] h k = absurd (omega arith)
set-take-drop (suc n) (c ∷ src) (d ∷ dst) h k =
    let ih = set-take-drop n src dst (omega arith) (omega arith) in
    (ap (λ (t : List ℕ). c ∷ t) ih.0, ih.1)

take-append : (n : ℕ) (xs ys : List ℕ) → n ≤ length xs → take n (xs ++ ys) ≡ take n xs
take-append zero xs ys h = refl
take-append (suc n) [] ys h = absurd (omega arith)
take-append (suc n) (x ∷ xs) ys h = ap (λ (t : List ℕ). x ∷ t) (take-append n xs ys (omega arith))

append_at_lem :
    (xs tail src : List ℕ) (len : ℕ)
    → len < length tail
    → len ≤ length src
    → append_at (xs ++ tail) src (length xs) len
      ≡ ok (xs ++ (take len src ++ 0 ∷ drop (suc len) tail))
unfolding append_at
append_at_lem [] tail src len h k =
    ground (arith, memcpy_lem tail src len, set-take-drop len src tail)
append_at_lem (x ∷ xs) tail src len h k = ground (arith, append_at_lem xs tail src len)

-- strlcat into a buffer of `count` bytes that holds a string: the result is the string followed by as much of
-- the source as leaves a byte for the NUL, in the same buffer, and the number returned is the length of the
-- untruncated result.
pub strlcat_lem :
    (xs room ys rest : List ℕ) (count : ℕ)
    → NoNul xs
    → NoNul ys
    → length xs < count
    → count ≤ length xs + 1 + length room
    → length xs < 2 ^ 32
    → length ys < 2 ^ 32
    → strlcat (xs ++ 0 ∷ room) (ys ++ 0 ∷ rest) count ≡ (
        let n = min (length ys) (count - length xs - 1) in
        ok (xs ++ (take n ys ++ 0 ∷ drop n room), length xs + length ys))
unfolding strlcat
strlcat_lem xs room ys rest count hx hy h fits sx sy =
    let n = min (length ys) (count - length xs - 1) in
    let len-eq : (if leb (count - length xs) (length ys) then count - length xs - 1 else length ys)
        ≡ n =
      ground arith in
    rw
      (
        strlen-length xs room hx sx,
        strlen-length ys rest hy sy,
        lt→ltb _ _ h,
        len-eq,
        append_at_lem xs (0 ∷ room) (ys ++ 0 ∷ rest) n (omega arith)
            (omega (arith, length-append ys (0 ∷ rest))),
      )
      (ap (λ (t : List ℕ). ok (xs ++ (t ++ 0 ∷ drop n room), length xs + length ys))
        (take-append n ys (0 ∷ rest) (omega arith)))
