-- ===== src/Strings.antt =====
-- lib/string.c: memory and string functions. A pointer is the list of the bytes (or of the 16-bit
-- units) from it to the end of its buffer; a read or a write past the end is a `fault`. What a function
-- returns as a pointer into its argument is an index here.
pub mod Text
pub mod Compare
pub mod Insert
mod Tests
use kernel_travel.Base.{
  ℕ, zero, suc, ◌+◌, ◌-◌, ◌*◌, ◌/◌, ◌%◌, ◌^◌, ◌≤◌, ◌<◌, min, max, bit_and, bit_or, bit_xor, ◌≡◌,
  refl, sym, ap, ◌∙◌, subst, ◌≢◌, ◌↔◌, ◌⊎◌, inl, inr, Bool, true, false, not, ◌&&◌, ◌||◌, Option,
  none, some, List, [], ◌∷◌, ◌++◌, map, arith, ltb, leb, ◌==◌, if◌then◌else◌, u32, u64, ==_iff,
  ltb→lt, lt→ltb, le→ltb, Bool-cases, Option-cases, all_below, all_below_sound, length, get_elem?,
  get_or, set, take, drop, replicate, length-append, length-set, length-replicate,
  get_elem?-eq-get_or, get_elem?-eq-none, get_or-set_self, get_or-set_ne, get_or-replicate, Outcome,
  ok, panic, fault, spin, ◌>>=◌, ◌>>◌, assert, present, Returns, returns, Returns-bind,
  Returns-mono, u32_small, u64_small, bind-eq, bit_or-high, ℤ, pos, negsuc, sub_ℕ,
}

-- while (size-- > 0) *dst++ = value;
unfoldable pub memset : List ℕ → ℕ → ℕ → Outcome (List ℕ)
memset dst value zero = ok dst
memset [] value (suc size) = fault
memset (d ∷ dst) value (suc size) = do rest ← memset dst value size; ok (value ∷ rest)

unfoldable pub memcpy : List ℕ → List ℕ → ℕ → Outcome (List ℕ)
memcpy dst src zero = ok dst
memcpy [] src (suc size) = fault
memcpy (d ∷ dst) [] (suc size) = fault
memcpy (d ∷ dst) (c ∷ src) (suc size) = do rest ← memcpy dst src size; ok (c ∷ rest)

-- `char` is signed: this orders the bytes as the chars that they are.
abbrev pub char_key : ℕ → ℕ
char_key c = (c + 128) % 256

unfoldable pub memcmp : List ℕ → List ℕ → ℕ → Outcome ℤ
memcmp a b zero = ok (pos 0)
memcmp [] b (suc size) = fault
memcmp (x ∷ a) [] (suc size) = fault
memcmp (x ∷ a) (y ∷ b) (suc size) =
    let rest = memcmp a b size in
    if x == y then rest else ok (if ltb (char_key y) (char_key x) then pos 1 else negsuc 0)

-- while ((*dest++ = *src++) != '\0');
unfoldable pub strcpy : List ℕ → List ℕ → Outcome (List ℕ)
strcpy [] src = fault
strcpy (d ∷ dest) [] = fault
strcpy (d ∷ dest) (c ∷ src) =
    let rest = (do r ← strcpy dest src; ok (c ∷ r)) in if c == 0 then ok (c ∷ dest) else rest

-- The characters passed so far are counted; the pointer difference is returned as a uint32_t.
unfoldable pub strlen_loop : List ℕ → ℕ → Outcome ℕ
strlen_loop [] n = fault
strlen_loop (c ∷ str) n = let rest = strlen_loop str (n + 1) in if c == 0 then ok (u32 n) else rest

unfoldable pub strlen : List ℕ → Outcome ℕ
unfolding strlen_loop
strlen str = strlen_loop str 0

unfoldable pub strnlen : List ℕ → ℕ → Outcome ℕ
unfolding strlen
strnlen str max = do len ← strlen str; ok (if leb max len then max else len)

unfoldable pub strncmp : List ℕ → List ℕ → ℕ → Outcome ℤ
strncmp p q zero = ok (pos 0)
strncmp [] q (suc n) = fault
strncmp (x ∷ p) [] (suc n) = fault
strncmp (x ∷ p) (y ∷ q) (suc n) =
    let rest = strncmp p q n in
    if not (x == 0) && x == y then rest else if x == 0 && y == 0 then ok (pos 0) else ok (sub_ℕ x y)

unfoldable pub strcmp : List ℕ → List ℕ → Outcome ℤ
strcmp [] b = fault
strcmp (x ∷ a) [] = fault
strcmp (x ∷ a) (y ∷ b) =
    let rest = strcmp a b in
    if not (x == 0) && x == y
    then rest
    else if ltb (char_key x) (char_key y)
    then ok (negsuc 0)
    else if ltb (char_key y) (char_key x)
    then ok (pos 1)
    else ok (pos 0)

unfoldable pub strchr_loop : List ℕ → ℕ → ℕ → Outcome (Option ℕ)
strchr_loop [] ch i = fault
strchr_loop (c ∷ str) ch i =
    let rest = strchr_loop str ch (i + 1) in
    if c == 0 then ok none else if c == ch then ok (some i) else rest

unfoldable pub strchr : List ℕ → ℕ → Outcome (Option ℕ)
unfolding strchr_loop
strchr str ch = strchr_loop str ch 0

unfoldable pub strrchr_loop : List ℕ → ℕ → ℕ → Option ℕ → Outcome (Option ℕ)
strrchr_loop [] ch i last_char = fault
strrchr_loop (c ∷ str) ch i last_char =
    let rest = strrchr_loop str ch (i + 1) (if c == ch then some i else last_char) in
    if c == 0 then ok last_char else rest

unfoldable pub strrchr : List ℕ → ℕ → Outcome (Option ℕ)
unfolding strrchr_loop
strrchr str ch = strrchr_loop str ch 0 none

unfoldable pub strcat : List ℕ → List ℕ → Outcome (List ℕ)
unfolding strcpy
strcat [] src = fault
strcat (d ∷ dst) src =
    let rest = (do r ← strcat dst src; ok (d ∷ r)) in if d == 0 then strcpy (d ∷ dst) src else rest

unfoldable pub strchrs_loop : List ℕ → ℕ → ℕ → Outcome ℕ
strchrs_loop [] ch ch_cnt = fault
strchrs_loop (c ∷ p) ch ch_cnt =
    let rest = strchrs_loop p ch (if c == ch then u32 (ch_cnt + 1) else ch_cnt) in
    if c == 0 then ok ch_cnt else rest

unfoldable pub strchrs : List ℕ → ℕ → Outcome ℕ
unfolding strchrs_loop
strchrs str ch = strchrs_loop str ch 0

-- for (n = 0; s[n]; n++);
unfoldable pub wstrlen_loop : List ℕ → ℕ → Outcome ℕ
wstrlen_loop [] n = fault
wstrlen_loop (c ∷ s) n = let rest = wstrlen_loop s (n + 1) in if c == 0 then ok n else rest

unfoldable pub wstrlen : List ℕ → Outcome ℕ
unfolding wstrlen_loop
wstrlen s = wstrlen_loop s 0

-- The loops that widen or narrow a string unit by unit by `conv`, the units up to and with the NUL, and the
-- count of the units before it.
unfoldable pub convert : (ℕ → ℕ) → List ℕ → List ℕ → ℕ → Outcome (List ℕ × ℕ)
convert conv dst [] i = fault
convert conv [] (c ∷ src) i = fault
convert conv (d ∷ dst) (c ∷ src) i =
    let rest = (do r ← convert conv dst src (i + 1); ok (conv c ∷ r.0, r.1)) in
    if c == 0 then ok (0 ∷ dst, i) else rest

unfoldable pub wstr2str : List ℕ → List ℕ → Outcome (List ℕ × ℕ)
unfolding convert
wstr2str dst src = convert (λ c. bit_and c 0xff) dst src 0

-- A `char` above 127 is negative, and an unsigned short takes it modulo 2 ^ 16.
abbrev pub widen : ℕ → ℕ
widen c = if ltb c 128 then c else c + 0xff00

unfoldable pub str2wstr : List ℕ → List ℕ → Outcome (List ℕ × ℕ)
unfolding convert
str2wstr dst src = convert widen dst src 0

-- The part of strlcat after the two lengths are known, with `dest` moved on by `dsize`.
unfoldable pub append_at : List ℕ → List ℕ → ℕ → ℕ → Outcome (List ℕ)
unfolding memcpy
append_at dest src zero len = do
  r ← memcpy dest src len
  _ ← present (get_elem? r len)
  ok (set r len 0)
append_at [] src (suc dsize) len = fault
append_at (d ∷ dest) src (suc dsize) len = do r ← append_at dest src dsize len; ok (d ∷ r)

unfoldable pub strlcat : List ℕ → List ℕ → ℕ → Outcome (List ℕ × ℕ)
unfolding strlen append_at
strlcat dest src count = do
  dsize ← strlen dest
  len ← strlen src
  assert (ltb dsize count)
  let room = count - dsize
  r ← append_at dest src dsize (if leb room len then room - 1 else len)
  ok (r, dsize + len)
