-- ===== src/Paths/Depth.antt =====
-- fs/path.c: path_parse takes the names of a path one by one, and path_depth_cnt counts them.
use kernel_travel.Base.{
  ℕ, zero, suc, ◌+◌, ◌^◌, ◌≤◌, ◌<◌, ◌≡◌, refl, sym, ap, ◌∙◌, subst, ◌≢◌, inl, inr, Bool, true,
  false, Option, none, some, List, [], ◌∷◌, ◌++◌, arith, ◌==◌, if◌then◌else◌, u32, Bool-cases,
  length, get_elem?, set, replicate, length-append, length-set, Outcome, ok, ◌>>=◌, present,
  u32_small, get_elem?-set_self, get_elem?-set_ne, get_elem?-in, if-false,
}
use kernel_travel.Paths.{
  max_name_len, skip_slashes, copy_name, path_parse, depth_loop, path_depth_cnt,
}

-- What is left of a text after the slashes, and after the name, at its head.
abbrev drop_slashes : List ℕ → List ℕ
drop_slashes [] = []
drop_slashes (c ∷ t) = if c == b'/' then drop_slashes t else c ∷ t

abbrev drop_name : List ℕ → List ℕ
drop_name [] = []
drop_name (c ∷ t) = if c == b'/' then c ∷ t else drop_name t

-- The length of the name at the head.
abbrev pub name_len : List ℕ → ℕ
name_len [] = 0
name_len (c ∷ t) = if c == b'/' then 0 else suc (name_len t)

-- No name is longer than the buffer, and the text has no NUL.
abbrev pub IsText : List ℕ → Type 0
IsText [] = Unit
IsText (c ∷ t) = (name_len (c ∷ t) ≤ max_name_len) × (c ≢ 0) × IsText t

-- The number of names: of characters other than a slash that stand at the start or behind a slash.
abbrev pub names : Bool → List ℕ → ℕ
names in_name [] = 0
names in_name (c ∷ t) =
    if c == b'/' then names false t else if in_name then names true t else suc (names true t)

-- The buffer after the name at the head of the text.
abbrev written : List ℕ → ℕ → List ℕ → List ℕ
written name i [] = name
written name i (c ∷ t) = if c == b'/' then name else written (set name i c) (i + 1) t

drop_slashes-IsText : (t : List ℕ) → IsText t → IsText (drop_slashes t)
drop_slashes-IsText [] h = h
drop_slashes-IsText (c ∷ t) h = elim (Bool-cases (c == b'/')) [
  | inl slash ↦ rw slash (drop_slashes-IsText t h.2)
  | inr other ↦ rw other h
]

drop_name-IsText : (t : List ℕ) → IsText t → IsText (drop_name t)
drop_name-IsText [] h = h
drop_name-IsText (c ∷ t) h = elim (Bool-cases (c == b'/')) [
  | inl slash ↦ rw slash h
  | inr other ↦ rw other (drop_name-IsText t h.2)
]

names-drop_slashes : (t : List ℕ) → names false (drop_slashes t) ≡ names false t
names-drop_slashes [] = refl
names-drop_slashes (c ∷ t) = ground (arith, names-drop_slashes t)

names-drop_name : (t : List ℕ) → names false (drop_name t) ≡ names true t
names-drop_name [] = refl
names-drop_name (c ∷ t) = ground (arith, names-drop_name t)

length-drop_slashes : (t : List ℕ) → length (drop_slashes t) ≤ length t
length-drop_slashes [] = omega arith
length-drop_slashes (c ∷ t) = ground (arith, length-drop_slashes t)

length-drop_name : (t : List ℕ) → length (drop_name t) ≤ length t
length-drop_name [] = omega arith
length-drop_name (c ∷ t) = ground (arith, length-drop_name t)

length-written : (t name : List ℕ) (i : ℕ) → length (written name i t) ≡ length name
length-written [] name i = refl
length-written (c ∷ t) name i =
    ground (arith, length-written t (set name i c) (i + 1), length-set name i c)

written_later :
    (t name : List ℕ) (i : ℕ) → 1 ≤ i → get_elem? (written name i t) 0 ≡ get_elem? name 0
written_later [] name i h = refl
written_later (c ∷ t) name i h = elim (Bool-cases (c == b'/')) [
  | inl slash ↦ rw slash refl
  | inr other ↦ rw other (
      written_later t (set name i c) (i + 1) (omega arith)
      ∙ get_elem?-set_ne name i 0 c (λ e. omega (arith, e, h)))
]

skip_slashes-drop :
    (t rest : List ℕ) → skip_slashes (t ++ 0 ∷ rest) ≡ ok (drop_slashes t ++ 0 ∷ rest)
unfolding skip_slashes
skip_slashes-drop [] rest = refl
skip_slashes-drop (c ∷ t) rest = elim (Bool-cases (c == b'/')) [
  | inl slash ↦ rw slash (skip_slashes-drop t rest)
  | inr other ↦ rw other refl
]

copy_name-written :
    (t rest name : List ℕ) (i : ℕ)
    → IsText t
    → length name ≡ max_name_len
    → i + name_len t ≤ max_name_len
    → copy_name (t ++ 0 ∷ rest) name i ≡ ok (drop_name t ++ 0 ∷ rest, written name i t)
unfolding copy_name
copy_name-written [] rest name i h len room = refl
copy_name-written (c ∷ t) rest name i h len room = elim (Bool-cases (c == b'/')) [
  | inl slash ↦ rw slash refl
  | inr other ↦
      let here : i < length name = ground (arith, room, other, len) in
      let there = get_elem?-in name i here in
      let not_nul : (c == 0) ≡ false = ground (arith, h.1) in
      let more : i + 1 + name_len t ≤ max_name_len = ground (arith, room, other) in
      rw (other, not_nul, there.1)
        (copy_name-written t rest (set name i c) (i + 1) h.2 (length-set name i c ∙ len) more)
]

-- The path that path_parse leaves: NULL at the end.
abbrev path_left : List ℕ → List ℕ → Option (List ℕ)
path_left [] rest = none
path_left (c ∷ t) rest = some (c ∷ (t ++ 0 ∷ rest))

-- The end of path_parse, with the path left and the buffer.
abbrev finish : List ℕ × List ℕ → Outcome (Option (List ℕ) × List ℕ)
finish r = do left ← present (get_elem? r.0 0); ok (if left == 0 then none else some r.0, r.1)

finish-left :
    (t rest name : List ℕ) → IsText t → finish (t ++ 0 ∷ rest, name) ≡ ok (path_left t rest, name)
finish-left [] rest name h = refl
finish-left (c ∷ t) rest name h =
    let not_nul : (c == 0) ≡ false = ground (arith, h.1) in rw not_nul refl

name_len-IsText : (t : List ℕ) → IsText t → name_len t ≤ max_name_len
name_len-IsText [] h = omega arith
name_len-IsText (c ∷ t) h = h.0

-- From the path behind its slashes.
parse_name :
    (t rest name : List ℕ)
    → IsText t
    → length name ≡ max_name_len
    → (copy_name (t ++ 0 ∷ rest) name 0 >>= finish)
      ≡ ok (path_left (drop_name t) rest, written name 0 t)
parse_name t rest name h len =
    ap (λ o. o >>= finish)
      (copy_name-written t rest name 0 h len (omega (arith, name_len-IsText t h)))
    ∙ finish-left (drop_name t) rest (written name 0 t) (drop_name-IsText t h)

path_parse-left :
    (t rest name : List ℕ)
    → IsText t
    → length name ≡ max_name_len
    → path_parse (t ++ 0 ∷ rest) name
      ≡ ok (path_left (drop_name (drop_slashes t)) rest, written name 0 (drop_slashes t))
unfolding path_parse
path_parse-left [] rest name h len = parse_name [] rest name h len
path_parse-left (c ∷ t) rest name h len = elim (Bool-cases (c == b'/')) [
  | inl slash ↦
      rw (slash, skip_slashes-drop t rest)
        (parse_name (drop_slashes t) rest name (drop_slashes-IsText t h.2) len)
  | inr other ↦
      ap (λ o. o >>= λ path. copy_name path name 0 >>= finish) (if-false _ _ other)
      ∙ parse_name (c ∷ t) rest name h len
      ∙ ap (λ u. ok (path_left (drop_name u) rest, written name 0 u)) (sym (if-false _ _ other))
]

-- The head of the text is no slash.
abbrev NoSlash : List ℕ → Type 0
NoSlash [] = Unit
NoSlash (c ∷ t) = (c == b'/') ≡ false

drop_slashes-NoSlash : (t : List ℕ) → NoSlash (drop_slashes t)
drop_slashes-NoSlash [] = tt
drop_slashes-NoSlash (c ∷ t) = elim (Bool-cases (c == b'/')) [
  | inl slash ↦ rw slash (drop_slashes-NoSlash t)
  | inr other ↦ subst NoSlash (sym (if-false _ _ other)) other
]

abbrev cleared : List ℕ
cleared = replicate max_name_len 0

-- What the loop counts from a buffer with a name in it on, within `fuel` rounds.
abbrev Counts : ℕ → List ℕ → Type 0
Counts fuel rest =
    (t name : List ℕ) (c depth : ℕ)
    → IsText t
    → length t + 2 ≤ fuel
    → get_elem? name 0 ≡ some c
    → c ≢ 0
    → depth + 1 + names false t < 2 ^ 32
    → depth_loop fuel (path_left t rest) name depth ≡ ok (depth + 1 + names false t)

-- What it counts after a call of path_parse that finds a name.
after_name :
    (fuel : ℕ) (rest u name : List ℕ) (x depth : ℕ)
    → Counts fuel rest
    → IsText (x ∷ u)
    → (x == b'/') ≡ false
    → length name ≡ max_name_len
    → length u + 2 ≤ fuel
    → depth + names false (x ∷ u) < 2 ^ 32
    → depth_loop fuel (path_left (drop_name (x ∷ u)) rest) (written name 0 (x ∷ u)) depth
      ≡ ok (depth + names false (x ∷ u))
after_name fuel rest u name x depth ih h start len enough small =
    let counted : names false (x ∷ u) ≡ suc (names false (drop_name u)) =
      ground (arith, start, names-drop_name u) in
    let first =
      ap (λ w. get_elem? w 0) (if-false _ _ start)
      ∙ written_later u (set name 0 x) 1 (omega arith)
      ∙ get_elem?-set_self name 0 x (omega (arith, len)) in
    ap (λ d. depth_loop fuel (path_left d rest) (written name 0 (x ∷ u)) depth) (if-false _ _ start)
    ∙ ih (drop_name u) (written name 0 (x ∷ u)) x depth (drop_name-IsText u h.2)
        (omega (arith, enough, length-drop_name u)) first h.1 (omega (arith, small, counted))
    ∙ ap ok (omega (arith, counted))

-- The same after a call that may find none, with a buffer of zeros.
depth_loop-after :
    (fuel : ℕ) (rest s : List ℕ) (depth : ℕ)
    → Counts fuel rest
    → IsText s
    → NoSlash s
    → length s + 1 ≤ fuel
    → depth + names false s < 2 ^ 32
    → depth_loop fuel (path_left (drop_name s) rest) (written cleared 0 s) depth
      ≡ ok (depth + names false s)
unfolding depth_loop
depth_loop-after zero rest s depth ih h start enough small = absurd (omega (arith, enough))
depth_loop-after (suc fuel) rest [] depth ih h start enough small = ap ok (omega arith)
depth_loop-after (suc fuel) rest (x ∷ u) depth ih h start enough small =
    after_name (suc fuel) rest u cleared x depth ih h start refl (omega (arith, enough)) small

depth_loop-names : (fuel : ℕ) (rest : List ℕ) → Counts fuel rest
unfolding depth_loop
depth_loop-names zero rest t name c depth h enough first ne small = absurd (omega (arith, enough))
depth_loop-names (suc zero) rest t name c depth h enough first ne small =
    absurd (omega (arith, enough))
depth_loop-names (suc (suc fuel)) rest [] name c depth h enough first ne small =
    let not_nul : (c == 0) ≡ false = ground (arith, ne) in
    rw (first, not_nul) (ap ok (omega (arith, small)))
depth_loop-names (suc fuel) rest (x ∷ t) name c depth h enough first ne small =
    let not_nul : (c == 0) ≡ false = ground (arith, ne) in
    let all = names-drop_slashes (x ∷ t) in
    let s = drop_slashes (x ∷ t) in
    rw (first, not_nul)
      (ap (λ o. do r ← o; depth_loop fuel r.0 r.1 (u32 (depth + 1)))
          (path_parse-left (x ∷ t) rest cleared h refl)
        ∙ ap (depth_loop fuel (path_left (drop_name s) rest) (written cleared 0 s))
            (u32_small (depth + 1) (omega (arith, small)))
        ∙ depth_loop-after fuel rest s (depth + 1) (depth_loop-names fuel rest)
            (drop_slashes-IsText (x ∷ t) h) (drop_slashes-NoSlash (x ∷ t))
            (omega (arith, enough, length-drop_slashes (x ∷ t))) (omega (arith, small, all))
        ∙ ap (λ n. ok (depth + 1 + n)) all)

-- What path_depth_cnt returns: the number of names, or, where there is none, 1 for a buffer that does not
-- start with 0 and 0 for one that does.
abbrev pub depth_of : List ℕ → ℕ → ℕ
depth_of t c = if names false t == 0 then (if c == 0 then 0 else 1) else names false t

names-length : (b : Bool) (t : List ℕ) → names b t ≤ length t
names-length b [] = omega arith
names-length b (c ∷ t) = ground (arith, names-length true t, names-length false t)

-- The loop after the first call of path_parse.
first_round :
    (fuel : ℕ) (rest s name : List ℕ) (c : ℕ)
    → IsText s
    → NoSlash s
    → length name ≡ max_name_len
    → get_elem? name 0 ≡ some c
    → length s + 2 ≤ fuel
    → length s < 2 ^ 31
    → depth_loop fuel (path_left (drop_name s) rest) (written name 0 s) 0 ≡ ok (depth_of s c)
unfolding depth_loop
first_round zero rest s name c h start len first enough small = absurd (omega (arith, enough))
first_round (suc zero) rest s name c h start len first enough small = absurd (omega (arith, enough))
first_round (suc (suc fuel)) rest [] name c h start len first enough small = rw first (ground arith)
first_round (suc (suc fuel)) rest (x ∷ u) name c h start len first enough small =
    let some_name : (names false (x ∷ u) == 0) ≡ false = ground (arith, start) in
    let few = names-length false (x ∷ u) in
    after_name (suc (suc fuel)) rest u name x 0 (depth_loop-names (suc (suc fuel)) rest) h start len
      (omega (arith, enough)) (omega (arith, few, small))
    ∙ ap ok (omega arith)
    ∙ sym (ap ok (if-false _ _ some_name))

-- path_depth_cnt of a path with no name longer than the buffer ends well: it returns the number of the names,
-- whatever slashes stand between, before and behind them; for a path with no name it returns 0 or 1, as the
-- first byte of the buffer, which is not set, is 0 or not.
pub path_depth_cnt-names :
    (t rest name : List ℕ) (c : ℕ)
    → IsText t
    → length name ≡ max_name_len
    → get_elem? name 0 ≡ some c
    → length t < 2 ^ 31
    → path_depth_cnt (t ++ 0 ∷ rest) name ≡ ok (depth_of t c)
unfolding path_depth_cnt
path_depth_cnt-names t rest name c h len first small =
    let s = drop_slashes t in
    let shorter = length-drop_slashes t in
    ap (λ o. do r ← o; depth_loop (length (t ++ 0 ∷ rest) + 2) r.0 r.1 0)
      (path_parse-left t rest name h len)
    ∙ first_round (length (t ++ 0 ∷ rest) + 2) rest s name c (drop_slashes-IsText t h)
        (drop_slashes-NoSlash t) len first (omega (arith, shorter, length-append t (0 ∷ rest)))
        (omega (arith, shorter, small))
    ∙ ap (λ n. ok (if n == 0 then (if c == 0 then 0 else 1) else n)) (names-drop_slashes t)
