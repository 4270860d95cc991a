-- ===== src/Paths.antt =====
-- fs/path.c, path_parse and path_depth_cnt: a path taken apart at its slashes. A pointer into the path is the
-- list of the characters from there on.
pub mod Depth
mod Tests
use kernel_travel.Base.{
  ℕ, zero, suc, ◌+◌, not, ◌&&◌, Option, none, some, List, [], ◌∷◌, ◌==◌, if◌then◌else◌, u32, length,
  get_elem?, set, drop, replicate, Outcome, ok, fault, spin, ◌>>=◌, present,
}

abbrev pub max_name_len : ℕ
max_name_len = 128

-- while (*(++pathname) == '/')
unfoldable pub skip_slashes : List ℕ → Outcome (List ℕ)
skip_slashes [] = fault
skip_slashes (c ∷ path) = let rest = skip_slashes path in if c == b'/' then rest else ok (c ∷ path)

-- The loop that copies a name up to a slash or the NUL: the path left, and the buffer.
unfoldable pub copy_name : List ℕ → List ℕ → ℕ → Outcome (List ℕ × List ℕ)
copy_name [] name i = fault
copy_name (c ∷ path) name i =
    if not (c == b'/') && not (c == 0)
    then (do _ ← present (get_elem? name i); copy_name path (set name i c) (i + 1))
    else ok (c ∷ path, name)

-- The path left, none for NULL, and the buffer of the name.
unfoldable pub path_parse : List ℕ → List ℕ → Outcome (Option (List ℕ) × List ℕ)
unfolding skip_slashes copy_name
path_parse pathname name_store = do
  first ← present (get_elem? pathname 0)
  path ← (if first == b'/' then skip_slashes (drop 1 pathname) else ok pathname)
  r ← copy_name path name_store 0
  left ← present (get_elem? r.0 0)
  ok (if left == 0 then none else some r.0, r.1)

-- The loop of path_depth_cnt within `fuel` rounds.
unfoldable pub depth_loop : ℕ → Option (List ℕ) → List ℕ → ℕ → Outcome ℕ
unfolding path_parse
depth_loop zero p name depth = spin
depth_loop (suc fuel) none name depth = do
  c ← present (get_elem? name 0)
  (if c == 0 then ok depth else depth_loop fuel none (replicate max_name_len 0) (u32 (depth + 1)))
depth_loop (suc fuel) (some p) name depth = do
  c ← present (get_elem? name 0)
  (if c == 0 then ok depth else (do
    r ← path_parse p (replicate max_name_len 0)
    depth_loop fuel r.0 r.1 (u32 (depth + 1))))

-- `name` is what the uninitialised buffer holds. A path of `n` characters has fewer names.
unfoldable pub path_depth_cnt : List ℕ → List ℕ → Outcome ℕ
unfolding path_parse depth_loop
path_depth_cnt pathname name = do
  r ← path_parse pathname name
  depth_loop (length pathname + 2) r.0 r.1 0
