-- ===== src/Strings/Insert.antt =====
-- lib/string.c: insertion in front of a string, and widening of a string with a limit.
use kernel_travel.Base.{
  ℕ, zero, suc, ◌+◌, List, ◌==◌, if◌then◌else◌, get_elem?, set, Outcome, ok, ◌>>=◌, present,
}
use kernel_travel.Strings.{strlen, wstrlen, widen}

-- The loop that moves the units at the indices below `n` up by `len`, the last first.
unfoldable pub shift_loop : List ℕ → ℕ → ℕ → Outcome (List ℕ)
shift_loop buf len zero = ok buf
shift_loop buf len (suc i) = do
  c ← present (get_elem? buf i)
  _ ← present (get_elem? buf (i + len))
  shift_loop (set buf (i + len) c) len i

-- The loop that copies the `n` units from index `i` on.
unfoldable pub fill_loop : List ℕ → List ℕ → ℕ → ℕ → Outcome (List ℕ)
fill_loop buf str i zero = ok buf
fill_loop buf str i (suc n) = do
  c ← present (get_elem? str i)
  _ ← present (get_elem? buf i)
  fill_loop (set buf i c) str (i + 1) n

unfoldable pub wstrnins : List ℕ → List ℕ → ℕ → Outcome (List ℕ)
unfolding shift_loop fill_loop wstrlen
wstrnins buf str len = do
  lbuf ← wstrlen buf
  moved ← shift_loop buf len (lbuf + 1)
  fill_loop moved str 0 len

unfoldable pub strins : List ℕ → List ℕ → Outcome (List ℕ)
unfolding shift_loop fill_loop strlen
strins buf str = do
  lbuf ← strlen buf
  len ← strlen str
  moved ← shift_loop buf len (lbuf + 1)
  fill_loop moved str 0 len

-- The loop of strn2wstr with `left` units left below the limit. The unit at the limit is read too.
unfoldable pub limit_loop : List ℕ → List ℕ → ℕ → ℕ → Outcome (List ℕ × ℕ)
limit_loop dst src i zero = do _ ← present (get_elem? src i); ok (dst, i)
limit_loop dst src i (suc left) = do
  c ← present (get_elem? src i)
  _ ← present (get_elem? dst i)
  (if c == 0 then ok (set dst i 0, i) else limit_loop (set dst i (widen c)) src (i + 1) left)

unfoldable pub strn2wstr : List ℕ → List ℕ → ℕ → Outcome (List ℕ × ℕ)
unfolding limit_loop
strn2wstr dst src n = limit_loop dst src 0 n
