-- ===== src/Base/Int.antt =====
-- Signed results of C code: `negsuc n` is -(n + 1).
use Prim.Native.Nat.{ℕ, ◌-◌}
use kernel_travel.Base.Tests.{leb, if◌then◌else◌}

pub data ℤ : Type 0 where
  pos : ℕ → ℤ
  negsuc : ℕ → ℤ

-- a - b, as an integer.
abbrev pub sub_ℕ : ℕ → ℕ → ℤ
sub_ℕ a b = if leb b a then pos (a - b) else negsuc (b - a - 1)
