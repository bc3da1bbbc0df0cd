-- ===== src/Util/Int.antt =====
-- C's `int` results that may be negative: integers over the native numbers.
use Prim.Native.Nat.{ℕ, ◌-◌}
use os.Util.Tests.{leb, if◌then◌else◌}

-- `negsuc n` is -(n + 1).
pub data ℤ : Type 0 where
  pos : ℕ → ℤ
  negsuc : ℕ → ℤ

-- a - b, as an integer.
abbrev pub sub_ℕ : ℕ → ℕ → ℤ
sub_ℕ a b = if leb b a then pos (a - b) else negsuc (b - a - 1)
