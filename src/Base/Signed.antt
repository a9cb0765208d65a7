-- ===== src/Base/Signed.antt =====
-- Go's 64-bit `int`: the library's ℤ over the native numbers, with the range that an `int` has.
use Prim.Native.Nat.{ℕ, ◌-◌, ◌^◌, ◌<◌}
use tongsuo_go.Base.Tests.{leb, ltb, if◌then◌else◌}

-- `negsuc n` is -(n + 1).
pub data ℤ : Type 0 where
  pos : ℕ → ℤ
  negsuc : ℕ → ℤ

-- a - b, as an integer.
abbrev pub sub_ℕ : ℕ → ℕ → ℤ
sub_ℕ a b = if leb b a then pos (a - b) else negsuc (b - a - 1)

-- -2^63 ≤ v < 2^63
abbrev pub IsInt64 : ℤ → Type 0
IsInt64 (pos n) = n < 2 ^ 63
IsInt64 (negsuc n) = n < 2 ^ 63

-- `int64(u)` of a `uint64`.
abbrev pub int64 : ℕ → ℤ
int64 u = if ltb u (2 ^ 63) then pos u else negsuc (2 ^ 64 - 1 - u)
