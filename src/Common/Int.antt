-- ===== src/Common/Int.antt =====
-- Signed integers over the native numbers. `negsuc n` is -(n + 1).
use Prim.Native.Nat.{ℕ, suc, ◌+◌, ◌-◌, ◌^◌, ◌%◌, ◌<◌}
use mathlib.Core.Path.{◌≡◌}
use native.Mathlib.Omega.{arith}
use replay_kit.Common.Tests.{leb, ltb, if◌then◌else◌}

pub data ℤ : Type 0 where
  pos : ℕ → ℤ
  negsuc : ℕ → ℤ

abbrev pub pos_part : ℤ → ℕ
pos_part (pos n) = n
pos_part (negsuc n) = 0

abbrev pub neg_part : ℤ → ℕ
neg_part (pos n) = 0
neg_part (negsuc n) = suc n

-- a - b, as an integer.
unfoldable pub sub_ℕ : ℕ → ℕ → ℤ
sub_ℕ a b = if leb b a then pos (a - b) else negsuc (b - a - 1)

-- The bit pattern of an `i64`, as the number that two's complement reads it as.
unfoldable pub of_bits64 : ℕ → ℤ
of_bits64 n = if ltb n (2 ^ 63) then pos n else negsuc (2 ^ 64 - n - 1)

-- `n as i64`, for an `n` of type `u64` or `usize`.
unfoldable pub as_i64 : ℕ → ℤ
unfolding of_bits64
as_i64 n = of_bits64 (n % 2 ^ 64)

-- `t as i64 - s as i64`, in an `i64` that wraps round.
unfoldable pub sub_as_i64 : ℕ → ℕ → ℤ
unfolding of_bits64
sub_as_i64 t s = of_bits64 ((t % 2 ^ 64 + 2 ^ 64 - s % 2 ^ 64) % 2 ^ 64)

-- Below 2⁶³ nothing wraps: the difference is the difference of the numbers.
pub sub_as_i64-sub_ℕ : (t s : ℕ) → t < 2 ^ 63 → s < 2 ^ 63 → sub_as_i64 t s ≡ sub_ℕ t s
unfolding sub_as_i64 sub_ℕ
sub_as_i64-sub_ℕ t s p q = ground arith
