-- ===== src/Prelude/Int.antt =====
-- Signed integers, over the native numbers.
use Prim.Native.Nat.{ℕ, zero, suc, ◌+◌, ◌-◌, ◌%◌, ◌<◌}
use mathlib.Core.Path.{◌≡◌}
use native.Mathlib.Omega.{arith}
use mathlib.Core.Bool.{Bool, false}
use doka_one.Prelude.Tests.{◌==◌, ltb, if◌then◌else◌}

-- `negsuc n` is -(n + 1).
pub data ℤ : Type 0 where
  pos : ℕ → ℤ
  negsuc : ℕ → ℤ

abbrev pub increment : ℤ → ℤ
increment (pos n) = pos (suc n)
increment (negsuc zero) = pos zero
increment (negsuc (suc n)) = negsuc n

abbrev pub decrement : ℤ → ℤ
decrement (pos zero) = negsuc zero
decrement (pos (suc n)) = pos n
decrement (negsuc n) = negsuc (suc n)

infix 50 ◌==ℤ◌
abbrev pub ◌==ℤ◌ : ℤ → ℤ → Bool
pos m ==ℤ pos n = m == n
negsuc m ==ℤ negsuc n = m == n
_ ==ℤ _ = false

abbrev pub u32_mod : ℕ
u32_mod = 4294967296

-- The casts `n as i32` of a `u32` and `i as u32` of an `i32`.
unfoldable pub as_i32 : ℕ → ℤ
as_i32 n = if ltb n 2147483648 then pos n else negsuc (4294967295 - n)

unfoldable pub as_u32 : ℤ → ℕ
as_u32 (pos n) = n % u32_mod
as_u32 (negsuc n) = 4294967295 - n

pub as_u32-as_i32 : (n : ℕ) → n < u32_mod → as_u32 (as_i32 n) ≡ n
unfolding as_u32 as_i32
as_u32-as_i32 n h = ground arith

-- The place of an `i32` in the order of all.
unfoldable pub i32_rank : ℤ → ℕ
i32_rank (pos n) = 2147483648 + n
i32_rank (negsuc n) = 2147483647 - n

pub i32_rank-as_i32 : (n : ℕ) → n < 2147483648 → i32_rank (as_i32 n) ≡ 2147483648 + n
unfolding i32_rank as_i32
i32_rank-as_i32 n h = ground arith
