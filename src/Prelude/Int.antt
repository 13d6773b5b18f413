-- ===== src/Prelude/Int.antt =====
-- Integers over the native numbers, and the cast `as i64`.
use Prim.Native.Nat.{ℕ, ◌-◌, ◌%◌, ◌^◌, ◌<◌}
use lxmf_react_native_rust.Prelude.{◌≡◌, arith, ltb, if◌then◌else◌}

-- `negsuc n` is -(n + 1)
pub data ℤ : Type 0 where
  pos : ℕ → ℤ
  negsuc : ℕ → ℤ

-- The 64 bits, read as two's complement.
unfoldable pub as_i64 : ℕ → ℤ
as_i64 n =
    let bits = n % 2 ^ 64 in if ltb bits (2 ^ 63) then pos bits else negsuc ((2 ^ 64 - bits) - 1)

pub as_i64-pos : (n : ℕ) → n < 2 ^ 63 → as_i64 n ≡ pos n
unfolding as_i64
as_i64-pos n h = ground arith
