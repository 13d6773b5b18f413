-- ===== src/Prelude/Bits.antt =====
-- Masks on a byte as arithmetic: each is a table of at most 256 entries, checked by evaluation.
use Prim.Native.Nat.{bit_and, bit_or}
use native.Mathlib.Decide.{ℕ_discrete}
use mathlib.Core.Logic.{ite}
use lxmf_react_native_rust.Prelude.{
  ℕ, zero, suc, ◌+◌, ◌*◌, ◌/◌, ◌%◌, ◌<◌, ◌≡◌, refl, Bool, true, false, arith,
}

module _ (f g : ℕ → ℕ) where
  same_below : ℕ → Bool
  unfolding ℕ_discrete
  same_below zero = true
  same_below (suc n) = ite (ℕ_discrete (f n) (g n)) (same_below n) false

  same_below→eq : (n : ℕ) → same_below n ≡ true → (i : ℕ) → i < n → f i ≡ g i
  unfolding same_below
  same_below→eq zero e i h = absurd (omega arith)
  same_below→eq (suc n) e i h = ground (arith, same_below→eq n (ground arith) i)

pub and_0x1f : (b : ℕ) → b < 256 → bit_and b 0x1f ≡ b % 32
unfolding same_below
and_0x1f = same_below→eq _ _ 256 refl

pub and_0x0f : (b : ℕ) → b < 256 → bit_and b 0x0f ≡ b % 16
unfolding same_below
and_0x0f = same_below→eq _ _ 256 refl

pub and_0xe0 : (b : ℕ) → b < 256 → bit_and b 0xe0 ≡ b / 32 * 32
unfolding same_below
and_0xe0 = same_below→eq _ _ 256 refl

pub and_0xf0 : (b : ℕ) → b < 256 → bit_and b 0xf0 ≡ b / 16 * 16
unfolding same_below
and_0xf0 = same_below→eq _ _ 256 refl

pub and_0x7f : (b : ℕ) → b < 256 → bit_and b 0x7f ≡ b % 128
unfolding same_below
and_0x7f = same_below→eq _ _ 256 refl

pub and_0x80 : (b : ℕ) → b < 256 → bit_and b 0x80 ≡ b / 128 * 128
unfolding same_below
and_0x80 = same_below→eq _ _ 256 refl

pub or_0xa0 : (b : ℕ) → b < 32 → bit_or 0xa0 b ≡ 0xa0 + b
unfolding same_below
or_0xa0 = same_below→eq _ _ 32 refl

pub or_0x90 : (b : ℕ) → b < 16 → bit_or 0x90 b ≡ 0x90 + b
unfolding same_below
or_0x90 = same_below→eq _ _ 16 refl

pub or_0x80 : (b : ℕ) → b < 128 → bit_or b 0x80 ≡ b + 128
unfolding same_below
or_0x80 = same_below→eq _ _ 128 refl
