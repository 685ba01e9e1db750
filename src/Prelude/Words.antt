-- ===== src/Prelude/Words.antt =====
-- Machine integers: the widths, and the casts between `u64` and `i64`.
use Prim.Native.Nat.{ℕ, suc, ◌+◌, ◌-◌, ◌%◌, ◌≤◌, ◌<◌}
use mathlib.Core.Path.{◌≡◌}
use mathlib.Core.Bool.{Bool, true}
use native.Mathlib.Omega.{arith}
use pfe_development_of_a_mon.Prelude.Tests.{if◌then◌else◌, ltb, ◌==◌}

abbrev pub u32_mod : ℕ
u32_mod = 4294967296

abbrev pub i64_limit : ℕ
i64_limit = 9223372036854775808

abbrev pub u64_mod : ℕ
u64_mod = 18446744073709551616

-- `a += b` on a `u32`.
abbrev pub add_u32 : ℕ → ℕ → ℕ
add_u32 a b = (a + b) % u32_mod

-- `negsuc n` is -(n + 1).
pub data ℤ : Type 0 where
  pos : ℕ → ℤ
  negsuc : ℕ → ℤ

abbrev pub pos_part : ℤ → ℕ
pos_part (pos n) = n
pos_part (negsuc n) = 0

abbrev pub neg_part : ℤ → ℕ
neg_part (pos n) = 0
neg_part (negsuc n) = suc n

infix 50 ◌≤ℤ◌ ◌<ℤ◌
abbrev pub ◌≤ℤ◌ : ℤ → ℤ → Type 0
a ≤ℤ b = pos_part a + neg_part b ≤ pos_part b + neg_part a

abbrev pub ◌<ℤ◌ : ℤ → ℤ → Type 0
a <ℤ b = pos_part a + neg_part b < pos_part b + neg_part a

abbrev pub ltb_ℤ : ℤ → ℤ → Bool
ltb_ℤ a b = ltb (pos_part a + neg_part b) (pos_part b + neg_part a)

abbrev pub eqb_ℤ : ℤ → ℤ → Bool
eqb_ℤ a b = (pos_part a + neg_part b) == (pos_part b + neg_part a)

-- `a + 1` on an `i64` that has room.
abbrev pub suc_ℤ : ℤ → ℤ
suc_ℤ (pos n) = pos (n + 1)
suc_ℤ (negsuc n) = if n == 0 then pos 0 else negsuc (n - 1)

-- `n as i64` for a `u64`, and `z as u64` for an `i64`.
abbrev pub as_i64 : ℕ → ℤ
as_i64 n = if ltb n i64_limit then pos n else negsuc (u64_mod - n - 1)

abbrev pub as_u64 : ℤ → ℕ
as_u64 (pos n) = n
as_u64 (negsuc n) = u64_mod - n - 1

pub as_u64-as_i64 : (n : ℕ) → n < u64_mod → as_u64 (as_i64 n) ≡ n
as_u64-as_i64 n h = ground arith

pub as_i64_small : (n : ℕ) → n < i64_limit → as_i64 n ≡ pos n
as_i64_small n h = ground arith

pub eqb_ℤ→eq : (a b : ℤ) → eqb_ℤ a b ≡ true → a ≡ b
eqb_ℤ→eq a b h = ground arith

pub eqb_ℤ_refl : (a : ℤ) → eqb_ℤ a a ≡ true
eqb_ℤ_refl a = ground arith
