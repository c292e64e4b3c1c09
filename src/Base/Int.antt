-- ===== src/Base/Int.antt =====
-- Integers, and the conversions of C between the words of 32 and 64 bits and them.
use Prim.Native.Nat.{ℕ, zero, suc, ◌+◌, ◌-◌, ◌%◌, ◌^◌, ◌<◌}
use mathlib.Core.Bool.{Bool, true, false}
use mathlib.Core.Path.{◌≡◌, refl, ap}
use mathlib.Core.Logic.{◌≢◌}
use native.Mathlib.Omega.{arith}
use lau_sim.Base.Tests.{ltb, ◌==◌, if◌then◌else◌}

-- `negsuc n` is -(n + 1).
pub data ℤ : Type 0 where
  pos : ℕ → ℤ
  negsuc : ℕ → ℤ

abbrev pub u32 : ℕ → ℕ
u32 n = n % 2 ^ 32

abbrev pub u64 : ℕ → ℕ
u64 n = n % 2 ^ 64

abbrev is_zero : ℤ → Bool
is_zero (pos zero) = true
is_zero (pos (suc n)) = false
is_zero (negsuc n) = false

-- The `int` with the same bits as an `unsigned`.
unfoldable pub int32 : ℕ → ℤ
int32 n = let w = u32 n in if ltb w (2 ^ 31) then pos w else negsuc (2 ^ 32 - 1 - w)

-- The `long` with the same bits as a `size_t`.
unfoldable pub int64 : ℕ → ℤ
int64 n = let w = u64 n in if ltb w (2 ^ 63) then pos w else negsuc (2 ^ 64 - 1 - w)

abbrev pub is_negative : ℤ → Bool
is_negative (pos n) = false
is_negative (negsuc n) = true

infix 50 ◌==ℤ◌
abbrev pub ◌==ℤ◌ : ℤ → ℤ → Bool
pos a ==ℤ pos b = a == b
negsuc a ==ℤ negsuc b = a == b
pos a ==ℤ negsuc b = false
negsuc a ==ℤ pos b = false

abbrev pub nat_part : ℤ → ℕ
nat_part (pos n) = n
nat_part (negsuc n) = 0

-- A `long` stored in an `int`.
unfoldable pub to_int : ℤ → ℤ
unfolding int32
to_int (pos n) = int32 n
to_int (negsuc n) = int32 (2 ^ 64 - (n + 1))

-- A number of 64 bits is not changed.
pub u64_lem : (n : ℕ) → n < 2 ^ 64 → u64 n ≡ n
u64_lem n h = omega arith

pub ==ℤ→eq : (a b : ℤ) → (a ==ℤ b) ≡ true → a ≡ b
==ℤ→eq (pos a) (pos b) h = ground arith
==ℤ→eq (pos a) (negsuc b) h = cc
==ℤ→eq (negsuc a) (pos b) h = cc
==ℤ→eq (negsuc a) (negsuc b) h = ground arith

pub ==ℤ-refl : (a : ℤ) → (a ==ℤ a) ≡ true
==ℤ-refl (pos a) = ground arith
==ℤ-refl (negsuc a) = ground arith

pub ==ℤ_comm : (a b : ℤ) → (a ==ℤ b) ≡ (b ==ℤ a)
==ℤ_comm (pos a) (pos b) = ground arith
==ℤ_comm (pos a) (negsuc b) = refl
==ℤ_comm (negsuc a) (pos b) = refl
==ℤ_comm (negsuc a) (negsuc b) = ground arith

pub pos-suc-ne : (n : ℕ) → pos (suc n) ≢ pos 0
pos-suc-ne n e = cc (ap is_zero e)

pub negsuc-ne : (n : ℕ) → negsuc n ≢ pos 0
negsuc-ne n e = cc
