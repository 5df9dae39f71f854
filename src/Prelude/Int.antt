-- ===== src/Prelude/Int.antt =====
-- Signed integers over the native numbers: `negsuc n` is -(n + 1).
use Prim.Native.Nat.{ℕ, ◌-◌, ◌%◌, ◌^◌, zero, suc}
use mathlib.Core.Bool.{Bool, true, false}
use package.rp2040_wiznet_eaa_s_aws.Prelude.Tests.{ltb, ◌==◌}

pub data ℤ : Type 0 where
  pos : ℕ → ℤ
  negsuc : ℕ → ℤ

abbrev pub negate : ℕ → ℤ
negate zero = pos 0
negate (suc n) = negsuc n

-- `a < n` for a number that is not negative.
abbrev pub lt_nat : ℤ → ℕ → Bool
lt_nat (pos a) n = ltb a n
lt_nat (negsuc a) n = true

-- The cast to `uint32_t`.
abbrev pub to_u32 : ℤ → ℕ
to_u32 (pos a) = a % 2 ^ 32
to_u32 (negsuc a) = (2 ^ 32 - suc (a % 2 ^ 32)) % 2 ^ 32

abbrev pub is_zero : ℤ → Bool
is_zero (pos zero) = true
is_zero (pos (suc a)) = false
is_zero (negsuc a) = false

-- Whether a number is -(n + 1).
abbrev pub is_negsuc : ℤ → ℕ → Bool
is_negsuc (pos a) n = false
is_negsuc (negsuc a) n = a == n
