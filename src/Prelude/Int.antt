-- ===== src/Prelude/Int.antt =====
-- Integers: a difference of block numbers may be negative. `negsuc n` is -(n + 1).
use Prim.Native.Nat.{ℕ, ◌-◌, ◌<◌, ◌+◌}
use mathlib.Core.Bool.{Bool, true}
use mathlib.Core.Path.{◌≡◌}
use mathlib.Core.Logic.{◌↔◌}
use native.Mathlib.Omega.{arith}
use atomicassets_api.Prelude.Tests.{ltb, leb, if◌then◌else◌}

pub data ℤ : Type 0 where
  pos : ℕ → ℤ
  negsuc : ℕ → ℤ

-- a - b, as an integer.
abbrev pub sub_ℕ : ℕ → ℕ → ℤ
sub_ℕ a b = if leb b a then pos (a - b) else negsuc (b - a - 1)

-- `z < n`
abbrev pub lt_nat : ℤ → ℕ → Bool
lt_nat (pos a) n = ltb a n
lt_nat (negsuc a) n = true

-- A difference lies below a distance exactly when the subtrahend comes within that distance.
pub lt_nat-sub_ℕ : (a b n : ℕ) → 0 < n → (lt_nat (sub_ℕ a b) n ≡ true) ↔ (a < b + n)
lt_nat-sub_ℕ a b n h = ground arith
