-- ===== src/Prelude/Word.antt =====
-- int64 as its bit pattern below 2 ^ 64: addition and subtraction wrap, the order is signed.
use proxy_scope.Prelude.Tests.{ltb}
use Prim.Native.Nat.{ℕ, ◌+◌, ◌-◌, ◌%◌, ◌^◌, ◌≤◌, ◌<◌}
use mathlib.Core.Path.{◌≡◌}
use mathlib.Core.Bool.{Bool}
use native.Mathlib.Omega.{arith}

-- Patterns below this limit stand for themselves.
abbrev pub int64_limit : ℕ
int64_limit = 2 ^ 63

unfoldable pub add64 : ℕ → ℕ → ℕ
add64 a b = (a + b) % 2 ^ 64

unfoldable pub sub64 : ℕ → ℕ → ℕ
sub64 a b = (a + 2 ^ 64 - b) % 2 ^ 64

-- Adding 2 ^ 63 turns the signed order into the order of the patterns.
abbrev pub rank64 : ℕ → ℕ
rank64 a = (a + 2 ^ 63) % 2 ^ 64

unfoldable pub lt64 : ℕ → ℕ → Bool
lt64 a b = ltb (rank64 a) (rank64 b)

pub add64_small : (a b : ℕ) → a + b < int64_limit → add64 a b ≡ a + b
unfolding add64
add64_small a b h = omega arith

pub sub64_small : (a b : ℕ) → b ≤ a → a < int64_limit → sub64 a b ≡ a - b
unfolding sub64
sub64_small a b h k = omega arith

pub lt64_small : (a b : ℕ) → a < int64_limit → b < int64_limit → lt64 a b ≡ ltb a b
unfolding lt64
lt64_small a b h k = ground arith
