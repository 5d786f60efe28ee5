-- ===== src/Prelude/Decimal.antt =====
-- Numbers in decimal notation.
use Prim.Native.Nat.{ℕ, zero, suc, ◌+◌, ◌/◌, ◌%◌}
use mathlib.Core.List.{[], ◌∷◌, ◌++◌}
use proxy_scope.Prelude.Tests.{ltb, if◌then◌else◌}
use proxy_scope.Prelude.Text.{Bytes}

-- fmt.Sprintf("%d", n) for a number of at most `fuel` digits.
abbrev pub decimal_digits : ℕ → ℕ → Bytes
decimal_digits zero n = []
decimal_digits (suc fuel) n =
    let rest = decimal_digits fuel (n / 10) in
    if ltb n 10 then (48 + n) ∷ [] else rest ++ (48 + n % 10) ∷ []
