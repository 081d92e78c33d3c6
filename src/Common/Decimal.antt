-- ===== src/Common/Decimal.antt =====
-- The decimal form that `format!` gives an unsigned number.
use Prim.Native.Nat.{ℕ, zero, suc, ◌+◌, ◌/◌, ◌%◌}
use mathlib.Core.Path.{◌≡◌, refl}
use mathlib.Core.List.{[], ◌∷◌, ◌++◌}
use iroh_proxy.Common.Tests.{ltb, if◌then◌else◌}
use iroh_proxy.Common.Text.{Text, text}

-- A number has fewer digits than its value plus one, so the fuel of `decimal` is enough.
unfoldable pub decimal_from : ℕ → ℕ → Text
decimal_from zero n = []
decimal_from (suc fuel) n =
    let rest = decimal_from fuel (n / 10) in
    let last = (b'0' + n % 10) ∷ [] in if ltb n 10 then last else rest ++ last

unfoldable pub decimal : ℕ → Text
unfolding decimal_from
decimal n = decimal_from (suc n) n

decimal_tests : (decimal 0 ≡ text "0") × (decimal 11434 ≡ text "11434")
unfolding decimal
decimal_tests = (refl, refl)
