-- ===== src/Base/Decimals.antt =====
-- Numbers in decimal, as `%d` of the package `fmt` prints them.
use Prim.Native.Nat.{ℕ, zero, suc, ◌+◌, ◌/◌, ◌%◌}
use mathlib.Core.List.{[], ◌∷◌}
use selenoid.Base.Tests.{ltb, if◌then◌else◌}
use selenoid.Base.Texts.{Text}

-- The digits of `n` in front of `rest`; a number is below its successor, which is fuel enough.
decimal_from : ℕ → ℕ → Text → Text
decimal_from zero n rest = rest
decimal_from (suc fuel) n rest =
    let shown = (n % 10 + 48) ∷ rest in
    let more = decimal_from fuel (n / 10) shown in if ltb n 10 then shown else more

unfoldable pub decimal : ℕ → Text
unfolding decimal_from
decimal n = decimal_from (suc n) n []
