-- ===== src/Prelude/Decimal.antt =====
-- strconv.Itoa: an integer as decimal digits. A number has fewer digits than its value plus one,
-- which is the fuel.
use cannectors.Prelude.Texts.{Text}
use cannectors.Prelude.Tests.{ltb, if◌then◌else◌}
use cannectors.Prelude.Int.{ℤ, pos, negsuc}
use Prim.Native.Nat.{ℕ, zero, suc, ◌+◌, ◌/◌, ◌%◌}
use mathlib.Core.List.{[], ◌∷◌}

digits_of : ℕ → ℕ → Text → Text
digits_of zero n acc = acc
digits_of (suc fuel) n acc =
    let rest = digits_of fuel (n / 10) ((48 + n % 10) ∷ acc) in
    if ltb n 10 then (48 + n) ∷ acc else rest

unfoldable pub itoa_ℕ : ℕ → Text
unfolding digits_of
itoa_ℕ n = digits_of (suc n) n []

unfoldable pub itoa : ℤ → Text
unfolding itoa_ℕ
itoa (pos n) = itoa_ℕ n
itoa (negsuc n) = b'-' ∷ itoa_ℕ (suc n)
