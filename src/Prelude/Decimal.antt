-- ===== src/Prelude/Decimal.antt =====
-- `strconv.FormatInt(n, 10)` and `strconv.Itoa`.
use Prim.Native.Nat.{ℕ, zero, suc, ◌+◌, ◌/◌, ◌%◌}
use mathlib.Core.List.{[], ◌∷◌}
use log_integrity.Prelude.Tests.{ltb, if◌then◌else◌}
use log_integrity.Prelude.Classes.{Text}
use log_integrity.Prelude.Int.{ℤ, pos, negsuc}

-- The digits of a number in front of a text, for a number of at most so many digits.
decimal : ℕ → ℕ → Text → Text
decimal zero n rest = rest
decimal (suc k) n rest =
    let more = decimal k (n / 10) ((48 + n % 10) ∷ rest) in
    if ltb n 10 then (48 + n) ∷ rest else more

-- An int64 has at most 19 digits.
unfoldable pub format_int : ℤ → Text
unfolding decimal
format_int (pos n) = decimal 20 n []
format_int (negsuc n) = 45 ∷ decimal 20 (suc n) []

unfoldable pub itoa : ℕ → Text
unfolding format_int
itoa n = format_int (pos n)
