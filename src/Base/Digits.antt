-- ===== src/Base/Digits.antt =====
-- Rust's `str::parse` for an unsigned integer below a limit, and that it reads back what `format!`
-- wrote.
pub mod Decimal
use Prim.Native.Char.{code}
use app_salmon.Base.Tests.{ltb, leb, ◌==◌, if◌then◌else◌}
use Prim.Native.Nat.{ℕ, ◌+◌, ◌*◌, ◌-◌}
use Prim.Native.String.{String}
use mathlib.Core.Bool.{Bool, ◌&&◌}
use mathlib.Core.Option.{Option, none, some}

-- Decimal digits only, and an error as soon as the number reaches the limit.
unfoldable pub read_digits : (limit : ℕ) (value : ℕ) → String → Option ℕ
read_digits limit value String.[] = some value
read_digits limit value (String.◌∷◌ c s) =
    let value' = 10 * value + (code c - 48) in
    let rest = read_digits limit value' s in
    if leb b'0' (code c) && leb (code c) b'9' && ltb value' limit then rest else none

abbrev at_least_one : ℕ → String → Option ℕ
at_least_one limit String.[] = none
at_least_one limit (String.◌∷◌ c s) = read_digits limit 0 (String.◌∷◌ c s)

-- At least one digit, which a plus sign may precede.
unfoldable pub parse_below : (limit : ℕ) → String → Option ℕ
unfolding read_digits
parse_below limit String.[] = none
parse_below limit (String.◌∷◌ c s) =
    if code c == b'+' then at_least_one limit s else read_digits limit 0 (String.◌∷◌ c s)
