-- ===== src/Base/Paths.antt =====
-- `PathBuf::join` on Unix, with a path as its text, and the decimal form of a number.
use Prim.Native.Nat.{ℕ, zero, suc, ◌-◌, ◌/◌, ◌%◌}
use Prim.Native.String.{String, len, slice, ◌++◌}
use text.Mathlib.Text.{starts_with}
use mathlib.Core.Bool.{Bool, ◌||◌}
use app_salmon.Base.Tests.{ltb, text_eq, if◌then◌else◌}

abbrev ends_with_slash : String → Bool
ends_with_slash s = text_eq (slice s (len s - 1) (len s)) "/"

-- An absolute path replaces the one before it; a separator is put where none is.
abbrev pub join : String → String → String
join base path =
    if starts_with path "/"
    then path
    else if text_eq base "" || ends_with_slash base
    then base ++ path
    else base ++ ("/" ++ path)

abbrev pub digit : ℕ → String
digit n = slice "0123456789" n (suc n)

-- A number has fewer digits than the fuel, which is the number's successor.
abbrev pub decimal_upto : ℕ → ℕ → String
decimal_upto zero n = ""
decimal_upto (suc fuel) n =
    let front = decimal_upto fuel (n / 10) in if ltb n 10 then digit n else front ++ digit (n % 10)

-- `format!("{n}")`.
abbrev pub decimal : ℕ → String
decimal n = decimal_upto (suc n) n
