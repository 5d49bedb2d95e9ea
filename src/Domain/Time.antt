-- ===== src/Domain/Time.antt =====
-- The values of `chrono` that the program computes with. A `DateTime<Utc>` is the signed number of
-- nanoseconds since the Unix epoch and a `TimeDelta` a signed number of nanoseconds; the panics of
-- chrono at the ends of its range (some 262,000 years) are left out.
use app_salmon.Base.{
  ℕ, ◌+◌, ◌*◌, ◌/◌, zero, suc, ◌≡◌, ◌&&◌, Option, none, some, if◌then◌else◌, arith,
}
use app_salmon.Base.Int.{ℤ, pos, negsuc, leb_ℤ}

abbrev pub DateTime : Type 0
DateTime = ℤ

abbrev pub TimeDelta : Type 0
TimeDelta = ℤ

abbrev pub nanos_per_sec : ℕ
nanos_per_sec = 1000000000

-- The integer -n.
abbrev pub minus : ℕ → ℤ
minus zero = pos 0
minus (suc n) = negsuc n

-- `TimeDelta::seconds`.
abbrev pub seconds : ℤ → TimeDelta
seconds (pos n) = pos (n * nanos_per_sec)
seconds (negsuc n) = negsuc (n * nanos_per_sec + 999999999)

-- `TimeDelta::num_seconds`, which rounds towards zero.
abbrev pub num_seconds : TimeDelta → ℤ
num_seconds (pos n) = pos (n / nanos_per_sec)
num_seconds (negsuc n) = minus (suc n / nanos_per_sec)

pub num_seconds-seconds : (s : ℤ) → num_seconds (seconds s) ≡ s
num_seconds-seconds (pos n) = ground arith
num_seconds-seconds (negsuc n) = ground arith

-- `TimeDelta::try_seconds`: a `TimeDelta` is kept in milliseconds, within an `i64`.
abbrev pub try_seconds : ℤ → Option TimeDelta
try_seconds s =
    if leb_ℤ (minus 9223372036854775) s && leb_ℤ s (pos 9223372036854775)
    then some (seconds s)
    else none
