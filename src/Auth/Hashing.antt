-- ===== src/Auth/Hashing.antt =====
-- src/auth/hashing.rs. SHA-256 is the `sha2` crate and the comparison in constant time the `subtle`
-- crate: parameters, of which the code relies on a digest of 32 bytes and on a test of equality.
pub mod Hex
use app_salmon.Base.{
  ℕ, zero, suc, ◌+◌, ◌-◌, ◌*◌, ◌<◌, ◌≡◌, ◌↔◌, String, Bool, true, false, ◌&&◌, Option, none, some,
  List, [], ◌∷◌, length, not, ltb, leb, ◌==◌, if◌then◌else◌, All,
}
use app_salmon.Base.Texts.{strip_prefix, as_bytes}
use app_salmon.Base.Options.{◌>>=◌}

pub record SecretHash : Type 0 where
  pub bytes : List ℕ  -- [u8; 32]

pub record Hasher : Type 0 where
  pub sha256 : List ℕ → List ℕ
  pub ct_eq : List ℕ → List ℕ → Bool

pub record IsHasher (h : Hasher) : Type 0 where
  pub length-sha256 : (message : List ℕ) → length (h.sha256 message) ≡ 32
  pub ct_eq_iff : (a b : List ℕ) → (h.ct_eq a b ≡ true) ↔ (a ≡ b)

module _ (hasher : Hasher) where
  unfoldable pub of : String → SecretHash
  of secret = record { bytes = hasher.sha256 (as_bytes secret) }

  unfoldable pub matches : SecretHash → String → Bool
  unfolding of
  matches self candidate = hasher.ct_eq self.bytes (of candidate).bytes

-- `char::to_digit(16)` on a byte.
hex_value : ℕ → Option ℕ
hex_value b =
    if leb b'0' b && leb b b'9'
    then some (b - 48)
    else if leb b'a' b && leb b b'f'
    then some (b - 87)
    else if leb b'A' b && leb b b'F'
    then some (b - 55)
    else none

-- `u8::from_str_radix(…, 16)` on one or two bytes, of which the first may be a plus sign. A byte from
-- 128 on is no digit, so that a pair which is not UTF-8 is refused here too.
pair_value : ℕ → ℕ → Option ℕ
unfolding hex_value
pair_value high low =
    if high == b'+'
    then hex_value low
    else do h ← hex_value high; l ← hex_value low; some (16 * h + l)

-- `.chunks(2).map(…).collect::<Option<Vec<u8>>>()`. A single byte that is left over is a chunk too.
pub pair_values : List ℕ → Option (List ℕ)
unfolding hex_value pair_value
pair_values [] = some []
pair_values (last ∷ []) = do value ← hex_value last; some (value ∷ [])
pair_values (high ∷ low ∷ rest) = do
  value ← pair_value high low
  values ← pair_values rest
  some (value ∷ values)

-- `parsed.try_into()` is a test of the length.
collected : List ℕ → Option SecretHash
unfolding pair_values
collected hex = do
  parsed ← pair_values hex
  if length parsed == 32 then some (record { bytes = parsed }) else none

unfoldable pub from_hex_with_prefix : String → Option SecretHash
unfolding strip_prefix as_bytes collected
from_hex_with_prefix encoded = do
  hex ← strip_prefix encoded "sha256:"
  if not (length (as_bytes hex) == 64) then none else collected (as_bytes hex)
