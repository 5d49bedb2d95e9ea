-- ===== src/Auth/Hashing/Hex.antt =====
-- src/auth/hashing.rs: a hash that the configuration writes in hexadecimal is read back.
use Prim.Native.String
use app_salmon.Base.{
  Bool-cases, inl, inr, ℕ, zero, suc, ◌+◌, ◌*◌, ◌/◌, ◌%◌, ◌<◌, ◌≡◌, refl, ap, String, Bool, true,
  false, some, List, [], ◌∷◌, length, ltb, ◌==◌, ==_iff, if◌then◌else◌, All, arith,
}
use app_salmon.Base.Texts.{as_bytes, as_bytes-append, strip_prefix-append}
use app_salmon.Auth.Hashing.{hex_value, pair_value, pair_values, collected, from_hex_with_prefix}

-- The hexadecimal digit of a number below 16.
abbrev digit : ℕ → String
digit n = String.slice "0123456789abcdef" n (suc n)

-- Two lowercase digits for each byte.
abbrev pub hex_text : List ℕ → String
hex_text [] = ""
hex_text (b ∷ bs) = String.◌++◌ (digit (b / 16)) (String.◌++◌ (digit (b % 16)) (hex_text bs))

abbrev digit_byte : ℕ → ℕ
digit_byte n = if ltb n 10 then n + 48 else n + 87

abbrev is_single : List ℕ → ℕ → Bool
is_single (b ∷ []) c = b == c
is_single _ c = false

single_of : (l : List ℕ) (c : ℕ) → is_single l c ≡ true → l ≡ c ∷ []
single_of [] c h = cc
single_of (b ∷ []) c h = ap (λ (x : ℕ). x ∷ []) ((==_iff b c).0 h)
single_of (b ∷ b' ∷ l) c h = cc

shows : ℕ → Bool
shows n = is_single (as_bytes (digit n)) (digit_byte n)

-- Whether every number below the bound shows as its digit.
show_below : ℕ → Bool
unfolding shows
show_below zero = true
show_below (suc k) = let lower = show_below k in if shows k then lower else false

shows_of_show_below : (k n : ℕ) → show_below k ≡ true → n < k → shows n ≡ true
unfolding show_below
shows_of_show_below zero n h lt = absurd (omega arith)
shows_of_show_below (suc k) n h lt = elim (Bool-cases (n == k)) [
  | inl last ↦ let same : n ≡ k = (==_iff n k).0 last in rw same (ground arith)
  | inr lower ↦ shows_of_show_below k n (ground arith) (ground arith)
]

sixteen_show : show_below 16 ≡ true
unfolding show_below as_bytes
sixteen_show = refl

as_bytes-digit : (n : ℕ) → n < 16 → as_bytes (digit n) ≡ digit_byte n ∷ []
unfolding shows
as_bytes-digit n h =
    single_of (as_bytes (digit n)) (digit_byte n) (shows_of_show_below 16 n sixteen_show h)

as_bytes-hex_text :
    (b : ℕ) (bs : List ℕ)
    → b < 256
    → as_bytes (hex_text (b ∷ bs))
      ≡ digit_byte (b / 16) ∷ digit_byte (b % 16) ∷ as_bytes (hex_text bs)
as_bytes-hex_text b bs h =
    rw
      (
        as_bytes-append (digit (b / 16)) (String.◌++◌ (digit (b % 16)) (hex_text bs)),
        as_bytes-append (digit (b % 16)) (hex_text bs),
        as_bytes-digit (b / 16) (omega arith),
        as_bytes-digit (b % 16) (omega arith),
      )
      refl

hex_value-digit : (n : ℕ) → n < 16 → hex_value (digit_byte n) ≡ some n
unfolding hex_value
hex_value-digit n h = ground arith

pair_value-digits :
    (b : ℕ) → b < 256 → pair_value (digit_byte (b / 16)) (digit_byte (b % 16)) ≡ some b
unfolding pair_value
pair_value-digits b h =
    ground (arith, hex_value-digit (b / 16) (omega arith), hex_value-digit (b % 16) (omega arith))

abbrev pub AreBytes : List ℕ → Type 0
AreBytes = All (λ b. b < 256)

pair_values-hex_text : (bs : List ℕ) → AreBytes bs → pair_values (as_bytes (hex_text bs)) ≡ some bs
unfolding pair_values as_bytes
pair_values-hex_text [] h = refl
pair_values-hex_text (b ∷ bs) h =
    rw (as_bytes-hex_text b bs h.0, pair_value-digits b h.0, pair_values-hex_text bs h.1) refl

length-hex_text : (bs : List ℕ) → AreBytes bs → length (as_bytes (hex_text bs)) ≡ 2 * length bs
unfolding as_bytes
length-hex_text [] h = omega arith
length-hex_text (b ∷ bs) h =
    let ih = length-hex_text bs h.1 in rw (as_bytes-hex_text b bs h.0) (omega arith)

-- Thirty-two bytes written as `sha256:` and two lowercase hexadecimal digits each are read back.
pub from_hex_with_prefix-hex_text :
    (bs : List ℕ)
    → AreBytes bs
    → length bs ≡ 32
    → from_hex_with_prefix (String.◌++◌ "sha256:" (hex_text bs)) ≡ some (record { bytes = bs })
unfolding from_hex_with_prefix collected
from_hex_with_prefix-hex_text bs h n =
    let full : length (as_bytes (hex_text bs)) ≡ 64 = omega (arith, length-hex_text bs h) in
    rw (strip_prefix-append "sha256:" (hex_text bs), full, pair_values-hex_text bs h, n) refl
