-- ===== src/Base/Digits/Decimal.antt =====
-- The decimal form of a number: its digits, and that they are read back.
use Prim.Native.Char.{Char, code}
use Prim.Native.String
use text.Mathlib.TextLemmas.{nil-append, cons-append}
use app_salmon.Base.{
  Bool-cases, inl, inr, ℕ, zero, suc, ◌+◌, ◌*◌, ◌-◌, ◌/◌, ◌%◌, ◌<◌, ◌≡◌, ◌⊎◌, refl, sym, subst,
  String, Bool, true, false, ◌&&◌, some, ltb, leb, ◌==◌, ==_iff, if◌then◌else◌, arith,
}
use app_salmon.Base.Options.{◌>>=◌}
use app_salmon.Base.Paths.{decimal, decimal_upto, digit}
use app_salmon.Base.Texts.{Lacks, Lacks-append}
use app_salmon.Base.Digits.{read_digits, parse_below}

abbrev is_digit_of : String → ℕ → Bool
is_digit_of (String.◌∷◌ c String.[]) d = code c == 48 + d
is_digit_of _ d = false

abbrev IsOneChar : String → ℕ → Type 0
IsOneChar s n = (c : Char) × (s ≡ String.◌∷◌ c String.[]) × (code c ≡ n)

one_char : (s : String) (d : ℕ) → is_digit_of s d ≡ true → IsOneChar s (48 + d)
one_char String.[] d h = absurd (ground arith)
one_char (String.◌∷◌ c String.[]) d h = (c, refl, (==_iff (code c) (48 + d)).0 h)
one_char (String.◌∷◌ c (String.◌∷◌ c' s)) d h = absurd (ground arith)

-- The first digits, up to the number, are what they should be.
first_digits : ℕ → Bool
first_digits zero = true
first_digits (suc k) =
    let lower = first_digits k in if is_digit_of (digit k) k then lower else false

of_first_digits : (k d : ℕ) → first_digits k ≡ true → d < k → is_digit_of (digit d) d ≡ true
unfolding first_digits
of_first_digits zero d h lt = absurd (omega arith)
of_first_digits (suc k) d h lt = elim (Bool-cases (d == k)) [
  | inl last ↦ let same : d ≡ k = (==_iff d k).0 last in rw same (ground arith)
  | inr lower ↦ of_first_digits k d (ground arith) (ground arith)
]

ten_digits : first_digits 10 ≡ true
unfolding first_digits
ten_digits = refl

digit-IsOneChar : (d : ℕ) → d < 10 → IsOneChar (digit d) (48 + d)
digit-IsOneChar d h = one_char (digit d) d (of_first_digits 10 d ten_digits h)

abbrev passes : ℕ → ℕ → Char → Bool
passes limit value c =
    leb b'0' (code c) && leb (code c) b'9' && ltb (10 * value + (code c - 48)) limit

read_digits-digit :
    (limit value d n : ℕ)
    → d < 10
    → 10 * value + d ≡ n
    → n < limit
    → read_digits limit value (digit d) ≡ some n
unfolding read_digits
read_digits-digit limit value d n h sum lt =
    let (c, text, same) = digit-IsOneChar d h in
    let pass : passes limit value c ≡ true = ground arith in
    let value' : 10 * value + (code c - 48) ≡ n = omega arith in
    rw (text, read_digits, pass, value') refl

read_digits-append :
    (limit value : ℕ) (a b : String)
    → read_digits limit value (String.◌++◌ a b)
      ≡ (read_digits limit value a >>= λ v. read_digits limit v b)
unfolding read_digits
read_digits-append limit value String.[] b = rw (nil-append b) refl
read_digits-append limit value (String.◌∷◌ c a) b = elim (Bool-cases (passes limit value c)) [
  | inl h ↦
      rw (cons-append c a b, read_digits, h)
        (read_digits-append limit (10 * value + (code c - 48)) a b)
  | inr h ↦ rw (cons-append c a b, read_digits, h) refl
]

read_digits-decimal_upto :
    (fuel n limit : ℕ) → n < fuel → n < limit → read_digits limit 0 (decimal_upto fuel n) ≡ some n
read_digits-decimal_upto zero n limit h lt = absurd (omega arith)
read_digits-decimal_upto (suc fuel) n limit h lt = elim (Bool-cases (ltb n 10)) [
  | inl small ↦ rw (small) (read_digits-digit limit 0 n n (ground arith) (omega arith) lt)
  | inr large ↦
      rw
        (
          large,
          read_digits-append limit 0 (decimal_upto fuel (n / 10)) (digit (n % 10)),
          read_digits-decimal_upto fuel (n / 10) limit (ground arith) (ground arith),
        )
        (read_digits-digit limit (n / 10) (n % 10) n (omega arith) (omega arith) lt)
]

abbrev IsSome : String → Type 0
IsSome s = (c : Char) × (t : String) × (s ≡ String.◌∷◌ c t)

decimal_upto-IsSome : (fuel n : ℕ) → n < fuel → IsSome (decimal_upto fuel n)
decimal_upto-IsSome zero n h = absurd (omega arith)
decimal_upto-IsSome (suc fuel) n h = elim (Bool-cases (ltb n 10)) [
  | inl small ↦
      let (c, text, same) = digit-IsOneChar n (ground arith) in rw (small) (c, String.[], text)
  | inr large ↦
      let (c, t, text) = decimal_upto-IsSome fuel (n / 10) (ground arith) in
      rw (large) (c, String.◌++◌ t (digit (n % 10)), rw (text) (cons-append c t (digit (n % 10))))
]

parsed_text :
    (limit n : ℕ) (c : Char) (s : String)
    → read_digits limit 0 (String.◌∷◌ c s) ≡ some n
    → parse_below limit (String.◌∷◌ c s) ≡ some n
unfolding read_digits parse_below
parsed_text limit n c s h = elim (Bool-cases (code c == b'+')) [
  | inl plus ↦ ground arith
  | inr other ↦ rw (other) h
]

-- `format!("{n}").parse()`.
pub parse_below-decimal : (limit n : ℕ) → n < limit → parse_below limit (decimal n) ≡ some n
parse_below-decimal limit n h =
    let (c, t, text) = decimal_upto-IsSome (suc n) n (omega arith) in
    let read = read_digits-decimal_upto (suc n) n limit (omega arith) h in
    subst (λ s. parse_below limit s ≡ some n) (sym text)
      (parsed_text limit n c t (subst (λ s. read_digits limit 0 s ≡ some n) text read))

Lacks-digit :
    (d : ℕ) (sep : Char) → d < 10 → (code sep < 48) ⊎ (57 < code sep) → Lacks sep (digit d)
Lacks-digit d sep h far =
    let (c, text, same) = digit-IsOneChar d h in subst (Lacks sep) (sym text) (ground arith, tt)

Lacks-decimal_upto :
    (fuel n : ℕ) (sep : Char)
    → n < fuel
    → (code sep < 48) ⊎ (57 < code sep)
    → Lacks sep (decimal_upto fuel n)
Lacks-decimal_upto zero n sep h far = absurd (omega arith)
Lacks-decimal_upto (suc fuel) n sep h far = elim (Bool-cases (ltb n 10)) [
  | inl small ↦ rw (small) (Lacks-digit n sep (ground arith) far)
  | inr large ↦ rw (large) (
      Lacks-append (decimal_upto fuel (n / 10)) (digit (n % 10)) sep
        (Lacks-decimal_upto fuel (n / 10) sep (ground arith) far)
        (Lacks-digit (n % 10) sep (omega arith) far))
]

-- A number is written with digits only.
pub Lacks-decimal : (n : ℕ) (sep : Char) → (code sep < 48) ⊎ (57 < code sep) → Lacks sep (decimal n)
Lacks-decimal n sep far = Lacks-decimal_upto (suc n) n sep (omega arith) far
