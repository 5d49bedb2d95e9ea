-- ===== src/Storage/Slots.antt =====
-- The choice of a directory slot in `try_insert_if_under_quota` of
-- src/adapters/sqlite_repository.rs: `(0..limit).find(|c| !used_slots.contains(c))`.
use app_salmon.Base.{
  ℕ, zero, suc, ◌+◌, ◌≤◌, ◌<◌, ◌≡◌, ◌≢◌, ◌⊎◌, Bool, true, false, not, List, [], ◌∷◌, Option, none,
  some, length, keep, ◌==◌, if◌then◌else◌, Bool-cases, Option-cases, inl, inr, arith,
}

abbrev pub contains : List ℕ → ℕ → Bool
contains [] a = false
contains (x ∷ xs) a = let rest = contains xs a in if x == a then true else rest

-- The first of the `rounds` numbers from `candidate` on that is not used.
unfoldable pub first_free : List ℕ → ℕ → ℕ → Option ℕ
first_free used zero candidate = none
first_free used (suc rounds) candidate =
    let rest = first_free used rounds (candidate + 1) in
    if contains used candidate then rest else some candidate

unfoldable pub free_slot : List ℕ → ℕ → Option ℕ
unfolding first_free
free_slot used limit = first_free used limit 0

-- `j` is `k` or lies above it.
at_or_above : (k j : ℕ) → k ≤ j → (k ≡ j) ⊎ (k + 1 ≤ j)
at_or_above k j h = omega arith

first_free_sound :
    (used : List ℕ) (n k s : ℕ)
    → first_free used n k ≡ some s
    → (k ≤ s)
      × (s < k + n)
      × (contains used s ≡ false)
      × ((j : ℕ) → k ≤ j → j < s → contains used j ≡ true)
unfolding first_free
first_free_sound used zero k s h = absurd (cc)
first_free_sound used (suc n) k s h = elim (Bool-cases (contains used k)) [
  | inl taken ↦
      let (lo, hi, free, below) = first_free_sound used n (k + 1) s (rw (taken, first_free) at h) in
      (
        omega arith,
        omega arith,
        free,
        λ j a b. elim (at_or_above k j a) [ inl e ↦ rw (← e) taken | inr m ↦ below j m b ],
      )
  | inr free ↦
      let e : k ≡ s = ground arith in
      (omega arith, omega arith, rw (← e) free, λ j a b. absurd (omega arith))
]

-- A slot that is handed out lies below the limit, is not in use, and is the smallest such.
pub free_slot_sound :
    (used : List ℕ) (limit s : ℕ)
    → free_slot used limit ≡ some s
    → (s < limit) × (contains used s ≡ false) × ((j : ℕ) → j < s → contains used j ≡ true)
unfolding free_slot
free_slot_sound used limit s h =
    let (lo, hi, free, below) = first_free_sound used limit 0 s h in
    (omega arith, free, λ j b. below j (omega arith) b)

first_free-none :
    (used : List ℕ) (n k : ℕ)
    → first_free used n k ≡ none
    → (j : ℕ) → k ≤ j
    → j < k + n
    → contains used j ≡ true
unfolding first_free
first_free-none used zero k h j a b = absurd (omega arith)
first_free-none used (suc n) k h j a b = elim (Bool-cases (contains used k)) [
  | inl taken ↦ elim (at_or_above k j a) [
    | inl e ↦ rw (← e) taken
    | inr m ↦ first_free-none used n (k + 1) (rw (taken, first_free) at h) j m (omega arith)
  ]
  | inr free ↦ absurd (ground arith)
]

unfoldable pub without : ℕ → List ℕ → List ℕ
without a = keep (λ x. not (x == a))

length-without-le : (a : ℕ) (xs : List ℕ) → length (without a xs) ≤ length xs
unfolding without
length-without-le a [] = omega arith
length-without-le a (x ∷ xs) = ground (arith, length-without-le a xs)

length-without : (a : ℕ) (xs : List ℕ) → contains xs a ≡ true → length (without a xs) < length xs
unfolding without
length-without a [] h = absurd (cc)
length-without a (x ∷ xs) h = ground (arith, length-without a xs, length-without-le a xs)

contains-without :
    (a j : ℕ) (xs : List ℕ) → j ≢ a → contains xs j ≡ true → contains (without a xs) j ≡ true
unfolding without
contains-without a j [] d h = h
contains-without a j (x ∷ xs) d h = ground (arith, contains-without a j xs d)

-- The pigeonhole principle: a list that contains `n` consecutive numbers has `n` elements.
le-length_of_contains :
    (n k : ℕ) (used : List ℕ)
    → ((j : ℕ) → k ≤ j → j < k + n → contains used j ≡ true)
    → n ≤ length used
le-length_of_contains zero k used h = omega arith
le-length_of_contains (suc n) k used h = omega (
  arith,
  length-without (k + n) used (h (k + n) (omega arith) (omega arith)),
  le-length_of_contains n k (without (k + n) used)
      λ j a b. contains-without (k + n) j used (omega arith) (h j a (omega arith)),
)

-- With fewer used slots than the limit, a slot is handed out.
pub free_slot_total :
    (used : List ℕ) (limit : ℕ) → length used < limit → (s : ℕ) × (free_slot used limit ≡ some s)
unfolding free_slot
free_slot_total used limit h = elim (Option-cases (first_free used limit 0)) [
  | inl e ↦ absurd (
      omega (
        arith,
        le-length_of_contains limit 0 used
            λ j a b. first_free-none used limit 0 e j a (omega arith),
      ))
  | inr found ↦ found
]

-- If fewer slots are in use than the limit, listed with repetitions, then a slot is handed out; it
-- lies below the limit, is not in use, and is the smallest such.
pub free_slot_least :
    (used : List ℕ) (limit : ℕ)
    → length used < limit
    → (s : ℕ) × (free_slot used limit ≡ some s)
      × (s < limit)
      × (contains used s ≡ false)
      × ((j : ℕ) → j < s → contains used j ≡ true)
free_slot_least used limit h =
    let (s, found) = free_slot_total used limit h in
    let (below, free, least) = free_slot_sound used limit s found in (s, found, below, free, least)
