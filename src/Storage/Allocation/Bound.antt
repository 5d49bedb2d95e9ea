-- ===== src/Storage/Allocation/Bound.antt =====
-- The quota of src/adapters/sqlite_repository.rs, from the slots that the rows hold.
use app_salmon.Base.{
  ℕ, zero, suc, ◌<◌, ◌≤◌, ◌≡◌, refl, true, false, List, [], ◌∷◌, map, length, All, ◌==◌, eq_iff,
  Bool-cases, inl, inr, arith,
}
use app_salmon.Domain.Ids.{ClientId}
use app_salmon.Domain.Cluster.{Cluster}
use app_salmon.Storage.Allocation.{Apart, IsAllocated}
use app_salmon.Storage.Rows.{has_owner, of_owner}
use app_salmon.Storage.Slots.{contains, without}

abbrev IsDistinct : List ℕ → Type 0
IsDistinct [] = Unit
IsDistinct (x ∷ xs) = (contains xs x ≡ false) × IsDistinct xs

length-without_absent :
    (a : ℕ) (xs : List ℕ) → contains xs a ≡ false → length (without a xs) ≡ length xs
unfolding without
length-without_absent a [] h = refl
length-without_absent a (x ∷ xs) h = ground (arith, length-without_absent a xs)

length-without_distinct :
    (a : ℕ) (xs : List ℕ) → IsDistinct xs → length xs ≤ suc (length (without a xs))
unfolding without
length-without_distinct a [] h = omega arith
length-without_distinct a (x ∷ xs) (fresh, h) =
    ground (arith, fresh, length-without_distinct a xs h, length-without_absent a xs)

contains-without-false :
    (a j : ℕ) (xs : List ℕ) → contains xs j ≡ false → contains (without a xs) j ≡ false
unfolding without
contains-without-false a j [] h = refl
contains-without-false a j (x ∷ xs) h = ground (arith, contains-without-false a j xs)

without-IsDistinct : (a : ℕ) (xs : List ℕ) → IsDistinct xs → IsDistinct (without a xs)
unfolding without
without-IsDistinct a [] h = tt
without-IsDistinct a (x ∷ xs) (fresh, h) = elim (Bool-cases (x == a)) [
  | inl e ↦ rw e (without-IsDistinct a xs h)
  | inr e ↦ rw e (contains-without-false a x xs fresh, without-IsDistinct a xs h)
]

without-below : (n : ℕ) (xs : List ℕ) → All (λ x. x < suc n) xs → All (λ x. x < n) (without n xs)
unfolding without
without-below n [] h = tt
without-below n (x ∷ xs) (below, h) = elim (Bool-cases (x == n)) [
  | inl e ↦ rw e (without-below n xs h)
  | inr e ↦ rw e (ground arith, without-below n xs h)
]

-- The pigeonhole principle: there are at most `n` distinct numbers below `n`.
length_of_distinct : (n : ℕ) (xs : List ℕ) → All (λ x. x < n) xs → IsDistinct xs → length xs ≤ n
length_of_distinct zero [] below h = omega arith
length_of_distinct zero (x ∷ xs) (below, _) h = absurd (omega arith)
length_of_distinct (suc n) xs below h = omega (
  arith,
  length-without_distinct n xs h,
  length_of_distinct n (without n xs) (without-below n xs below) (without-IsDistinct n xs h),
)

owner_slots : ClientId → List Cluster → List ℕ
owner_slots owner cs = map (λ c. c.slot) (of_owner owner cs)

owner_slots-absent :
    (owner : ClientId) (c : Cluster) (cs : List Cluster)
    → has_owner owner c ≡ true
    → All (Apart c) cs
    → contains (owner_slots owner cs) c.slot ≡ false
unfolding owner_slots
owner_slots-absent owner c [] o h = refl
owner_slots-absent owner c (d ∷ cs) o ((_, slots), h) = elim (Bool-cases (has_owner owner d)) [
  | inl e ↦
      let differ = slots (cc ((eq_iff c.owner owner).0 o, (eq_iff d.owner owner).0 e)) in
      rw e (ground (arith, differ, owner_slots-absent owner c cs o h))
  | inr e ↦ rw e (owner_slots-absent owner c cs o h)
]

owner_slots-IsDistinct :
    (owner : ClientId) (limit : ℕ) (cs : List Cluster)
    → IsAllocated limit cs
    → IsDistinct (owner_slots owner cs) × All (λ x. x < limit) (owner_slots owner cs)
unfolding owner_slots
owner_slots-IsDistinct owner limit [] h = (tt, tt)
owner_slots-IsDistinct owner limit (c ∷ cs) (below, apart, h) =
    let (distinct, lower) = owner_slots-IsDistinct owner limit cs h in
    elim (Bool-cases (has_owner owner c)) [
      | inl e ↦
          rw e (
            (unfold owner_slots in owner_slots-absent owner c cs e apart, distinct),
            (below, lower),
          )
      | inr e ↦ rw e (distinct, lower)
    ]

length-map : (cs : List Cluster) → length (map (λ c. c.slot) cs) ≡ length cs
length-map [] = refl
length-map (c ∷ cs) = omega (arith, length-map cs)

-- No client has more rows than the quota allows, because their slots are distinct and below it.
pub quota_bound :
    (owner : ClientId) (limit : ℕ) (cs : List Cluster)
    → IsAllocated limit cs
    → length (of_owner owner cs) ≤ limit
unfolding owner_slots
quota_bound owner limit cs h =
    let (distinct, lower) = owner_slots-IsDistinct owner limit cs h in
    omega (
      arith,
      length-map (of_owner owner cs),
      length_of_distinct limit (owner_slots owner cs) lower distinct,
    )
