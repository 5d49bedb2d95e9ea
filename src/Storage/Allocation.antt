-- ===== src/Storage/Allocation.antt =====
-- What the rows of src/adapters/sqlite_repository.rs always satisfy: the limits that
-- `try_insert_if_under_quota` enforces, and the primary key.
pub mod Bound
pub mod Owners
use app_salmon.Base.{
  ℕ, ◌<◌, ◌≡◌, ◌≢◌, refl, sym, ap, subst, Bool, true, false, not, List, [], ◌∷◌, ◌++◌, Option, none,
  some, map, keep, find, All, All-append, ◌==◌, ==_iff, text_eq, eq_iff, if◌then◌else◌, Bool-cases,
  inl, inr, arith,
}
use app_salmon.Domain.Ids.{ClusterId, WorkerUser}
use app_salmon.Domain.Cluster.{ClusterState, Cluster}
use app_salmon.Storage.Port.{InsertOutcome, inserted, quota_exceeded, Inserts}
use app_salmon.Storage.Rows.{
  has_id, has_owner, find_any, of_owner, with_state, set_state, with_worker, set_worker, remove,
}

-- Two rows have different ids, and different directory slots if one client owns both.
abbrev pub Apart : Cluster → Cluster → Type 0
Apart c d = (c.id ≢ d.id) × (c.owner ≡ d.owner → c.slot ≢ d.slot)

-- Every slot lies below the limit, and the rows are pairwise apart.
abbrev pub IsAllocated : ℕ → List Cluster → Type 0
IsAllocated limit [] = Unit
IsAllocated limit (c ∷ cs) = (c.slot < limit) × All (Apart c) cs × IsAllocated limit cs

-- Rows that agree on what allocation is about.
abbrev SameKey : (Cluster → Cluster) → Type 0
SameKey f = (c : Cluster) → ((f c).id ≡ c.id) × ((f c).owner ≡ c.owner) × ((f c).slot ≡ c.slot)

Apart-map : (f : Cluster → Cluster) → SameKey f → (c d : Cluster) → Apart c d → Apart (f c) (f d)
Apart-map f same c d (ids, slots) =
    let (ci, co, cs) = same c in
    let (di, do_, ds) = same d in
    (λ e. ids (cc (e, ci, di)), λ o e. slots (cc (o, co, do_)) (cc (e, cs, ds)))

All-Apart-map :
    (f : Cluster → Cluster)
    → SameKey f
    → (c : Cluster) (cs : List Cluster) → All (Apart c) cs
    → All (Apart (f c)) (map f cs)
All-Apart-map f same c [] h = tt
All-Apart-map f same c (d ∷ cs) (h, k) = (Apart-map f same c d h, All-Apart-map f same c cs k)

IsAllocated-map :
    (f : Cluster → Cluster)
    → SameKey f
    → (limit : ℕ) (cs : List Cluster) → IsAllocated limit cs
    → IsAllocated limit (map f cs)
IsAllocated-map f same limit [] h = tt
IsAllocated-map f same limit (c ∷ cs) (below, apart, h) = (
  subst (λ s. s < limit) (sym (same c).2) below,
  All-Apart-map f same c cs apart,
  IsAllocated-map f same limit cs h,
)

pub set_state-IsAllocated :
    (limit : ℕ) (id : ClusterId) (s : ClusterState) (cs : List Cluster)
    → IsAllocated limit cs
    → IsAllocated limit (set_state id s cs)
set_state-IsAllocated limit id s =
    IsAllocated-map (with_state id s)
      (λ c. elim (Bool-cases (has_id id c)) [
        | inl e ↦ rw e (refl, refl, refl)
        | inr e ↦ rw e (refl, refl, refl)
      ])
      limit

pub set_worker-IsAllocated :
    (limit : ℕ) (id : ClusterId) (u : WorkerUser) (cs : List Cluster)
    → IsAllocated limit cs
    → IsAllocated limit (set_worker id u cs)
set_worker-IsAllocated limit id u =
    IsAllocated-map (with_worker id u)
      (λ c. elim (Bool-cases (has_id id c)) [
        | inl e ↦ rw e (refl, refl, refl)
        | inr e ↦ rw e (refl, refl, refl)
      ])
      limit

All-keep :
    (P : Cluster → Type 0) (p : Cluster → Bool) (cs : List Cluster) → All P cs → All P (keep p cs)
All-keep P p [] h = tt
All-keep P p (c ∷ cs) (h, k) = elim (Bool-cases (p c)) [
  | inl e ↦ rw e (h, All-keep P p cs k)
  | inr e ↦ rw e (All-keep P p cs k)
]

pub remove-IsAllocated :
    (limit : ℕ) (id : ClusterId) (cs : List Cluster)
    → IsAllocated limit cs
    → IsAllocated limit (remove id cs)
remove-IsAllocated limit id [] h = tt
remove-IsAllocated limit id (c ∷ cs) (below, apart, h) = elim (Bool-cases (has_id id c)) [
  | inl e ↦ rw e (remove-IsAllocated limit id cs h)
  | inr e ↦ rw e (below, All-keep (Apart c) _ cs apart, remove-IsAllocated limit id cs h)
]

-- A new row is apart from the rows of a store where its id and its slot are free.
Apart-new :
    (c : Cluster) (cs : List Cluster)
    → find_any c.id cs ≡ none
    → All (λ d. d.slot ≢ c.slot) (of_owner c.owner cs)
    → All (λ d. Apart d c) cs
Apart-new c [] fresh free = tt
Apart-new c (d ∷ cs) fresh free = elim (Bool-cases (has_id c.id d)) [
  | inl e ↦ absurd (cc (e, fresh))
  | inr e ↦
      let fresh' : find_any c.id cs ≡ none = rw e at fresh in
      let ids : d.id ≢ c.id = ground (arith, e) in
      elim (Bool-cases (has_owner c.owner d)) [
        | inl o ↦
            let free' : All (λ d. d.slot ≢ c.slot) (d ∷ of_owner c.owner cs) = rw o at free in
            ((ids, λ _. free'.0), Apart-new c cs fresh' free'.1)
        | inr o ↦
            let free' : All (λ d. d.slot ≢ c.slot) (of_owner c.owner cs) = rw o at free in
            (
              (ids, λ same. absurd (cc (o, (eq_iff d.owner c.owner).1 same))),
              Apart-new c cs fresh' free',
            )
      ]
]

IsAllocated-append :
    (limit : ℕ) (c : Cluster) (cs : List Cluster)
    → c.slot < limit
    → All (λ d. Apart d c) cs
    → IsAllocated limit cs
    → IsAllocated limit (cs ++ c ∷ [])
IsAllocated-append limit c [] below apart h = (below, tt, tt)
IsAllocated-append limit c (d ∷ cs) below (a, apart) (k, b, h) =
    (k, All-append (Apart d) cs (c ∷ []) b (a, tt), IsAllocated-append limit c cs below apart h)

-- What an insert does, as the contract of the port says it, keeps the rows allocated.
pub Inserts-IsAllocated :
    (c : Cluster) (limit : ℕ) (cs cs' : List Cluster) (o : InsertOutcome)
    → Inserts c limit cs o cs'
    → IsAllocated limit cs
    → IsAllocated limit cs'
Inserts-IsAllocated c limit cs cs' (inserted slot) (_, below, free, fresh, same) h =
    subst (IsAllocated limit) (sym same) (
      IsAllocated-append limit (record c { slot = slot }) cs below
        (Apart-new (record c { slot = slot }) cs fresh free) h)
Inserts-IsAllocated c limit cs cs' (quota_exceeded n) (_, _, same) h =
    subst (IsAllocated limit) (sym same) h
