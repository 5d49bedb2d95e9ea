-- ===== src/Storage/Sqlite/UsedSlots.antt =====
-- The slots that `try_insert_if_under_quota` of src/adapters/sqlite_repository.rs reads from the
-- owner's rows.
use app_salmon.Base.{
  ℕ, suc, String, List, [], ◌∷◌, map, ◌≡◌, ◌≢◌, refl, ap, ◌∙◌, subst, true, false, length, All,
  length-perm, arith,
}
use app_salmon.Base.Related.{Both, Both-perm, Both-map}
use app_salmon.Domain.Cluster.{Cluster}
use app_salmon.Storage.Persisted.{restore_cluster}
use app_salmon.Storage.Rows.{has_owner, of_owner}
use app_salmon.Storage.Slots.{contains}
use app_salmon.Storage.Sql.{Row, Codec, IsCodec, by_owner}
use app_salmon.Storage.Sqlite.{used_slots}
use app_salmon.Storage.Sqlite.View.{Decodes, by_owner-shows}
use app_salmon.Storage.Sqlite.Reads.{map-id}
use mathlib.Core.Path.{ap₂}
use mathlib.Core.List.{Permᴰ}

unfoldable pub slots : List Cluster → List ℕ
slots = map (λ c. c.slot)

pub All-unused :
    (cs : List Cluster) (s : ℕ) → contains (slots cs) s ≡ false → All (λ d. d.slot ≢ s) cs
unfolding slots
All-unused [] s h = tt
All-unused (c ∷ cs) s h = (ground (arith, h), All-unused cs s (ground (arith, h)))

pub length-slots : (cs : List Cluster) → length (slots cs) ≡ length cs
unfolding slots
length-slots [] = refl
length-slots (c ∷ cs) = ap suc (length-slots cs)

module _ (codec : Codec) where
  -- A JSON text that is the stored form of a cluster.
  Stores : String → Cluster → Type 0
  Stores json c = (r : Row) × Decodes codec r c × (r.data_json ≡ json)

  used_slots-Both :
      (jsons : List String) (cs : List Cluster)
      → Both Stores jsons cs
      → used_slots codec jsons ≡ slots cs
  unfolding used_slots slots Stores restore_cluster
  used_slots-Both [] [] h = refl
  used_slots-Both (json ∷ jsons) (c ∷ cs) ((r, d, e), h) =
      rw (← e, d.parses, used_slots)
        (ap₂ ◌∷◌ (ap (λ (c : Cluster). c.slot) d.restores) (used_slots-Both jsons cs h))
  used_slots-Both [] (c ∷ cs) h = absurd h
  used_slots-Both (json ∷ jsons) [] h = absurd h

  -- The owner's rows, in whatever order the query gives them, hold the owner's slots.
  pub owner_slots :
      (cs : List Cluster) (rows : List Row) (owner : String) (jsons : List String)
      → (laws : IsCodec codec) → Both (Decodes codec) rows cs
      → Permᴰ jsons (map (λ r. r.data_json) (by_owner owner rows))
      → (cs' : List Cluster) × Permᴰ cs' (of_owner owner cs)
        × (used_slots codec jsons ≡ slots cs')
        × (length jsons ≡ length (of_owner owner cs))
  owner_slots cs rows owner jsons laws shown moved =
      let (cs', moved', related) = Both-perm Stores (of_owner owner cs) moved (
        subst (Both Stores (map (λ r. r.data_json) (by_owner owner rows)))
          (map-id (of_owner owner cs))
          (Both-map (λ r c. Decodes codec r c × (has_owner owner c ≡ true)) Stores
            (λ r. r.data_json) (λ c. c) (λ r c d. unfold Stores in (r, d.0, refl))
            (by_owner owner rows) (of_owner owner cs)
            (by_owner-shows codec laws rows cs shown owner))) in
      (
        cs',
        moved',
        used_slots-Both jsons cs' related,
        length-Both jsons cs' related ∙ length-perm moved',
      )
    where
      length-Both :
          (us : List String) (vs : List Cluster) → Both Stores us vs → length us ≡ length vs
      length-Both [] [] k = refl
      length-Both (u ∷ us) (v ∷ vs) k = ap suc (length-Both us vs k.1)
      length-Both [] (v ∷ vs) k = absurd k
      length-Both (u ∷ us) [] k = absurd k
