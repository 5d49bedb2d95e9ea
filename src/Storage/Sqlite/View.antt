-- ===== src/Storage/Sqlite/View.antt =====
-- When a table of src/adapters/sqlite_repository.rs stands for a list of clusters: row by row, the
-- id and owner columns and the JSON text are those of the cluster.
use app_salmon.Base.{ℕ, List, ok, ◌≡◌, ap, true, ◌&&◌, not, keep, ◌==◌, text_eq, eq_iff, arith}
use mathlib.Core.Path.{ap₂}
use app_salmon.Base.Related.{Both, Match, Both-find, Both-keep, Both-keep-true}
use app_salmon.Domain.Ids.{ClusterId, ClientId}
use app_salmon.Domain.Cluster.{Cluster}
use app_salmon.Storage.Persisted.{PersistedCluster, restore_cluster}
use app_salmon.Storage.Rows.{has_id, has_owner, find_owned, find_any, of_owner, remove}
use app_salmon.Storage.Sql.{Row, Codec, IsCodec, Tables, by_id, by_id_owner, by_owner}

module _ (codec : Codec) where
  pub record Decodes (r : Row) (c : Cluster) : Type 0 where
    pub same_id : r.id ≡ codec.ulid_to_string c.id
    pub same_owner : r.owner ≡ c.owner
    pub stored : PersistedCluster
    pub parses : codec.from_str r.data_json ≡ ok stored
    pub restores : restore_cluster c.id c.owner stored ≡ c

  -- The connection's rows stand for `cs`.
  abbrev pub Shows : Tables → List Cluster → Type 0
  Shows t cs = Both Decodes t.rows cs

module _ (codec : Codec) (laws : IsCodec codec) where
  ulid_to_string-injective : (n m : ℕ) → codec.ulid_to_string n ≡ codec.ulid_to_string m → n ≡ m
  ulid_to_string-injective n m e =
      cc (laws.ulid_round_trip n, laws.ulid_round_trip m, ap codec.ulid_from_string e)

  pub text_eq-ulid :
      (n m : ℕ) → text_eq (codec.ulid_to_string n) (codec.ulid_to_string m) ≡ (n == m)
  text_eq-ulid n m = ground (
    arith,
    eq_iff (codec.ulid_to_string n) (codec.ulid_to_string m),
    ulid_to_string-injective n m,
    ap codec.ulid_to_string {x = n} {y = m},
  )

  pub Decodes-has_id :
      (id : ClusterId) (r : Row) (c : Cluster)
      → Decodes codec r c
      → text_eq r.id (codec.ulid_to_string id) ≡ has_id id c
  Decodes-has_id id r c d = rw d.same_id (text_eq-ulid c.id id)

  pub Decodes-has_owner :
      (owner : ClientId) (r : Row) (c : Cluster)
      → Decodes codec r c
      → text_eq r.owner owner ≡ has_owner owner c
  Decodes-has_owner owner r c d = rw d.same_owner

  module _ (rows : List Row) (cs : List Cluster) (shown : Both (Decodes codec) rows cs) where
    pub by_id-shows :
        (id : ClusterId)
        → Match (Decodes codec) (by_id (codec.ulid_to_string id) rows) (find_any id cs)
    by_id-shows id = Both-find (Decodes codec) _ _ (Decodes-has_id id) rows cs shown

    pub by_id_owner-shows :
        (id : ClusterId) (owner : ClientId)
        → Match
            (Decodes codec)
            (by_id_owner (codec.ulid_to_string id) owner rows)
            (find_owned id owner cs)
    by_id_owner-shows id owner =
        Both-find (Decodes codec) _ _
          (λ r c d. ap₂ ◌&&◌ (Decodes-has_id id r c d) (Decodes-has_owner owner r c d)) rows cs
          shown

    pub by_owner-shows :
        (owner : ClientId)
        → Both
            (λ r c. Decodes codec r c × (has_owner owner c ≡ true))
            (by_owner owner rows)
            (of_owner owner cs)
    by_owner-shows owner =
        Both-keep-true (Decodes codec) _ _ (Decodes-has_owner owner) rows cs shown

    pub delete-shows :
        (id : ClusterId)
        → Both
            (Decodes codec)
            (keep (λ r. not (text_eq r.id (codec.ulid_to_string id))) rows)
            (remove id cs)
    delete-shows id =
        Both-keep (Decodes codec) _ _ (λ r c d. ap not (Decodes-has_id id r c d)) rows cs shown
