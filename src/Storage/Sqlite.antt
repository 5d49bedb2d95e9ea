-- ===== src/Storage/Sqlite.antt =====
-- `SqliteClusterRepository` of src/adapters/sqlite_repository.rs, over a connection and a codec.
pub mod View
pub mod Reads
pub mod Writes
pub mod UsedSlots
pub mod Insert
pub mod Contract
use app_salmon.Base.{
  ℕ, ◌^◌, ◌-◌, String, Option, none, some, List, [], ◌∷◌, Result, ok, err, map_err, leb, length,
  if◌then◌else◌, map,
}
use app_salmon.Base
use app_salmon.Base.Action.{Action, ◌>>=◌, ◌>>◌, pure, lift, on_err}
use app_salmon.Domain.Ids.{ClusterId, ClientId, WorkerUser}
use app_salmon.Domain.Cluster.{ClusterState, Cluster}
use app_salmon.Errors.{RepositoryError, db, serde, task_join, corrupt_row, Source}
use app_salmon.Storage.Persisted.{
  PersistedCluster, persist_state, persist_worker, to_persisted, restore_cluster,
}
use app_salmon.Storage.Port.{InsertOutcome, inserted, quota_exceeded, ClusterRepository}
use app_salmon.Storage.Slots.{free_slot}
use app_salmon.Storage.Sql.{Row, Connection, Codec}
use mathlib.Core.Option

-- `u32::try_from(n).unwrap_or(u32::MAX)`.
abbrev pub to_u32 : ℕ → ℕ
to_u32 n = if leb n 4294967295 then n else 4294967295

module _ (codec : Codec) where
  unfoldable pub from_row : ClusterId → ClientId → String → Result RepositoryError Cluster
  from_row id owner json = elim (codec.from_str json) [
    | ok persisted ↦ ok (restore_cluster id owner persisted)
    | err source ↦ err (serde source)
  ]

  unfoldable pub parse_cluster_id : String → Result RepositoryError ClusterId
  parse_cluster_id raw = map_err corrupt_row (codec.ulid_from_string raw)

  -- `filter_map(|json| from_str(json).ok()).map(|persisted| persisted.slot)`.
  unfoldable pub used_slots : List String → List ℕ
  used_slots [] = []
  used_slots (json ∷ jsons) =
      let rest = used_slots jsons in
      elim (codec.from_str json) [ ok persisted ↦ persisted.slot ∷ rest | err _ ↦ rest ]

  -- The loop of `list_by_owner`.
  unfoldable pub owned_clusters :
      ClientId → List (String × String) → Result RepositoryError (List Cluster)
  owned_clusters owner [] = ok []
  owned_clusters owner ((id_str, json) ∷ rest) =
      let others = owned_clusters owner rest in
      Base.◌>>=◌ (parse_cluster_id id_str) λ id.
        Base.◌>>=◌ (from_row id owner json)
          λ cluster. Base.◌>>=◌ others λ clusters. ok (cluster ∷ clusters)

  -- The loop of `list_all`.
  unfoldable pub all_clusters : List Row → Result RepositoryError (List Cluster)
  all_clusters [] = ok []
  all_clusters (row ∷ rest) =
      let others = all_clusters rest in
      Base.◌>>=◌ (parse_cluster_id row.id) λ id.
        Base.◌>>=◌ (from_row id row.owner row.data_json)
          λ cluster. Base.◌>>=◌ others λ clusters. ok (cluster ∷ clusters)

  unfoldable pub from_optional_row :
      ClusterId → Option (ClientId × String) → Result RepositoryError (Option Cluster)
  from_optional_row id none = ok none
  from_optional_row id (some (owner, json)) =
      Base.◌>>=◌ (from_row id owner json) λ cluster. ok (some cluster)

module _ {W : Type 0} (conn : Connection W) (codec : Codec) where
  -- `with_conn`: the closure runs once the blocking task has the connection.
  unfoldable pub with_conn : {T : Type 0} → Action W RepositoryError T → Action W RepositoryError T
  with_conn f = on_err task_join conn.lock >> f

  unfoldable pub store_with_slot : Cluster → ℕ → Action W RepositoryError InsertOutcome
  store_with_slot cluster slot = do
    json ← lift (map_err serde (codec.to_string (to_persisted (record cluster { slot = slot }))))
    on_err db (
        conn.insert_row (record {
          id = codec.ulid_to_string cluster.id;
          owner = cluster.owner;
          data_json = json;
        }))
    on_err db conn.commit
    pure (inserted slot)

  unfoldable pub assign_slot : Cluster → Option ℕ → Action W RepositoryError InsertOutcome
  assign_slot cluster none =
      lift (err (corrupt_row "no free directory slot available despite being under quota"))
  assign_slot cluster (some slot) = store_with_slot cluster slot

  -- The transaction's body, once it has begun.
  unfoldable pub insert_body : Cluster → ℕ → Action W RepositoryError InsertOutcome
  insert_body cluster limit = do
    existing ← on_err db (conn.select_data_by_owner cluster.owner)
    let count = to_u32 (length existing)
    if leb limit count
        then pure (quota_exceeded count)
        else assign_slot cluster (free_slot (used_slots codec existing) limit)

  -- A transaction that was not committed is rolled back when it is dropped.
  unfoldable pub close_transaction :
      Result RepositoryError InsertOutcome × W → Result RepositoryError InsertOutcome × W
  close_transaction (ok (inserted slot), w) = (ok (inserted slot), w)
  close_transaction (ok (quota_exceeded n), w) = (ok (quota_exceeded n), conn.rollback w)
  close_transaction (err e, w) = (err e, conn.rollback w)

  unfoldable pub insert_transaction : Cluster → ℕ → Action W RepositoryError InsertOutcome
  insert_transaction cluster limit w = close_transaction (insert_body cluster limit w)

  unfoldable pub try_insert_if_under_quota : Cluster → ℕ → Action W RepositoryError InsertOutcome
  try_insert_if_under_quota cluster limit =
      with_conn do on_err db conn.begin; insert_transaction cluster limit

  unfoldable pub get_owned : ClusterId → ClientId → Action W RepositoryError (Option Cluster)
  get_owned id owner = with_conn do
    found ← on_err db (conn.select_data_by_id_owner (codec.ulid_to_string id) owner)
    lift (from_optional_row codec id (Option.map (λ json. (owner, json)) found))

  unfoldable pub get_any : ClusterId → Action W RepositoryError (Option Cluster)
  get_any id = with_conn do
    found ← on_err db (conn.select_owner_data_by_id (codec.ulid_to_string id))
    lift (from_optional_row codec id found)

  unfoldable pub list_by_owner : ClientId → Action W RepositoryError (List Cluster)
  list_by_owner owner = with_conn do
    rows ← on_err db (conn.select_id_data_by_owner owner)
    lift (owned_clusters codec owner rows)

  unfoldable pub list_all : Action W RepositoryError (List Cluster)
  list_all = with_conn do rows ← on_err db conn.select_all; lift (all_clusters codec rows)

  -- The read, change and write of a row's JSON that `update_state` and `set_worker` share.
  unfoldable pub rewrite_row :
      ClusterId → (PersistedCluster → PersistedCluster) → Action W RepositoryError (Unit {0})
  rewrite_row id change = with_conn do
    existing ← on_err db (conn.select_data_by_id (codec.ulid_to_string id))
    persisted ← lift (map_err serde (codec.from_str existing))
    updated_json ← lift (map_err serde (codec.to_string (change persisted)))
    on_err db (conn.update_data updated_json (codec.ulid_to_string id))

  unfoldable pub update_state : ClusterId → ClusterState → Action W RepositoryError (Unit {0})
  update_state id state =
      rewrite_row id λ persisted. record persisted { state = persist_state state }

  unfoldable pub set_worker : ClusterId → WorkerUser → Action W RepositoryError (Unit {0})
  set_worker id worker =
      rewrite_row id λ persisted. record persisted { worker = some (persist_worker worker) }

  unfoldable pub delete : ClusterId → Action W RepositoryError (Unit {0})
  delete id = with_conn (on_err db (conn.delete_by_id (codec.ulid_to_string id)))

  pub sqlite_repository : ClusterRepository W
  sqlite_repository = record {
    try_insert_if_under_quota = try_insert_if_under_quota;
    get_owned = get_owned;
    get_any = get_any;
    list_by_owner = list_by_owner;
    list_all = list_all;
    update_state = update_state;
    set_worker = set_worker;
    delete = delete;
  }
