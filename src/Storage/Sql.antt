-- ===== src/Storage/Sql.antt =====
-- What src/adapters/sqlite_repository.rs relies on and does not implement: the SQLite connection
-- (`rusqlite`), the JSON codec (`serde_json`) and the text form of an id (`ulid`). Each is a record
-- of operations beside a record of the documented behaviour that the adapter needs.
use app_salmon.Base.{
  ℕ, String, Option, none, some, List, [], ◌∷◌, ◌++◌, map, Result, ok, ◌≡◌, ◌&&◌, not, false, keep,
  find, All, text_eq, if◌then◌else◌,
}
use app_salmon.Base.Action.{Action}
use app_salmon.Base.Post.{Post}
use app_salmon.Errors.{Source}
use app_salmon.Storage.Persisted.{PersistedCluster}
use mathlib.Core.List.{Permᴰ}
use mathlib.Core.Option

-- A row of the table `clusters`.
pub record Row : Type 0 where
  pub id : String
  pub owner : String
  pub data_json : String

-- The statements that the adapter issues. `lock` is the way into the blocking task and through the
-- connection's mutex; `rollback` is the drop of a transaction that was not committed.
pub record Connection (W : Type 0) : Type 0 where
  pub lock : Action W Source (Unit {0})
  pub begin : Action W Source (Unit {0})
  pub commit : Action W Source (Unit {0})
  pub rollback : W → W
  pub insert_row : Row → Action W Source (Unit {0})
  pub select_data_by_owner : String → Action W Source (List String)
  pub select_data_by_id_owner : String → String → Action W Source (Option String)
  pub select_owner_data_by_id : String → Action W Source (Option (String × String))
  pub select_id_data_by_owner : String → Action W Source (List (String × String))
  pub select_all : Action W Source (List Row)
  pub select_data_by_id : String → Action W Source String
  pub update_data : (data_json id : String) → Action W Source (Unit {0})
  pub delete_by_id : String → Action W Source (Unit {0})

-- What the connection sees: the rows, and the rows that a rollback would restore.
pub record Tables : Type 0 where
  pub rows : List Row
  pub saved : List Row

abbrev pub by_owner : String → List Row → List Row
by_owner owner = keep (λ r. text_eq r.owner owner)

abbrev pub by_id : String → List Row → Option Row
by_id id = find (λ r. text_eq r.id id)

abbrev pub by_id_owner : String → String → List Row → Option Row
by_id_owner id owner = find (λ r. text_eq r.id id && text_eq r.owner owner)

abbrev pub with_data : String → String → Row → Row
with_data json id r = if text_eq r.id id then record r { data_json = json } else r

-- No two rows share an id: the column is the table's primary key.
abbrev pub HasPrimaryKey : List Row → Type 0
HasPrimaryKey [] = Unit
HasPrimaryKey (r ∷ rs) = All (λ q. text_eq q.id r.id ≡ false) rs × HasPrimaryKey rs

-- The documented behaviour of the statements, where `Sees w t` says that the connection sees `t` in
-- the world `w`. Every statement may fail, and then changes nothing; the rows of a query come in no
-- particular order; an insert that succeeds has found the id unused.
pub record IsConnection {W : Type 0} (Sees : W → Tables → Type 0) (c : Connection W) : Type 0 where
  pub primary_key : (w : W) (t : Tables) → Sees w t → HasPrimaryKey t.rows
  pub lock_lem :
      (w : W) (t : Tables) → Sees w t → Post Sees (λ _ t'. t' ≡ t) (λ _ t'. t' ≡ t) (c.lock w)
  pub begin_lem :
      (w : W) (t : Tables)
      → Sees w t
      → Post Sees (λ _ t'. t' ≡ record t { saved = t.rows }) (λ _ t'. t' ≡ t) (c.begin w)
  pub commit_lem :
      (w : W) (t : Tables)
      → Sees w t
      → Post Sees (λ _ t'. t'.rows ≡ t.rows) (λ _ t'. t' ≡ t) (c.commit w)
  pub rollback_lem :
      (w : W) (t : Tables)
      → Sees w t
      → Sees (c.rollback w) (record { rows = t.saved; saved = t.saved })
  pub insert_row_lem :
      (r : Row) (w : W) (t : Tables)
      → Sees w t
      → Post Sees
          (λ _ t'. (by_id r.id t.rows ≡ none) × (t' ≡ record t { rows = t.rows ++ r ∷ [] }))
          (λ _ t'. t' ≡ t)
          (c.insert_row r w)
  pub select_data_by_owner_lem :
      (owner : String) (w : W) (t : Tables)
      → Sees w t
      → Post Sees
          (λ found t'. Permᴰ found (map (λ r. r.data_json) (by_owner owner t.rows)) × (t' ≡ t))
          (λ _ t'. t' ≡ t)
          (c.select_data_by_owner owner w)
  pub select_data_by_id_owner_lem :
      (id owner : String) (w : W) (t : Tables)
      → Sees w t
      → Post Sees
          (λ found t'.
            (found ≡ Option.map (λ r. r.data_json) (by_id_owner id owner t.rows)) × (t' ≡ t))
          (λ _ t'. t' ≡ t)
          (c.select_data_by_id_owner id owner w)
  pub select_owner_data_by_id_lem :
      (id : String) (w : W) (t : Tables)
      → Sees w t
      → Post Sees
          (λ found t'.
            (found ≡ Option.map (λ r. (r.owner, r.data_json)) (by_id id t.rows)) × (t' ≡ t))
          (λ _ t'. t' ≡ t)
          (c.select_owner_data_by_id id w)
  pub select_id_data_by_owner_lem :
      (owner : String) (w : W) (t : Tables)
      → Sees w t
      → Post Sees
          (λ found t'.
            Permᴰ found (map (λ r. (r.id, r.data_json)) (by_owner owner t.rows)) × (t' ≡ t))
          (λ _ t'. t' ≡ t)
          (c.select_id_data_by_owner owner w)
  pub select_all_lem :
      (w : W) (t : Tables)
      → Sees w t
      → Post Sees (λ found t'. Permᴰ found t.rows × (t' ≡ t)) (λ _ t'. t' ≡ t) (c.select_all w)
  pub select_data_by_id_lem :
      (id : String) (w : W) (t : Tables)
      → Sees w t
      → Post Sees
          (λ found t'. (some found ≡ Option.map (λ r. r.data_json) (by_id id t.rows)) × (t' ≡ t))
          (λ _ t'. t' ≡ t)
          (c.select_data_by_id id w)
  pub update_data_lem :
      (json id : String) (w : W) (t : Tables)
      → Sees w t
      → Post Sees
          (λ _ t'. t' ≡ record t { rows = map (with_data json id) t.rows })
          (λ _ t'. t' ≡ t)
          (c.update_data json id w)
  pub delete_by_id_lem :
      (id : String) (w : W) (t : Tables)
      → Sees w t
      → Post Sees
          (λ _ t'. t' ≡ record t { rows = keep (λ r. not (text_eq r.id id)) t.rows })
          (λ _ t'. t' ≡ t)
          (c.delete_by_id id w)

-- `serde_json::to_string` and `from_str` at `PersistedCluster`, and `Ulid`'s text form.
pub record Codec : Type 0 where
  pub to_string : PersistedCluster → Result Source String
  pub from_str : String → Result Source PersistedCluster
  pub ulid_to_string : ℕ → String
  pub ulid_from_string : String → Result Source ℕ

-- What was written reads back.
pub record IsCodec (codec : Codec) : Type 0 where
  pub json_round_trip :
      (p : PersistedCluster) (json : String)
      → codec.to_string p ≡ ok json
      → codec.from_str json ≡ ok p
  pub ulid_round_trip : (n : ℕ) → codec.ulid_from_string (codec.ulid_to_string n) ≡ ok n
