-- ===== src/Storage/Sqlite/Writes.antt =====
-- `update_state`, `set_worker` and `delete` of src/adapters/sqlite_repository.rs meet the contract
-- of the port.
use app_salmon.Base.{
  String, Option, none, some, List, [], ◌∷◌, map, ok, ◌≡◌, ◌≢◌, refl, sym, ◌∙◌, subst, true, false,
  All, text_eq, eq_iff, if◌then◌else◌, Bool-cases, Result-cases, inl, inr, arith, map_err,
}
use app_salmon.Base.Action.{continue, ◌>>=◌, lift, on_err}
use app_salmon.Base.Post.{Post, bind-Post, on_err-Post, weaken}
use app_salmon.Base.Related.{Both, Match}
use app_salmon.Domain.Ids.{ClusterId, WorkerUser}
use app_salmon.Domain.Cluster.{ClusterState, Cluster}
use app_salmon.Errors.{db, serde}
use app_salmon.Storage.Persisted.{PersistedCluster, restore_cluster, persist_state, persist_worker}
use app_salmon.Storage.Persisted.RoundTrip.{restore-persist_state}
use app_salmon.Storage.Rows.{has_id, find_any, set_state, remove}
use app_salmon.Storage.Rows
use app_salmon.Storage.Sql.{
  Row, Connection, IsConnection, Codec, IsCodec, Tables, by_id, with_data, HasPrimaryKey,
}
use app_salmon.Storage.Sqlite.{rewrite_row, update_state, set_worker, delete}
use app_salmon.Storage.Sqlite.View.{Decodes, Decodes-has_id, by_id-shows, delete-shows}
use app_salmon.Storage.Sqlite.Reads.{with_conn-Post}
use mathlib.Core.Option

-- A change of the stored form that amounts to a change of the cluster, and keeps its columns.
pub record IsChange (change : PersistedCluster → PersistedCluster) (g : Cluster → Cluster)
    : Type 0 where
  pub keeps_id : (c : Cluster) → (g c).id ≡ c.id
  pub keeps_owner : (c : Cluster) → (g c).owner ≡ c.owner
  pub restores :
      (c : Cluster) (p : PersistedCluster)
      → restore_cluster c.id c.owner p ≡ c
      → restore_cluster (g c).id (g c).owner (change p) ≡ g c

abbrev at_id : ClusterId → (Cluster → Cluster) → Cluster → Cluster
at_id id g c = if has_id id c then g c else c

module _ (codec : Codec) (laws : IsCodec codec) (id : ClusterId) (g : Cluster → Cluster)
    (change : PersistedCluster → PersistedCluster) (is_change : IsChange change g)
    (json : String) where
  abbrev uid : String
  uid = codec.ulid_to_string id

  -- Rows under other ids are left alone.
  others-show :
      (rows : List Row) (cs : List Cluster)
      → Both (Decodes codec) rows cs
      → All (λ q. text_eq q.id uid ≡ false) rows
      → Both (Decodes codec) (map (with_data json uid) rows) (map (at_id id g) cs)
  others-show [] [] h k = tt
  others-show (r ∷ rows) (c ∷ cs) (d, h) (k, ks) =
      let other : has_id id c ≡ false = sym (Decodes-has_id codec laws id r c d) ∙ k in
      (rw (k, other) d, others-show rows cs h ks)
  others-show [] (c ∷ cs) h k = absurd h
  others-show (r ∷ rows) [] h k = absurd h

  Decodes-change :
      (r : Row) (c : Cluster) (p : PersistedCluster)
      → Decodes codec r c
      → codec.from_str r.data_json ≡ ok p
      → codec.from_str json ≡ ok (change p)
      → Decodes codec (record r { data_json = json }) (g c)
  Decodes-change r c p d e f = record {
    same_id = rw is_change.keeps_id d.same_id;
    same_owner = rw is_change.keeps_owner d.same_owner;
    stored = change p;
    parses = f;
    restores =
        is_change.restores c p
          (subst (λ q. restore_cluster c.id c.owner q ≡ c) (cc (d.parses, e)) d.restores);
  }

  -- The one row under the id is rewritten.
  update-shows :
      (rows : List Row) (cs : List Cluster) (r : Row) (p : PersistedCluster)
      → Both (Decodes codec) rows cs
      → HasPrimaryKey rows
      → by_id uid rows ≡ some r
      → codec.from_str r.data_json ≡ ok p
      → codec.from_str json ≡ ok (change p)
      → Both (Decodes codec) (map (with_data json uid) rows) (map (at_id id g) cs)
  update-shows [] [] r p h k e f j = tt
  update-shows (q ∷ rows) (c ∷ cs) r p (d, h) (k, ks) e f j = elim (Bool-cases (text_eq q.id uid)) [
    | inl same ↦
        let same' : has_id id c ≡ true = sym (Decodes-has_id codec laws id q c d) ∙ same in
        let first : r ≡ q = ground (arith, e) in
        let unique =
          subst (λ i. All (λ z. text_eq z.id i ≡ false) rows) ((eq_iff q.id uid).0 same) k in
        rw (same, same')
          (
            Decodes-change q c p d (subst (λ z. codec.from_str z.data_json ≡ ok p) first f) j,
            others-show rows cs h unique,
          )
    | inr other ↦
        let other' : has_id id c ≡ false = sym (Decodes-has_id codec laws id q c d) ∙ other in
        rw (other, other') (d, update-shows rows cs r p h ks (rw other at e) f j)
  ]
  update-shows [] (c ∷ cs) r p h k e f j = absurd h
  update-shows (q ∷ rows) [] r p h k e f j = absurd h

state-IsChange :
    (s : ClusterState)
    → IsChange (λ p. record p { state = persist_state s }) (λ c. record c { state = s })
unfolding restore_cluster
state-IsChange s = record {
  keeps_id = λ c. refl;
  keeps_owner = λ c. refl;
  restores = λ c p e. ground (arith, e, restore-persist_state s);
}

worker-IsChange :
    (u : WorkerUser)
    → IsChange
        (λ p. record p { worker = some (persist_worker u) })
        (λ c. record c { worker = some u })
unfolding restore_cluster
worker-IsChange u = record {
  keeps_id = λ c. refl;
  keeps_owner = λ c. refl;
  restores = λ c p e. ground (arith, e);
}

module _ {W : Type 0} {Sees : W → Tables → Type 0} (conn : Connection W)
    (c_laws : IsConnection Sees conn) (codec : Codec) (laws : IsCodec codec) (w : W) (t : Tables)
    (cs : List Cluster) (seen : Sees w t) (shown : Both (Decodes codec) t.rows cs) where
  -- What a write promises: the rows show the changed clusters, or nothing has changed.
  abbrev Rewrites : ClusterId → (Cluster → Cluster) → Unit {0} → Tables → Type 0
  Rewrites id g _ t' = (find_any id cs ≢ none) × Both (Decodes codec) t'.rows (map (at_id id g) cs)

  found_row :
      (id : ClusterId) (json : String)
      → some json ≡ Option.map (λ r. r.data_json) (by_id (codec.ulid_to_string id) t.rows)
      → (r : Row) × (by_id (codec.ulid_to_string id) t.rows ≡ some r)
        × (r.data_json ≡ json)
        × (find_any id cs ≢ none)
  found_row id json e =
      find_row (by_id (codec.ulid_to_string id) t.rows) (find_any id cs) e
        (by_id-shows codec laws t.rows cs shown id)
    where
      find_row :
          (o : Option Row) (found : Option Cluster)
          → some json ≡ Option.map (λ r. r.data_json) o
          → Match (Decodes codec) o found
          → (r : Row) × (o ≡ some r) × (r.data_json ≡ json) × (found ≢ none)
      find_row (some r) (some c) h m = (r, refl, ground arith, λ n. cc)
      find_row none found h m = absurd (cc)
      find_row (some r) none h m = absurd m

  rewrite_tail :
      (id : ClusterId) (g : Cluster → Cluster) (change : PersistedCluster → PersistedCluster)
      → IsChange change g
      → (json : String) (w' : W) → Sees w' t
      → some json ≡ Option.map (λ r. r.data_json) (by_id (codec.ulid_to_string id) t.rows)
      → Post Sees
          (Rewrites id g)
          (λ _ t'. t' ≡ t)
          (continue (lift (map_err serde (codec.from_str json)) w') λ persisted.
            lift (map_err serde (codec.to_string (change persisted))) >>= λ updated_json.
            on_err db (conn.update_data updated_json (codec.ulid_to_string id)))
  rewrite_tail id g change is_change json w' seen' e = elim (Result-cases (codec.from_str json)) [
    | inr (source, bad) ↦ rw bad (record { ends = (t, seen', refl) })
    | inl (p, good) ↦ rw good (elim (Result-cases (codec.to_string (change p))) [
      | inr (source, bad) ↦ rw bad (record { ends = (t, seen', refl) })
      | inl (updated, written) ↦ rw written (
          weaken (on_err db (conn.update_data updated (codec.ulid_to_string id)) w')
            (λ _ t' same.
              let (r, found, same_json, exists) = found_row id json e in
              (
                exists,
                subst (λ t'. Both (Decodes codec) t'.rows (map (at_id id g) cs)) (sym same)
                    (update-shows codec laws id g change is_change updated t.rows cs r p shown
                      (c_laws.primary_key w t seen) found (rw same_json good)
                      (laws.json_round_trip (change p) updated written)),
              ))
            (λ _ t' same. same)
            (on_err-Post db (conn.update_data updated (codec.ulid_to_string id)) w'
              (λ _ t' same. same)
              (c_laws.update_data_lem updated (codec.ulid_to_string id) w' t seen')))
    ])
  ]

  pub rewrite_row_writes :
      (id : ClusterId) (g : Cluster → Cluster) (change : PersistedCluster → PersistedCluster)
      → IsChange change g
      → Post Sees (Rewrites id g) (λ _ t'. t' ≡ t) (rewrite_row conn codec id change w)
  unfolding rewrite_row
  rewrite_row_writes id g change is_change =
      with_conn-Post conn c_laws codec _ w t seen (λ _. refl)
        λ w' seen'.
          bind-Post (on_err db (conn.select_data_by_id (codec.ulid_to_string id)) w') _
            (λ json w'' t' s found.
              rewrite_tail id g change is_change json w'' (subst (Sees w'') found.1 s) found.0)
            (λ _ t' same. same)
            (on_err-Post db (conn.select_data_by_id (codec.ulid_to_string id)) w'
              (λ _ t' same. same)
              (c_laws.select_data_by_id_lem (codec.ulid_to_string id) w' t seen'))

  -- Where the table shows the clusters `cs`, a state update that succeeds has found a row under the
  -- id, and leaves a table that shows `cs` with that row's state replaced and every other row and
  -- field as it was; one that fails leaves the table unchanged.
  pub update_state_writes :
      (id : ClusterId) (s : ClusterState)
      → Post Sees
          (λ _ t'. (find_any id cs ≢ none) × Both (Decodes codec) t'.rows (set_state id s cs))
          (λ _ t'. t' ≡ t)
          (update_state conn codec id s w)
  unfolding update_state
  update_state_writes id s = rewrite_row_writes id _ _ (state-IsChange s)

  pub set_worker_writes :
      (id : ClusterId) (u : WorkerUser)
      → Post Sees
          (λ _ t'. (find_any id cs ≢ none) × Both (Decodes codec) t'.rows (Rows.set_worker id u cs))
          (λ _ t'. t' ≡ t)
          (set_worker conn codec id u w)
  unfolding set_worker
  set_worker_writes id u = rewrite_row_writes id _ _ (worker-IsChange u)

  pub delete_writes :
      (id : ClusterId)
      → Post Sees
          (λ _ t'. Both (Decodes codec) t'.rows (remove id cs))
          (λ _ t'. t' ≡ t)
          (delete conn codec id w)
  unfolding delete
  delete_writes id =
      with_conn-Post conn c_laws codec _ w t seen (λ _. refl)
        λ w' seen'.
          weaken (on_err db (conn.delete_by_id (codec.ulid_to_string id)) w')
            (λ _ t' same.
              subst (λ t'. Both (Decodes codec) t'.rows (remove id cs)) (sym same)
                (delete-shows codec laws t.rows cs shown id))
            (λ _ t' same. same)
            (on_err-Post db (conn.delete_by_id (codec.ulid_to_string id)) w' (λ _ t' same. same)
              (c_laws.delete_by_id_lem (codec.ulid_to_string id) w' t seen'))
