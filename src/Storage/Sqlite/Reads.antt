-- ===== src/Storage/Sqlite/Reads.antt =====
-- The queries of src/adapters/sqlite_repository.rs meet the contract of the port.
use app_salmon.Base.{
  String, Option, none, some, List, [], ◌∷◌, map, Result, ok, ◌≡◌, refl, sym, ap, subst, Bool, true,
  ◌&&◌, find, ==_iff, eq_iff, Bool-cases, inl, inr, arith,
}
use app_salmon.Base.Action.{Action, ◌>>=◌, lift, on_err}
use app_salmon.Base.Post.{Post, bind-Post, on_err-Post}
use app_salmon.Base.Related.{Both, Match, Both-perm, Both-map}
use app_salmon.Domain.Ids.{ClusterId, ClientId}
use app_salmon.Domain.Cluster.{Cluster}
use app_salmon.Errors.{RepositoryError, db, task_join, Source}
use app_salmon.Storage.Rows.{has_id, has_owner, find_owned, find_any, of_owner}
use app_salmon.Storage.Sql.{Row, Connection, IsConnection, Codec, IsCodec, Tables, by_owner}
use app_salmon.Storage.Sqlite.{
  from_row, parse_cluster_id, owned_clusters, all_clusters, from_optional_row, with_conn, get_owned,
  get_any, list_by_owner, list_all,
}
use app_salmon.Storage.Sqlite.View.{Decodes, by_id-shows, by_id_owner-shows, by_owner-shows}
use mathlib.Core.List.{Permᴰ}
use mathlib.Core.Option

find-true : {A : Type 0} (p : A → Bool) (xs : List A) (x : A) → find p xs ≡ some x → p x ≡ true
find-true p [] x h = absurd (cc)
find-true p (y ∷ ys) x h = elim (Bool-cases (p y)) [
  | inl e ↦ ground arith
  | inr e ↦ find-true p ys x (ground arith)
]

map-map :
    (owner : ClientId) (found : Option Row)
    → Option.map {B = ClientId × String}
        (λ json. (owner, json))
        (Option.map (λ r. r.data_json) found)
      ≡ Option.map (λ r. (owner, r.data_json)) found
map-map owner none = refl
map-map owner (some r) = refl

pub map-id : {A : Type 0} (xs : List A) → map (λ x. x) xs ≡ xs
map-id [] = refl
map-id (x ∷ xs) = ap (λ ys. x ∷ ys) (map-id xs)

module _ (codec : Codec) (laws : IsCodec codec) where
  pub from_row-Decodes :
      (r : Row) (c : Cluster) → Decodes codec r c → from_row codec c.id c.owner r.data_json ≡ ok c
  unfolding from_row
  from_row-Decodes r c d = rw (d.parses, from_row) (ap ok d.restores)

  from_optional_row-Match :
      (id : ClusterId) (key : Row → ClientId) (found : Option Row) (cluster : Option Cluster)
      → Match (Decodes codec) found cluster
      → ((r : Row) (c : Cluster)
          → cluster ≡ some c
          → Decodes codec r c
          → (c.id ≡ id) × (c.owner ≡ key r))
      → from_optional_row codec id (Option.map (λ r. (key r, r.data_json)) found) ≡ ok cluster
  unfolding from_optional_row
  from_optional_row-Match id key none none m k = refl
  from_optional_row-Match id key (some r) (some c) m k =
      let (same_id, same_owner) = k r c refl m in
      rw (← same_id, ← same_owner, from_row-Decodes r c m)
  from_optional_row-Match id key none (some c) m k = absurd m
  from_optional_row-Match id key (some r) none m k = absurd m

  parse_cluster_id-Decodes :
      (r : Row) (c : Cluster) → Decodes codec r c → parse_cluster_id codec r.id ≡ ok c.id
  unfolding parse_cluster_id
  parse_cluster_id-Decodes r c d = rw (d.same_id, laws.ulid_round_trip c.id)

  all_clusters-Both :
      (rows : List Row) (cs : List Cluster)
      → Both (Decodes codec) rows cs
      → all_clusters codec rows ≡ ok cs
  unfolding all_clusters
  all_clusters-Both [] [] h = refl
  all_clusters-Both (r ∷ rows) (c ∷ cs) (d, h) = rw (
    parse_cluster_id-Decodes r c d,
    d.same_owner,
    from_row-Decodes r c d,
    all_clusters-Both rows cs h,
  )
  all_clusters-Both [] (c ∷ cs) h = absurd h
  all_clusters-Both (r ∷ rows) [] h = absurd h

  -- The two columns that `list_by_owner` selects.
  OwnedDecodes : ClientId → String × String → Cluster → Type 0
  OwnedDecodes owner (id, json) c =
      (r : Row) × Decodes codec r c × (r.id ≡ id) × (r.data_json ≡ json) × (c.owner ≡ owner)

  owned_clusters-Both :
      (owner : ClientId) (rows : List (String × String)) (cs : List Cluster)
      → Both (OwnedDecodes owner) rows cs
      → owned_clusters codec owner rows ≡ ok cs
  unfolding owned_clusters OwnedDecodes
  owned_clusters-Both owner [] [] h = refl
  owned_clusters-Both owner ((id, json) ∷ rows) (c ∷ cs) ((r, d, e, f, g), h) =
      rw (← e, ← f, ← g, parse_cluster_id-Decodes r c d, from_row-Decodes r c d)
        (rw (owned_clusters-Both owner rows cs h))
  owned_clusters-Both owner [] (c ∷ cs) h = absurd h
  owned_clusters-Both owner (r ∷ rows) [] h = absurd h

module _ {W : Type 0} {Sees : W → Tables → Type 0} (conn : Connection W)
    (c_laws : IsConnection Sees conn) where
  -- A closure that keeps its promises keeps them behind `with_conn`.
  pub with_conn-Post :
      {T : Type 0} {Q : T → Tables → Type 0} {R : RepositoryError → Tables → Type 0} (codec : Codec)
      (f : Action W RepositoryError T) (w : W) (t : Tables)
      → Sees w t
      → ((source : Source) → R (task_join source) t)
      → ((w' : W) → Sees w' t → Post Sees Q R (f w'))
      → Post Sees Q R (with_conn conn codec f w)
  unfolding with_conn
  with_conn-Post {R = R} codec f w t h fails k =
      bind-Post (on_err _ conn.lock w) (λ _. f)
        (λ _ w' t' seen same. k w' (subst (Sees w') same seen)) (λ e t' r. r)
        (on_err-Post _ conn.lock w (λ e t' same. subst (R (task_join e)) (sym same) (fails e))
          (c_laws.lock_lem w t h))

  -- A query whose answer converts to one that `Q` describes, and that changes nothing.
  read-Post :
      {X Y : Type 0} (codec : Codec) (query : Action W Source X)
      (convert : X → Result RepositoryError Y) (P : X → Type 0) (Q : Y → Type 0) (w : W)
      (t : Tables)
      → Sees w t
      → ((w' : W) → Sees w' t → Post Sees (λ x t'. P x × (t' ≡ t)) (λ _ t'. t' ≡ t) (query w'))
      → ((x : X) → P x → (y : Y) × (convert x ≡ ok y) × Q y)
      → Post Sees
          (λ y t'. Q y × (t' ≡ t))
          (λ _ t'. t' ≡ t)
          (with_conn conn codec (on_err db query >>= λ x. lift (convert x)) w)
  read-Post codec query convert P Q w t h asks k =
      with_conn-Post codec _ w t h (λ _. refl)
        λ w' seen.
          bind-Post (on_err db query w') (λ x. lift (convert x))
            (λ x w'' t' seen' found.
              let (y, same, q) = k x found.0 in
              rw same (record { ends = (t', seen', (q, found.1)) }))
            (λ e t' r. r) (on_err-Post db query w' (λ e t' r. r) (asks w' seen))

  module _ (codec : Codec) (laws : IsCodec codec) (w : W) (t : Tables) (cs : List Cluster)
      (seen : Sees w t) (shown : Both (Decodes codec) t.rows cs) where
    pub list_all_reads :
        Post Sees (λ listed t'. Permᴰ listed cs × (t' ≡ t)) (λ _ t'. t' ≡ t) (list_all conn codec w)
    unfolding list_all
    list_all_reads =
        read-Post codec conn.select_all (all_clusters codec) (λ rows. Permᴰ rows t.rows)
          (λ listed. Permᴰ listed cs) w t seen (λ w' seen'. c_laws.select_all_lem w' t seen')
          (λ rows moved.
            let (listed, moved', related) = Both-perm (Decodes codec) cs moved shown in
            (listed, all_clusters-Both codec laws rows listed related, moved'))

    pub get_any_reads :
        (id : ClusterId)
        → Post Sees
            (λ found t'. (found ≡ find_any id cs) × (t' ≡ t))
            (λ _ t'. t' ≡ t)
            (get_any conn codec id w)
    unfolding get_any
    get_any_reads id =
        read-Post codec (conn.select_owner_data_by_id (codec.ulid_to_string id))
          (from_optional_row codec id) _ (λ found. found ≡ find_any id cs) w t seen
          (λ w' seen'. c_laws.select_owner_data_by_id_lem (codec.ulid_to_string id) w' t seen')
          (λ x same. (
            find_any id cs,
            rw same (
                from_optional_row-Match codec laws id (λ r. r.owner) _ _
                  (by_id-shows codec laws t.rows cs shown id)
                  (λ r c found d.
                    ((==_iff c.id id).0 (find-true (has_id id) cs c found), sym d.same_owner))),
            refl,
          ))

    -- Where the table shows the clusters `cs`, a lookup by id and owner that succeeds answers with the
    -- cluster of `cs` that has both, or with none if no cluster has; and no lookup changes the table.
    pub get_owned_reads :
        (id : ClusterId) (owner : ClientId)
        → Post Sees
            (λ found t'. (found ≡ find_owned id owner cs) × (t' ≡ t))
            (λ _ t'. t' ≡ t)
            (get_owned conn codec id owner w)
    unfolding get_owned
    get_owned_reads id owner =
        read-Post codec (conn.select_data_by_id_owner (codec.ulid_to_string id) owner)
          (λ found. from_optional_row codec id (Option.map (λ json. (owner, json)) found)) _
          (λ found. found ≡ find_owned id owner cs) w t seen
          (λ w' seen'.
            c_laws.select_data_by_id_owner_lem (codec.ulid_to_string id) owner w' t seen')
          (λ x same. (
            find_owned id owner cs,
            rw (same, map-map owner)
                (from_optional_row-Match codec laws id (λ _. owner) _ _
                  (by_id_owner-shows codec laws t.rows cs shown id owner)
                  (λ r c found d.
                    let test = find-true (λ c. has_id id c && has_owner owner c) cs c found in
                    (
                      (==_iff c.id id).0 (ground (arith, test)),
                      (eq_iff c.owner owner).0 (ground (arith, test)),
                    ))),
            refl,
          ))

    -- Where the table shows the clusters `cs`, a listing by owner that succeeds answers with exactly
    -- the owner's clusters of `cs`, in some order; and no listing changes the table.
    pub list_by_owner_reads :
        (owner : ClientId)
        → Post Sees
            (λ listed t'. Permᴰ listed (of_owner owner cs) × (t' ≡ t))
            (λ _ t'. t' ≡ t)
            (list_by_owner conn codec owner w)
    unfolding list_by_owner
    list_by_owner_reads owner =
        read-Post codec (conn.select_id_data_by_owner owner) (owned_clusters codec owner) _
          (λ listed. Permᴰ listed (of_owner owner cs)) w t seen
          (λ w' seen'. c_laws.select_id_data_by_owner_lem owner w' t seen')
          (λ rows moved.
            let (listed, moved', related) =
              Both-perm (OwnedDecodes codec laws owner) (of_owner owner cs) moved (
                subst
                  (Both (OwnedDecodes codec laws owner)
                    (map (λ r. (r.id, r.data_json)) (by_owner owner t.rows)))
                  (map-id (of_owner owner cs))
                  (Both-map (λ r c. Decodes codec r c × (has_owner owner c ≡ true))
                    (OwnedDecodes codec laws owner) (λ r. (r.id, r.data_json)) (λ c. c)
                    (λ r c d.
                      unfold OwnedDecodes in (r, d.0, refl, refl, (eq_iff c.owner owner).0 d.1))
                    (by_owner owner t.rows) (of_owner owner cs)
                    (by_owner-shows codec laws t.rows cs shown owner))) in
            (listed, owned_clusters-Both codec laws owner rows listed related, moved'))
