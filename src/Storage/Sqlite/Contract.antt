-- ===== src/Storage/Sqlite/Contract.antt =====
-- `SqliteClusterRepository` of src/adapters/sqlite_repository.rs implements the trait
-- `ClusterRepository` of src/ports/repository.rs.
use app_salmon.Base.{List, ◌≡◌, refl, subst, sym, Result}
use app_salmon.Base.Post.{Post, review}
use app_salmon.Base.Related.{Both}
use app_salmon.Domain.Cluster.{Cluster}
use app_salmon.Storage.Port.{IsRepository}
use app_salmon.Storage.Sql.{Connection, IsConnection, Codec, IsCodec, Tables}
use app_salmon.Storage.Sqlite.{sqlite_repository}
use app_salmon.Storage.Sqlite.View.{Decodes}
use app_salmon.Storage.Sqlite.Reads.{
  list_all_reads, get_any_reads, get_owned_reads, list_by_owner_reads,
}
use app_salmon.Storage.Sqlite.Writes.{update_state_writes, set_worker_writes, delete_writes}
use app_salmon.Storage.Sqlite.Insert.{insert_writes}

module _ {W : Type 0} (Sees : W → Tables → Type 0) (codec : Codec) where
  -- The world in which the table's rows are the stored forms of the clusters `cs`.
  abbrev pub Holds : W → List Cluster → Type 0
  Holds w cs = (t : Tables) × Sees w t × Both (Decodes codec) t.rows cs

module _ {W : Type 0} {Sees : W → Tables → Type 0} (conn : Connection W)
    (c_laws : IsConnection Sees conn) (codec : Codec) (laws : IsCodec codec) where
  read_review :
      {E A : Type 0} {Q : A → Type 0} (t : Tables) (cs : List Cluster) (p : Result E A × W)
      → Both (Decodes codec) t.rows cs
      → Post Sees (λ a t'. Q a × (t' ≡ t)) (λ _ t'. t' ≡ t) p
      → Post (Holds Sees codec) (λ a cs'. Q a × (cs' ≡ cs)) (λ _ cs'. cs' ≡ cs) p
  read_review {Q = Q} t cs p shown =
      review p
        (λ a w t' seen h. (
          cs,
          (t', seen, subst (λ z. Both (Decodes codec) z.rows cs) (sym h.1) shown),
          (h.0, refl),
        ))
        (λ e w t' seen h.
          (cs, (t', seen, subst (λ z. Both (Decodes codec) z.rows cs) (sym h) shown), refl))

  -- The adapter implements the trait: over a connection and a codec that behave as documented, each
  -- of its eight operations does to the rows what the contract of the port says, where the rows are
  -- the clusters whose stored forms the table holds; and an operation that fails leaves them alone.
  pub sqlite_repository-IsRepository :
      IsRepository (Holds Sees codec) (sqlite_repository conn codec)
  unfolding sqlite_repository
  sqlite_repository-IsRepository = record {
    insert_lem = λ c limit w cs small whole (t, seen, shown).
        review (_) (λ o w' t' seen' (cs', ins, shown'). (cs', (t', seen', shown'), ins))
          (λ e w' t' seen' (fine, shown'). (cs, (t', seen', shown'), refl))
          (insert_writes conn c_laws codec laws c limit t cs shown w small whole seen);
    get_owned_lem = λ id owner w cs (t, seen, shown).
        read_review t cs _ shown
          (get_owned_reads conn c_laws codec laws w t cs seen shown id owner);
    get_any_lem = λ id w cs (t, seen, shown).
        read_review t cs _ shown (get_any_reads conn c_laws codec laws w t cs seen shown id);
    list_by_owner_lem = λ owner w cs (t, seen, shown).
        read_review t cs _ shown
          (list_by_owner_reads conn c_laws codec laws w t cs seen shown owner);
    list_all_lem = λ w cs (t, seen, shown).
        read_review t cs _ shown (list_all_reads conn c_laws codec laws w t cs seen shown);
    update_state_lem = λ id s w cs (t, seen, shown).
        review _ (λ _ w' t' seen' (exists, shown'). (_, (t', seen', shown'), (exists, refl)))
          (λ e w' t' seen' same.
            (cs, (t', seen', subst (λ z. Both (Decodes codec) z.rows cs) (sym same) shown), refl))
          (update_state_writes conn c_laws codec laws w t cs seen shown id s);
    set_worker_lem = λ id u w cs (t, seen, shown).
        review _ (λ _ w' t' seen' (exists, shown'). (_, (t', seen', shown'), (exists, refl)))
          (λ e w' t' seen' same.
            (cs, (t', seen', subst (λ z. Both (Decodes codec) z.rows cs) (sym same) shown), refl))
          (set_worker_writes conn c_laws codec laws w t cs seen shown id u);
    delete_lem = λ id w cs (t, seen, shown).
        review _ (λ _ w' t' seen' shown'. (_, (t', seen', shown'), refl))
          (λ e w' t' seen' same.
            (cs, (t', seen', subst (λ z. Both (Decodes codec) z.rows cs) (sym same) shown), refl))
          (delete_writes conn c_laws codec laws w t cs seen shown id);
  }
