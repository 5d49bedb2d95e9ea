-- ===== src/Storage/Sqlite/Insert.antt =====
-- `try_insert_if_under_quota` of src/adapters/sqlite_repository.rs meets the contract of the port.
use app_salmon.Base.{
  ℕ, ◌<◌, ◌≤◌, String, Option, none, some, List, [], ◌∷◌, ◌++◌, Result, ok, err, ◌≡◌, ◌≢◌, refl,
  sym, ap, ◌∙◌, subst, false, length, All, All-perm, length-perm, leb, Bool-cases, Result-cases,
  inl, inr, arith,
}
use app_salmon.Base.Action.{on_err}
use app_salmon.Base.Post.{Post, bind-Post, on_err-Post}
use app_salmon.Base.Related.{Both, Match, Both-append}
use app_salmon.Domain.Cluster.{Cluster}
use app_salmon.Errors.{RepositoryError, db, corrupt_row}
use app_salmon.Storage.Persisted.{to_persisted}
use app_salmon.Storage.Persisted.RoundTrip.{IsWhole, restore-to_persisted}
use app_salmon.Storage.Port.{InsertOutcome, inserted, quota_exceeded, Inserts}
use app_salmon.Storage.Rows.{find_any, of_owner}
use app_salmon.Storage.Slots.{free_slot, free_slot_sound, free_slot_total}
use app_salmon.Storage.Sql.{Row, Connection, IsConnection, Codec, IsCodec, Tables, by_id}
use app_salmon.Storage.Sqlite.{
  to_u32, used_slots, store_with_slot, assign_slot, insert_body, close_transaction,
  insert_transaction, try_insert_if_under_quota,
}
use app_salmon.Storage.Sqlite.View.{Decodes, by_id-shows}
use app_salmon.Storage.Sqlite.UsedSlots.{slots, All-unused, length-slots, owner_slots}
use app_salmon.Storage.Sqlite.Reads.{with_conn-Post}
use mathlib.Core.List.{Permᴰ}

-- Every error but "corrupt row".
abbrev pub NotCorrupt : RepositoryError → Type 0
NotCorrupt (corrupt_row _) = ⊥
NotCorrupt _ = Unit

module _ {W : Type 0} {Sees : W → Tables → Type 0} (conn : Connection W)
    (c_laws : IsConnection Sees conn) (codec : Codec) (laws : IsCodec codec) (c : Cluster)
    (limit : ℕ) (t : Tables) (cs : List Cluster) (shown : Both (Decodes codec) t.rows cs) where
  abbrev begun : Tables
  begun = record t { saved = t.rows }

  -- The transaction's body: either the row is committed, or a rollback brings the old rows back.
  abbrev Ended : InsertOutcome → Tables → Type 0
  Ended (inserted slot) t' =
      (cs' : List Cluster) × Inserts c limit cs (inserted slot) cs'
      × Both (Decodes codec) t'.rows cs'
  Ended (quota_exceeded n) t' =
      (limit ≤ n) × (n ≤ length (of_owner c.owner cs)) × (t'.saved ≡ t.rows)

  abbrev Failed : RepositoryError → Tables → Type 0
  Failed e t' = NotCorrupt e × (t'.saved ≡ t.rows)

  abbrev HasRoom : ℕ → Type 0
  HasRoom slot =
      (length (of_owner c.owner cs) < limit)
      × (slot < limit)
      × All (λ d. d.slot ≢ slot) (of_owner c.owner cs)

  fresh_id : by_id (codec.ulid_to_string c.id) t.rows ≡ none → find_any c.id cs ≡ none
  fresh_id e = no_match _ _ e (by_id-shows codec laws t.rows cs shown c.id)
    where
      no_match :
          (o : Option Row) (found : Option Cluster)
          → o ≡ none
          → Match (Decodes codec) o found
          → found ≡ none
      no_match none none n m = refl
      no_match none (some d) n m = absurd m
      no_match (some r) found n m = absurd (cc)

  new_row : ℕ → String → Row
  new_row slot json = record { id = codec.ulid_to_string c.id; owner = c.owner; data_json = json }

  stored_row :
      (slot : ℕ) (json : String)
      → IsWhole c.requested_ttl
      → codec.to_string (to_persisted (record c { slot = slot })) ≡ ok json
      → Decodes codec (new_row slot json) (record c { slot = slot })
  unfolding new_row
  stored_row slot json whole written = record {
    same_id = refl;
    same_owner = refl;
    stored = to_persisted (record c { slot = slot });
    parses = laws.json_round_trip _ json written;
    restores = restore-to_persisted (record c { slot = slot }) whole;
  }

  store-Post :
      (slot : ℕ) (w : W)
      → IsWhole c.requested_ttl
      → HasRoom slot
      → Sees w begun
      → Post Sees Ended Failed (store_with_slot conn codec c slot w)
  unfolding store_with_slot new_row
  store-Post slot w whole (under, below, unused) seen =
      elim (Result-cases (codec.to_string (to_persisted (record c { slot = slot })))) [
        | inr (source, bad) ↦ rw bad (record { ends = (begun, seen, (tt, refl)) })
        | inl (json, written) ↦ rw written (
            bind-Post (on_err db (conn.insert_row (new_row slot json)) w) _
              (λ _ w' t' seen' (fresh, same).
                bind-Post (on_err db conn.commit w') _
                  (λ _ w'' t'' seen'' kept. record {
                    ends = (
                      t'',
                      seen'',
                      (
                        cs ++ record c { slot = slot } ∷ [],
                        (under, below, unused, fresh_id fresh, refl),
                        subst
                            (λ rows.
                              Both (Decodes codec) rows (cs ++ record c { slot = slot } ∷ []))
                            (sym (kept ∙ ap (λ (z : Tables). z.rows) same))
                            (Both-append (Decodes codec) t.rows (new_row slot json ∷ []) cs
                              (record c { slot = slot } ∷ []) shown
                              (stored_row slot json whole written, tt)),
                      ),
                    );
                  })
                  (λ e t'' r. r)
                  (on_err-Post db conn.commit w'
                    (λ e t'' kept. (tt, ap (λ (z : Tables). z.saved) (kept ∙ same)))
                    (c_laws.commit_lem w' t' seen')))
              (λ e t' r. r)
              (on_err-Post db (conn.insert_row (new_row slot json)) w
                (λ e t' same. (tt, ap (λ (z : Tables). z.saved) same))
                (c_laws.insert_row_lem (new_row slot json) w begun seen)))
      ]

  assign-Post :
      (existing : List String) (cs' : List Cluster) (w : W)
      → IsWhole c.requested_ttl
      → Permᴰ cs' (of_owner c.owner cs)
      → used_slots codec existing ≡ slots cs'
      → length (of_owner c.owner cs) < limit
      → Sees w begun
      → Post Sees Ended Failed
          (assign_slot conn codec c (free_slot (used_slots codec existing) limit) w)
  unfolding assign_slot
  assign-Post existing cs' w whole moved slots_eq under seen =
      let enough : length (slots cs') < limit =
        omega (arith, length-slots cs', length-perm moved) in
      let (slot, found) = free_slot_total (slots cs') limit enough in
      let (below, free, _) = free_slot_sound (slots cs') limit slot found in
      rw (slots_eq, found)
        (store-Post slot w whole
          (under, below, All-perm (λ d. d.slot ≢ slot) moved (All-unused cs' slot free)) seen)

  to_u32_le : (n : ℕ) → to_u32 n ≤ n
  to_u32_le n = ground arith

  under_limit : (n : ℕ) → limit < 4294967296 → leb limit (to_u32 n) ≡ false → n < limit
  under_limit n small h = ground arith

  body-Post :
      (w : W)
      → limit < 4294967296
      → IsWhole c.requested_ttl
      → Sees w begun
      → Post Sees Ended Failed (insert_body conn codec c limit w)
  unfolding insert_body assign_slot
  body-Post w small whole seen =
      bind-Post (on_err db (conn.select_data_by_owner c.owner) w) _
        (λ existing w' t' seen' (moved, same).
          let (cs', moved', slots_eq, count) =
            owner_slots codec cs t.rows c.owner existing laws shown moved in
          elim (Bool-cases (leb limit (to_u32 (length existing)))) [
            | inl full ↦ rw full (record {
              ends = (
                t',
                seen',
                (
                  ground (arith, full),
                  omega (arith, to_u32_le (length existing)),
                  ap (λ (z : Tables). z.saved) same,
                ),
              );
            })
            | inr room ↦ rw room (
                assign-Post existing cs' w' whole moved' slots_eq
                  (omega (arith, under_limit (length existing) small room))
                  (subst (Sees w') same seen'))
          ])
        (λ e t' r. r)
        (on_err-Post db (conn.select_data_by_owner c.owner) w
          (λ e t' same. (tt, ap (λ (z : Tables). z.saved) same))
          (c_laws.select_data_by_owner_lem c.owner w begun seen))

  -- What the caller sees of the transaction: the row inserted, or the old rows.
  abbrev pub Inserted : InsertOutcome → Tables → Type 0
  Inserted o t' = (cs' : List Cluster) × Inserts c limit cs o cs' × Both (Decodes codec) t'.rows cs'

  abbrev pub Unchanged : RepositoryError → Tables → Type 0
  Unchanged e t' = NotCorrupt e × Both (Decodes codec) t'.rows cs

  close-Post :
      (p : Result RepositoryError InsertOutcome × W)
      → Post Sees Ended Failed p
      → Post Sees Inserted Unchanged (close_transaction conn codec p)
  unfolding close_transaction
  close-Post (ok (inserted slot), w) h = record { ends = h.ends }
  close-Post (ok (quota_exceeded n), w) h =
      let (t', seen, (full, count, saved)) = h.ends in
      record {
        ends = (
          record { rows = t'.saved; saved = t'.saved },
          c_laws.rollback_lem w t' seen,
          (cs, (full, count, refl), subst (λ rows. Both (Decodes codec) rows cs) (sym saved) shown),
        );
      }
  close-Post (err e, w) h =
      let (t', seen, (fine, saved)) = h.ends in
      record {
        ends = (
          record { rows = t'.saved; saved = t'.saved },
          c_laws.rollback_lem w t' seen,
          (fine, subst (λ rows. Both (Decodes codec) rows cs) (sym saved) shown),
        );
      }

  -- Where the table shows the clusters `cs`, the limit is a `u32` and the TTL is whole seconds: an
  -- insert that reports a slot has put the row in a slot below the limit that no other row of the
  -- owner holds, under an id that is new, while the owner was under quota; one that reports the
  -- quota has found it used up; and one that does neither, or fails, leaves the rows as they were.
  -- The "no free slot" error does not occur.
  pub insert_writes :
      (w : W)
      → limit < 4294967296
      → IsWhole c.requested_ttl
      → Sees w t
      → Post Sees Inserted Unchanged (try_insert_if_under_quota conn codec c limit w)
  unfolding try_insert_if_under_quota insert_transaction
  insert_writes w small whole seen =
      with_conn-Post conn c_laws codec _ w t seen (λ _. (tt, shown))
        λ w' seen'.
          bind-Post (on_err db conn.begin w') _
            (λ _ w'' t' seen'' same.
              close-Post (insert_body conn codec c limit w'')
                (body-Post w'' small whole (subst (Sees w'') same seen'')))
            (λ e t' r. r)
            (on_err-Post db conn.begin w'
              (λ e t' same.
                (tt, subst (λ (z : Tables). Both (Decodes codec) z.rows cs) (sym same) shown))
              (c_laws.begin_lem w' t seen'))
