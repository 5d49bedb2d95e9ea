-- ===== src/Tests/Disk.antt =====
-- A connection to a table of at most one row, and a codec for the rows of new clusters.
use app_salmon.Base.{
  ℕ, zero, suc, ◌≡◌, refl, sym, ap, ◌∙◌, subst, String, Option, none, some, List, [], ◌∷◌, ◌++◌,
  map, keep, Bool, false, not, ◌&&◌, ◌==◌, text_eq, Result, ok, err, if◌then◌else◌, Bool-cases, inl,
  inr, arith,
}
use app_salmon.Base.Int.{ℤ, pos}
use app_salmon.Base.Action.{Action}
use app_salmon.Base.Post.{Post}
use app_salmon.Domain.ServiceKind.{ServiceKind, postgres}
use app_salmon.Errors.{Source}
use app_salmon.Storage.Persisted.{PersistedCluster, PersistedState, PersistedWorker, spawning}
use app_salmon.Storage.Sql.{
  Row, Connection, IsConnection, Codec, IsCodec, Tables, HasPrimaryKey, by_owner, by_id,
  by_id_owner, with_data,
}
use Prim.Native.String
use Prim.Native.String.{len}
use text.Mathlib.TextPositions.{len-append}
use mathlib.Core.List.{Permᴰ}
use mathlib.Core.Option

abbrev unary : ℕ → String
unary zero = ""
unary (suc n) = String.◌++◌ "1" (unary n)

len-unary : (n : ℕ) → len (unary n) ≡ n
len-unary zero = refl
len-unary (suc n) = omega (arith, len-append "1" (unary n), len-unary n)

-- The stored form of a PostgreSQL cluster for one hour, requested at the epoch, in some slot.
abbrev stored : ℕ → PersistedCluster
stored slot = record {
  service = record { kind = postgres; pgvector = false };
  requested_ttl_secs = pos 3600;
  requested_at = pos 0;
  state = spawning (pos 0);
  worker = none;
  slot = slot;
}

abbrev encode :
    ServiceKind → Bool → ℤ → ℤ → PersistedState → Option PersistedWorker → ℕ → Result Source String
encode postgres false (pos ttl) (pos at) (spawning (pos t)) none slot =
    if (ttl == 3600) && (at == 0) && (t == 0) then ok (unary slot) else err "unsupported"
encode _ _ _ _ _ _ _ = err "unsupported"

abbrev pub codec : Codec
codec = record {
  to_string = λ p.
      encode p.service.kind p.service.pgvector p.requested_ttl_secs p.requested_at p.state p.worker
        p.slot;
  from_str = λ json. ok (stored (len json));
  ulid_to_string = unary;
  ulid_from_string = λ s. ok (len s);
}

encode-stored :
    (k : ServiceKind) (v : Bool) (ttl at : ℤ) (s : PersistedState) (u : Option PersistedWorker)
    (slot : ℕ) (json : String)
    → encode k v ttl at s u slot ≡ ok json
    → stored (len json) ≡ record {
      service = record { kind = k; pgvector = v };
      requested_ttl_secs = ttl;
      requested_at = at;
      state = s;
      worker = u;
      slot = slot;
    }
encode-stored postgres false (pos ttl) (pos at) (spawning (pos t)) none slot json h =
    elim (Bool-cases ((ttl == 3600) && (at == 0) && (t == 0))) [
      | inr e ↦ absurd (cc (e, h))
      | inl e ↦
          let text : unary slot ≡ json = ground (arith, e, h) in
          let number : len json ≡ slot = ap len (sym text) ∙ len-unary slot in
          let a : 3600 ≡ ttl = ground (arith, e) in
          let b : 0 ≡ at = ground (arith, e) in
          let c : 0 ≡ t = ground (arith, e) in
          λ i. record {
            service = record { kind = postgres; pgvector = false };
            requested_ttl_secs = pos (a i);
            requested_at = pos (b i);
            state = spawning (pos (c i));
            worker = none;
            slot = number i;
          }
    ]
encode-stored _ _ _ _ _ _ _ json h = absurd (cc)

pub codec-IsCodec : IsCodec codec
codec-IsCodec = record {
  json_round_trip = λ p json h. ap ok (encode-stored _ _ _ _ _ _ _ json h);
  ulid_round_trip = λ n. ap ok (len-unary n);
}

-- The row, and the row as it was before the transaction.
abbrev pub Disk : Type 0
Disk = Option Row × Option Row

abbrev listed : Option Row → List Row
listed none = []
listed (some r) = r ∷ []

abbrev pub Sees : Disk → Tables → Type 0
Sees (now, before) t = t ≡ record { rows = listed now; saved = listed before }

abbrev insert_row : Row → Action Disk Source (Unit {0})
insert_row r (none, before) = (ok tt, (some r, before))
insert_row r (some q, before) = (err "disk full", (some q, before))

abbrev select_data : String → Action Disk Source String
select_data id (none, before) = (err "no rows", (none, before))
select_data id (some r, before) =
    if text_eq r.id id
    then (ok r.data_json, (some r, before))
    else (err "no rows", (some r, before))

abbrev update_data : String → String → Action Disk Source (Unit {0})
update_data json id (none, before) = (ok tt, (none, before))
update_data json id (some r, before) = (ok tt, (some (with_data json id r), before))

abbrev drop : String → Option Row → Option Row
drop id none = none
drop id (some r) = if text_eq r.id id then none else some r

abbrev pub conn : Connection Disk
conn = record {
  lock = λ w. (ok tt, w);
  begin = λ w. (ok tt, (w.0, w.0));
  commit = λ w. (ok tt, w);
  rollback = λ w. (w.1, w.1);
  insert_row = insert_row;
  select_data_by_owner = λ owner w. (ok (map (λ r. r.data_json) (by_owner owner (listed w.0))), w);
  select_data_by_id_owner =
      λ id owner w. (ok (Option.map (λ r. r.data_json) (by_id_owner id owner (listed w.0))), w);
  select_owner_data_by_id =
      λ id w. (ok (Option.map (λ r. (r.owner, r.data_json)) (by_id id (listed w.0))), w);
  select_id_data_by_owner =
      λ owner w. (ok (map (λ r. (r.id, r.data_json)) (by_owner owner (listed w.0))), w);
  select_all = λ w. (ok (listed w.0), w);
  select_data_by_id = select_data;
  update_data = update_data;
  delete_by_id = λ id w. (ok tt, (drop id w.0, w.1));
}

perm_refl : {A : Type 0} (xs : List A) → Permᴰ xs xs
perm_refl [] = Permᴰ.nil
perm_refl (x ∷ xs) = Permᴰ.cons refl (perm_refl xs)

abbrev view : Disk → Tables
view w = record { rows = listed w.0; saved = listed w.1 }

-- A law about every table that the connection sees is a law about the one it has.
seen :
    (P : Disk → Tables → Type 0)
    → ((w : Disk) → P w (view w))
    → (w : Disk) (t : Tables) → Sees w t
    → P w t
seen P k w t e = subst (P w) (sym e) (k w)

insert_row-Post :
    (r : Row) (w : Disk)
    → Post Sees
        (λ _ t'.
          (by_id r.id (view w).rows ≡ none)
          × (t' ≡ record (view w) { rows = (view w).rows ++ r ∷ [] }))
        (λ _ t'. t' ≡ view w)
        (insert_row r w)
insert_row-Post r (none, before) = record { ends = (_, refl, (refl, refl)) }
insert_row-Post r (some q, before) = record { ends = (_, refl, refl) }

select_data-Post :
    (id : String) (w : Disk)
    → Post Sees
        (λ found t'.
          (some found ≡ Option.map (λ r. r.data_json) (by_id id (view w).rows)) × (t' ≡ view w))
        (λ _ t'. t' ≡ view w)
        (select_data id w)
select_data-Post id (none, before) = record { ends = (_, refl, refl) }
select_data-Post id (some r, before) = elim (Bool-cases (text_eq r.id id)) [
  | inl e ↦ rw e (record { ends = (_, refl, (refl, refl)) })
  | inr e ↦ rw e (record { ends = (_, refl, refl) })
]

update_data-Post :
    (json id : String) (w : Disk)
    → Post Sees
        (λ _ t'. t' ≡ record (view w) { rows = map (with_data json id) (view w).rows })
        (λ _ t'. t' ≡ view w)
        (update_data json id w)
update_data-Post json id (none, before) = record { ends = (_, refl, refl) }
update_data-Post json id (some r, before) = record { ends = (_, refl, refl) }

drop-keep :
    (id : String) (o : Option Row)
    → listed (drop id o) ≡ keep (λ r. not (text_eq r.id id)) (listed o)
drop-keep id none = refl
drop-keep id (some r) = elim (Bool-cases (text_eq r.id id)) [
  | inl e ↦ rw e refl
  | inr e ↦ rw e refl
]

HasPrimaryKey-listed : (o : Option Row) → HasPrimaryKey (listed o)
HasPrimaryKey-listed none = tt
HasPrimaryKey-listed (some r) = (tt, tt)

pub conn-IsConnection : IsConnection Sees conn
conn-IsConnection = record {
  primary_key = seen (λ w t. HasPrimaryKey t.rows) (λ w. HasPrimaryKey-listed w.0);
  lock_lem = λ w t e. record { ends = (t, e, refl) };
  begin_lem =
      seen
        (λ w t.
          Post Sees (λ _ t'. t' ≡ record t { saved = t.rows }) (λ _ t'. t' ≡ t) (conn.begin w))
        (λ w. record { ends = (_, refl, refl) });
  commit_lem = λ w t e. record { ends = (t, e, refl) };
  rollback_lem =
      seen (λ w t. Sees (conn.rollback w) (record { rows = t.saved; saved = t.saved })) (λ w. refl);
  insert_row_lem = λ r.
      seen
        (λ w t.
          Post Sees
            (λ _ t'. (by_id r.id t.rows ≡ none) × (t' ≡ record t { rows = t.rows ++ r ∷ [] }))
            (λ _ t'. t' ≡ t) (conn.insert_row r w))
        (insert_row-Post r);
  select_data_by_owner_lem = λ owner.
      seen
        (λ w t.
          Post Sees
            (λ found t'. Permᴰ found (map (λ r. r.data_json) (by_owner owner t.rows)) × (t' ≡ t))
            (λ _ t'. t' ≡ t) (conn.select_data_by_owner owner w))
        (λ w. record { ends = (view w, refl, (perm_refl _, refl)) });
  select_data_by_id_owner_lem = λ id owner.
      seen
        (λ w t.
          Post Sees
            (λ found t'.
              (found ≡ Option.map (λ r. r.data_json) (by_id_owner id owner t.rows)) × (t' ≡ t))
            (λ _ t'. t' ≡ t) (conn.select_data_by_id_owner id owner w))
        (λ w. record { ends = (view w, refl, (refl, refl)) });
  select_owner_data_by_id_lem = λ id.
      seen
        (λ w t.
          Post Sees
            (λ found t'.
              (found ≡ Option.map (λ r. (r.owner, r.data_json)) (by_id id t.rows)) × (t' ≡ t))
            (λ _ t'. t' ≡ t) (conn.select_owner_data_by_id id w))
        (λ w. record { ends = (view w, refl, (refl, refl)) });
  select_id_data_by_owner_lem = λ owner.
      seen
        (λ w t.
          Post Sees
            (λ found t'.
              Permᴰ found (map (λ r. (r.id, r.data_json)) (by_owner owner t.rows)) × (t' ≡ t))
            (λ _ t'. t' ≡ t) (conn.select_id_data_by_owner owner w))
        (λ w. record { ends = (view w, refl, (perm_refl _, refl)) });
  select_all_lem =
      seen
        (λ w t.
          Post Sees (λ found t'. Permᴰ found t.rows × (t' ≡ t)) (λ _ t'. t' ≡ t)
            (conn.select_all w))
        (λ w. record { ends = (view w, refl, (perm_refl _, refl)) });
  select_data_by_id_lem = λ id.
      seen
        (λ w t.
          Post Sees
            (λ found t'. (some found ≡ Option.map (λ r. r.data_json) (by_id id t.rows)) × (t' ≡ t))
            (λ _ t'. t' ≡ t) (conn.select_data_by_id id w))
        (select_data-Post id);
  update_data_lem = λ json id.
      seen
        (λ w t.
          Post Sees (λ _ t'. t' ≡ record t { rows = map (with_data json id) t.rows })
            (λ _ t'. t' ≡ t) (conn.update_data json id w))
        (update_data-Post json id);
  delete_by_id_lem = λ id.
      seen
        (λ w t.
          Post Sees (λ _ t'. t' ≡ record t { rows = keep (λ r. not (text_eq r.id id)) t.rows })
            (λ _ t'. t' ≡ t) (conn.delete_by_id id w))
        (λ w. record {
          ends = (
            view (drop id w.0, w.1),
            refl,
            λ i. record { rows = drop-keep id w.0 i; saved = listed w.1 },
          );
        });
}
