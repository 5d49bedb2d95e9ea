-- ===== src/Tests/Storing.antt =====
-- The theorems about storage, the lifecycle and archives, applied in concrete worlds.
use app_salmon.Base.{
  ℕ, ◌<◌, ◌≡◌, ◌⊎◌, refl, ok, err, none, some, List, [], ◌∷◌, ◌++◌, map, true, false, arith,
}
use app_salmon.Base.Int.{pos}
use app_salmon.Base.Post.{Post}
use app_salmon.Domain.Cluster.{
  Cluster, ClusterState, spawning, deleting, ClusterEvent, spawn_succeeded, delete_requested,
  user_requested,
}
use app_salmon.Errors.{invalid_transition}
use app_salmon.Lifecycle.{transition}
use app_salmon.Lifecycle.Laws.{
  rank, Applies, transition-Applies, Reaches, here, next, Reaches-advances,
}
use app_salmon.Service.Registry.{TaskRegistry, is_cancelled, register, cancel, unregister}
use app_salmon.Service.Registry.Laws.{
  Operation, registers, cancels, unregisters, operate_all, IsRegistry, cancel_only_own,
}
use app_salmon.Storage.Persisted.{to_persisted, restore_cluster}
use app_salmon.Storage.Persisted.RoundTrip.{restore-to_persisted}
use app_salmon.Storage.Port.{IsRepository}
use app_salmon.Storage.Slots.{contains, free_slot, free_slot_least}
use app_salmon.Storage.Sql.{Tables, Row}
use app_salmon.Storage.Sqlite.{sqlite_repository, try_insert_if_under_quota}
use app_salmon.Storage.Sqlite.Contract.{Holds, sqlite_repository-IsRepository}
use app_salmon.Storage.Sqlite.Insert.{Inserted, Unchanged, insert_writes}
use app_salmon.Storage.Sqlite.View.{Decodes}
use app_salmon.Tar.{TarLimits, Entry, regular, directory, Archive, validate_and_extract}
use app_salmon.Tar.Limits.{IsArchive, Fits, validate_and_extract-Post}
use app_salmon.Tests.Disk.{Sees, conn, codec, conn-IsConnection, codec-IsCodec}
use app_salmon.Tests.Samples.{connection, young, doomed}

sqlite_repository-IsRepository_example :
    IsRepository (Holds Sees codec) (sqlite_repository conn codec)
sqlite_repository-IsRepository_example =
    sqlite_repository-IsRepository conn conn-IsConnection codec codec-IsCodec

-- A new cluster, and the table that holds it.
abbrev fresh : Cluster
fresh = record young { worker = none }

abbrev row : Row
row = record { id = "1"; owner = "alice"; data_json = "" }

abbrev full : Tables
full = record { rows = row ∷ []; saved = [] }

fresh-Decodes : Decodes codec row fresh
fresh-Decodes = record {
  same_id = refl;
  same_owner = refl;
  stored = to_persisted fresh;
  parses = unfold to_persisted in refl;
  restores = restore-to_persisted fresh refl;
}

insert_writes_example :
    Post Sees
      (Inserted conn conn-IsConnection codec codec-IsCodec fresh 2
        (record { rows = []; saved = [] })
        []
        tt)
      (Unchanged conn conn-IsConnection codec codec-IsCodec fresh 2
        (record { rows = []; saved = [] })
        []
        tt)
      (try_insert_if_under_quota conn codec fresh 2 (none, none))
insert_writes_example =
    insert_writes conn conn-IsConnection codec codec-IsCodec fresh 2
      (record { rows = []; saved = [] }) [] tt (none, none) (omega arith) refl refl

restore-to_persisted_example : restore_cluster 3 "alice" (to_persisted doomed) ≡ doomed
restore-to_persisted_example = restore-to_persisted doomed refl

free_slot_least_example :
    (s : ℕ) × (free_slot (0 ∷ 2 ∷ []) 3 ≡ some s)
    × (s < 3)
    × (contains (0 ∷ 2 ∷ []) s ≡ false)
    × ((j : ℕ) → j < s → contains (0 ∷ 2 ∷ []) j ≡ true)
free_slot_least_example = free_slot_least (0 ∷ 2 ∷ []) 3 (omega arith)

abbrev up : ClusterEvent
up = spawn_succeeded (pos 1) (pos 5) connection

abbrev down : ClusterEvent
down = delete_requested (pos 4) user_requested

transition-Applies_example :
    (Applies (deleting (pos 4) user_requested) up
      × ((s' : ClusterState) × (transition (deleting (pos 4) user_requested) up ≡ ok s')))
    ⊎ (¬ (Applies (deleting (pos 4) user_requested) up)
        × (transition (deleting (pos 4) user_requested) up
            ≡ err (invalid_transition (deleting (pos 4) user_requested) up)))
transition-Applies_example = transition-Applies (deleting (pos 4) user_requested) up

spawned_and_deleted : Reaches (spawning (pos 0)) (deleting (pos 4) user_requested)
unfolding transition
spawned_and_deleted = next down (next up here refl) refl

Reaches-advances_example :
    (deleting (pos 4) user_requested ≡ spawning (pos 0))
    ⊎ (rank (spawning (pos 0)) < rank (deleting (pos 4) user_requested))
Reaches-advances_example = Reaches-advances (spawning (pos 0)) spawned_and_deleted

-- An archive of two entries, over the list of the entries that were unpacked.
abbrev dir : Entry
dir = record { entry_type = directory; size = ok 0; path = ok "project" }

abbrev file : Entry
file = record { entry_type = regular; size = ok 700; path = ok "project/seed.sql" }

abbrev archive : Archive (List Entry)
archive = record {
  entries = λ bytes. ok (ok dir ∷ ok file ∷ ok file ∷ []);
  unpack_in = λ e dest w. (ok true, w ++ e ∷ []);
  set_permissions = λ p mode w. (ok tt, w);
}

archive-IsArchive : IsArchive (λ w es. w ≡ es) archive
archive-IsArchive = record {
  unpack_in_lem = λ e dest w es h. record { ends = (w ++ e ∷ [], refl, λ i. h i ++ e ∷ []) };
  set_permissions_lem = λ p mode w es h. record { ends = (es, h, refl) };
}

abbrev limits : TarLimits
limits = record { max_entry_bytes = 1024; max_total_bytes = 1024 }

validate_and_extract-Post_example :
    Post
      (λ w es. w ≡ es)
      (λ _ es. Fits limits es × (archive.entries [] ≡ ok (map ok es)))
      (λ _ es. Fits limits es)
      (validate_and_extract archive limits "/srv/staging/alice/slot-0" [] [])
validate_and_extract-Post_example =
    validate_and_extract-Post archive archive-IsArchive limits "/srv/staging/alice/slot-0" [] []
      (omega arith) refl

-- A registry where cluster 5 was cancelled and cluster 6 is being spawned.
abbrev registry : TaskRegistry
registry = record { tokens = (6, 1) ∷ []; fresh = 2; cancelled = 0 ∷ [] }

registry-IsRegistry : IsRegistry registry
registry-IsRegistry = ground arith

abbrev others : List Operation
others = cancels 6 ∷ unregisters 6 ∷ registers 8 ∷ []

cancel_only_own_example :
    (is_cancelled (register 7 registry).0 (operate_all others (register 7 registry).1) ≡ false)
    × (is_cancelled (register 7 registry).0 (cancel 7 (operate_all others (register 7 registry).1))
        ≡ true)
    × (is_cancelled
          (register 7 registry).0
          (cancel 7 (unregister 7 (operate_all others (register 7 registry).1)))
        ≡ false)
cancel_only_own_example = cancel_only_own 7 registry others registry-IsRegistry (ground arith)
