-- ===== src/Tests/Memory.antt =====
-- A repository in memory, with the other ports, over a world that is the list of rows.
use app_salmon.Base.{
  ℕ, ◌<◌, ◌≡◌, ◌≢◌, refl, sym, ◌∙◌, subst, Option, none, some, List, [], ◌∷◌, ◌++◌, true, false,
  Result, ok, err, length, leb, if◌then◌else◌, Bool-cases, inl, inr, arith,
}
use app_salmon.Base.Int.{pos}
use app_salmon.Base.Action.{Action}
use app_salmon.Base.Post.{Post}
use app_salmon.Domain.Ids.{ClusterId, WorkerUser}
use app_salmon.Domain.ServiceKind.{ServiceKind, ServiceSpec, postgres, supabase}
use app_salmon.Domain.Cluster.{Cluster}
use app_salmon.Errors.{RepositoryError, db, corrupt_row, backend_spawn_failed}
use app_salmon.Domain.Time.{seconds}
use app_salmon.Ports.{ClusterBackend}
use app_salmon.Service.ClusterService.{ClusterService}
use app_salmon.Service.ClusterService.Laws.{IsClusterService}
use app_salmon.Service.Contract.{IsTaskDeps}
use app_salmon.Service.Deps.{TaskDeps}
use app_salmon.Service.SpawnTask.{Cancellation}
use app_salmon.System.Allocated.{IsCancellation}
use app_salmon.Storage.Port.{
  InsertOutcome, inserted, quota_exceeded, ClusterRepository, IsRepository, Inserts,
}
use app_salmon.Storage.Rows.{find_owned, find_any, of_owner, set_state, remove}
use app_salmon.Storage.Rows
use app_salmon.Storage.Slots.{free_slot, free_slot_sound, free_slot_total}
use app_salmon.Storage.Sqlite.UsedSlots.{slots, All-unused, length-slots}
use app_salmon.Tests.Samples.{worker, connection}
use mathlib.Core.List.{Permᴰ}

abbrev pub World : Type 0
World = List Cluster

abbrev pub Holds : World → List Cluster → Type 0
Holds w cs = w ≡ cs

abbrev place :
    Cluster → World → Option Cluster → Option ℕ → Result RepositoryError InsertOutcome × World
place c w (some _) slot = (err (db "id taken"), w)
place c w none none = (err (corrupt_row "no slot"), w)
place c w none (some slot) = (ok (inserted slot), w ++ record c { slot = slot } ∷ [])

abbrev insert : Cluster → ℕ → Action World RepositoryError InsertOutcome
insert c limit w =
    if leb limit (length (of_owner c.owner w))
    then (ok (quota_exceeded (length (of_owner c.owner w))), w)
    else place c w (find_any c.id w) (free_slot (slots (of_owner c.owner w)) limit)

abbrev write : (World → World) → Option Cluster → Action World RepositoryError (Unit {0})
write f none w = (err (db "no row"), w)
write f (some _) w = (ok tt, f w)

abbrev pub memory_repository : ClusterRepository World
memory_repository = record {
  try_insert_if_under_quota = insert;
  get_owned = λ id owner w. (ok (find_owned id owner w), w);
  get_any = λ id w. (ok (find_any id w), w);
  list_by_owner = λ owner w. (ok (of_owner owner w), w);
  list_all = λ w. (ok w, w);
  update_state = λ id s w. write (set_state id s) (find_any id w) w;
  set_worker = λ id u w. write (Rows.set_worker id u) (find_any id w) w;
  delete = λ id w. (ok tt, remove id w);
}

write-Post :
    (f : World → World) (o : Option Cluster) (w : World)
    → Post Holds (λ _ cs'. (o ≢ none) × (cs' ≡ f w)) (λ _ cs'. cs' ≡ w) (write f o w)
write-Post f none w = record { ends = (w, refl, refl) }
write-Post f (some c) w = record { ends = (f w, refl, ((λ e. cc), refl)) }

place-Post :
    (c : Cluster) (limit : ℕ) (w : World) (o : Option Cluster)
    → o ≡ find_any c.id w
    → length (of_owner c.owner w) < limit
    → Post Holds
        (Inserts c limit w)
        (λ _ cs'. cs' ≡ w)
        (place c w o (free_slot (slots (of_owner c.owner w)) limit))
place-Post c limit w (some d) e under = record { ends = (w, refl, refl) }
place-Post c limit w none e under =
    let (slot, found) =
      free_slot_total (slots (of_owner c.owner w)) limit
        (omega (arith, length-slots (of_owner c.owner w), under)) in
    let (below, free, _) = free_slot_sound (slots (of_owner c.owner w)) limit slot found in
    rw found (record {
      ends = (
        w ++ record c { slot = slot } ∷ [],
        refl,
        (under, below, All-unused (of_owner c.owner w) slot free, sym e, refl),
      );
    })

insert-Post :
    (c : Cluster) (limit : ℕ) (w : World)
    → Post Holds (Inserts c limit w) (λ _ cs'. cs' ≡ w) (insert c limit w)
insert-Post c limit w = elim (Bool-cases (leb limit (length (of_owner c.owner w)))) [
  | inl e ↦ rw e (record { ends = (w, refl, (ground (arith, e), omega arith, refl)) })
  | inr e ↦ rw e (place-Post c limit w (find_any c.id w) refl (ground (arith, e)))
]

perm_refl : (xs : List Cluster) → Permᴰ xs xs
perm_refl [] = Permᴰ.nil
perm_refl (x ∷ xs) = Permᴰ.cons refl (perm_refl xs)

pub memory-IsRepository : IsRepository Holds memory_repository
memory-IsRepository = record {
  insert_lem = λ c limit w cs small whole e.
      subst (λ cs. Post Holds (Inserts c limit cs) (λ _ cs'. cs' ≡ cs) (insert c limit w)) e
        (insert-Post c limit w);
  get_owned_lem =
      λ id owner w cs e. record { ends = (cs, e, (λ i. find_owned id owner (e i), refl)) };
  get_any_lem = λ id w cs e. record { ends = (cs, e, (λ i. find_any id (e i), refl)) };
  list_by_owner_lem = λ owner w cs e. record {
    ends =
        (cs, e, (subst (λ x. Permᴰ (of_owner owner w) (of_owner owner x)) e (perm_refl _), refl));
  };
  list_all_lem = λ w cs e. record { ends = (cs, e, (subst (Permᴰ w) e (perm_refl w), refl)) };
  update_state_lem = λ id s w cs e.
      subst
        (λ cs.
          Post Holds (λ _ cs'. (find_any id cs ≢ none) × (cs' ≡ set_state id s cs))
            (λ _ cs'. cs' ≡ cs) (memory_repository.update_state id s w))
        e (write-Post (set_state id s) (find_any id w) w);
  set_worker_lem = λ id u w cs e.
      subst
        (λ cs.
          Post Holds (λ _ cs'. (find_any id cs ≢ none) × (cs' ≡ Rows.set_worker id u cs))
            (λ _ cs'. cs' ≡ cs) (memory_repository.set_worker id u w))
        e (write-Post (Rows.set_worker id u) (find_any id w) w);
  delete_lem = λ id w cs e. record { ends = (remove id w, refl, λ i. remove id (e i)) };
}

-- The clock stands at 10 nanoseconds, and the next id is 9.
abbrev pub service : ClusterService World
service = record {
  repository = memory_repository;
  clock = record { now = λ w. (pos 10, w) };
  secrets = record { cluster_id = λ w. (9, w); db_password = λ len w. ("secret", w) };
  limits = record {
    min_ttl = seconds (pos 60);
    max_ttl = seconds (pos 7200);
    max_clusters_per_user = 4;
  };
}

pub service-IsClusterService : IsClusterService Holds service
service-IsClusterService = record {
  stores = memory-IsRepository;
  clock_keeps = λ w cs h. h;
  secrets_keep = λ w cs h. h;
  quota_u32 = omega arith;
}

-- A backend whose teardown fails.
abbrev pub backend : ClusterBackend World
backend = record {
  kind = postgres;
  worker_subdirs = [];
  spawn = λ id u slot s w. (ok connection, w);
  teardown = λ id w. (err (backend_spawn_failed "daemon unreachable"), w);
  is_alive = λ id w. (ok true, w);
}

abbrev backends : ServiceKind → Option (ClusterBackend World)
backends postgres = some backend
backends supabase = none

abbrev pub deps : TaskDeps World
deps = record {
  repository = memory_repository;
  client_workers = ("alice", worker) ∷ [];
  privileged_exec = record { run_as = λ u c w. (ok (record { stdout = ""; stderr = "" }), w) };
  backends = backends;
  clock = record { now = λ w. (pos 10, w) };
  worker_data_dir_base = "/srv/workers";
  tar_staging_dir_base = "/srv/staging";
  tar_limits = record { max_entry_bytes = 1024; max_total_bytes = 4096 };
  files = record {
    create_dir_all = λ p w. (ok tt, w);
    set_permissions = λ p m w. (ok tt, w);
    remove_dir_all = λ p w. (ok tt, w);
    blocking = λ w. (ok tt, w);
  };
  archive = record {
    entries = λ bytes. ok [];
    unpack_in = λ e d w. (ok true, w);
    set_permissions = λ p m w. (ok tt, w);
  };
}

abbrev Same : ClusterBackend World → Type 0
Same b =
    (id : ClusterId) (w : World)
    → ((b.teardown id w).1 ≡ w)
      × ((b.is_alive id w).1 ≡ w)
      × ((u : WorkerUser) (slot : ℕ) (s : ServiceSpec) → (b.spawn id u slot s w).1 ≡ w)

backends-Same : (k : ServiceKind) (b : ClusterBackend World) → backends k ≡ some b → Same b
backends-Same postgres b e =
    let same : backend ≡ b = ground (arith, e) in
    subst (λ x. Same x) same (λ id w. (refl, refl, λ u slot s. refl))
backends-Same supabase b e = absurd (cc)

pub deps-IsTaskDeps : IsTaskDeps Holds deps
deps-IsTaskDeps = record {
  stores = memory-IsRepository;
  clock_keeps = λ w cs h. h;
  run_as_keeps = λ u c w cs h. h;
  spawn_keeps =
      λ k b e id u slot s w cs h. (let (_, _, p) = backends-Same k b e id w in p u slot s) ∙ h;
  teardown_keeps = λ k b e id w cs h. (backends-Same k b e id w).0 ∙ h;
  is_alive_keeps = λ k b e id w cs h. (let (_, p, _) = backends-Same k b e id w in p) ∙ h;
  create_dir_keeps = λ p w cs h. h;
  permissions_keep = λ p m w cs h. h;
  remove_dir_keeps = λ p w cs h. h;
  blocking_keeps = λ w cs h. h;
  unpack_keeps = λ e d w cs h. h;
  entry_permissions_keep = λ p m w cs h. h;
}

-- No token is ever cancelled.
abbrev pub cancel : Cancellation World
cancel = record { interrupted = λ w. (false, w) }

pub cancel-IsCancellation : IsCancellation Holds cancel
cancel-IsCancellation = record { interrupted_lem = λ w cs h. (cs, h, inl refl) }
