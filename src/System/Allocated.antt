-- ===== src/System/Allocated.antt =====
-- No sequence of requests and background tasks breaks the quota, hands out a directory twice, or
-- reuses an id: src/service over a repository that keeps its contract.
use app_salmon.Base.{
  Result, ok, err, ℕ, ◌≤◌, ◌≡◌, ◌⊎◌, inl, inr, sym, subst, List, [], ◌∷◌, length, All,
}
use app_salmon.Base.Task.{Task, Keeps}
use app_salmon.Base.Stays.{Stays}
use app_salmon.Base.Post.{Post}
use app_salmon.Domain.Ids.{ClusterId, ClientId, WorkerUser}
use app_salmon.Domain.Cluster.{Cluster, ClusterState}
use app_salmon.Service.ClusterService.{ClusterService}
use app_salmon.Service.ClusterService.Laws.{IsClusterService}
use app_salmon.Service.Contract.{IsTaskDeps}
use app_salmon.Service.Deps.{TaskDeps}
use app_salmon.Service.SpawnTask.{Cancellation}
use app_salmon.Storage.Allocation.{
  IsAllocated, set_state-IsAllocated, set_worker-IsAllocated, remove-IsAllocated,
  Inserts-IsAllocated,
}
use app_salmon.Storage.Allocation.Bound.{quota_bound}
use app_salmon.Storage.Persisted.RoundTrip.{IsWhole}
use app_salmon.Storage.Port.{ClusterRepository, IsRepository}
use app_salmon.Storage.Rows.{of_owner, set_worker}
use app_salmon.System.{
  Command, reconcile, create_cluster, show_cluster, list_clusters, delete_cluster, spawn_cluster,
  teardown_cluster, reap, perform, perform_all,
}
use app_salmon.System.Guarded.{GuardedTasks, GuardedService}
use app_salmon.System.Guarded.Service.{
  create_stays, info_stays, list_stays, request_delete_stays, run_once_stays,
}
use app_salmon.System.Guarded.Tasks.{teardown_stays, reconciliation_stays}
use app_salmon.System.Guarded.Spawn.{spawn_stays}

-- A spawn that is dropped in its write of the worker may still write it.
pub record IsCancellation {W : Type 0} (Holds : W → List Cluster → Type 0) (cancel : Cancellation W)
    : Type 0 where
  pub interrupted_lem :
      (w : W) (cs : List Cluster)
      → Holds w cs
      → (cs' : List Cluster) × Holds (cancel.interrupted w).1 cs'
        × ((cs' ≡ cs) ⊎ ((id : ClusterId) × (u : WorkerUser) × (cs' ≡ set_worker id u cs)))

-- A TTL that comes from the API is a whole number of seconds.
abbrev pub Asks : Command → Type 0
Asks (create_cluster owner spec ttl) = IsWhole ttl
Asks _ = Unit

module _ {W : Type 0} (Holds : W → List Cluster → Type 0) (limit : ℕ) where
  abbrev pub Allocated : W → Type 0
  Allocated w = (cs : List Cluster) × Holds w cs × IsAllocated limit cs

  Keeps-stays : {A : Type 0} (m : Task W A) → Keeps Holds m → Stays Allocated m
  Keeps-stays m k w (cs, h, a) = (cs, k w cs h, a)

  -- An operation after which the rows are allocated, on each way to end.
  Post-Allocated :
      {E A : Type 0} {Q : A → List Cluster → Type 0} {R : E → List Cluster → Type 0}
      (p : Result E A × W)
      → ((a : A) (cs : List Cluster) → Q a cs → IsAllocated limit cs)
      → ((e : E) (cs : List Cluster) → R e cs → IsAllocated limit cs)
      → Post Holds Q R p
      → Allocated p.1
  Post-Allocated (ok a, w) f g h = let (cs, k, q) = h.ends in (cs, k, f a cs q)
  Post-Allocated (err e, w) f g h = let (cs, k, r) = h.ends in (cs, k, g e cs r)

  module _ {E A : Type 0} (p : Result E A × W) (cs : List Cluster) (a : IsAllocated limit cs) where
    read_Allocated :
        {Q : A → Type 0}
        → Post Holds (λ x cs'. Q x × (cs' ≡ cs)) (λ _ cs'. cs' ≡ cs) p
        → Allocated p.1
    read_Allocated =
        Post-Allocated p (λ _ cs' q. subst (IsAllocated limit) (sym q.1) a)
          (λ _ cs' q. subst (IsAllocated limit) (sym q) a)

    write_Allocated :
        {P : Type 0} (cs' : List Cluster)
        → IsAllocated limit cs'
        → Post Holds (λ _ x. P × (x ≡ cs')) (λ _ x. x ≡ cs) p
        → Allocated p.1
    write_Allocated cs' a' =
        Post-Allocated p (λ _ x q. subst (IsAllocated limit) (sym q.1) a')
          (λ _ x q. subst (IsAllocated limit) (sym q) a)

  module _ (r : ClusterRepository W) (laws : IsRepository Holds r) where
    get_any_stays : (id : ClusterId) → Stays Allocated (r.get_any id)
    get_any_stays id w (cs, h, a) =
        read_Allocated (r.get_any id w) cs a (laws.get_any_lem id w cs h)

    get_owned_stays : (id : ClusterId) (owner : ClientId) → Stays Allocated (r.get_owned id owner)
    get_owned_stays id owner w (cs, h, a) =
        read_Allocated (r.get_owned id owner w) cs a (laws.get_owned_lem id owner w cs h)

    list_by_owner_stays : (owner : ClientId) → Stays Allocated (r.list_by_owner owner)
    list_by_owner_stays owner w (cs, h, a) =
        read_Allocated (r.list_by_owner owner w) cs a (laws.list_by_owner_lem owner w cs h)

    list_all_stays : Stays Allocated r.list_all
    list_all_stays w (cs, h, a) = read_Allocated (r.list_all w) cs a (laws.list_all_lem w cs h)

    update_state_stays : (id : ClusterId) (s : ClusterState) → Stays Allocated (r.update_state id s)
    update_state_stays id s w (cs, h, a) =
        write_Allocated (r.update_state id s w) cs a _ (set_state-IsAllocated limit id s cs a)
          (laws.update_state_lem id s w cs h)

    set_worker_stays : (id : ClusterId) (u : WorkerUser) → Stays Allocated (r.set_worker id u)
    set_worker_stays id u w (cs, h, a) =
        write_Allocated (r.set_worker id u w) cs a _ (set_worker-IsAllocated limit id u cs a)
          (laws.set_worker_lem id u w cs h)

    delete_stays : (id : ClusterId) → Stays Allocated (r.delete id)
    delete_stays id w (cs, h, a) =
        Post-Allocated (r.delete id w)
          (λ _ x q. subst (IsAllocated limit) (sym q) (remove-IsAllocated limit id cs a))
          (λ _ x q. subst (IsAllocated limit) (sym q) a) (laws.delete_lem id w cs h)

  deps-GuardedTasks : (deps : TaskDeps W) → IsTaskDeps Holds deps → GuardedTasks Allocated deps
  deps-GuardedTasks deps laws = record {
    get_any = get_any_stays deps.repository laws.stores;
    list_all = list_all_stays deps.repository laws.stores;
    update_state = update_state_stays deps.repository laws.stores;
    set_worker = set_worker_stays deps.repository laws.stores;
    delete = delete_stays deps.repository laws.stores;
    now = Keeps-stays deps.clock.now laws.clock_keeps;
    run_as = λ u c. Keeps-stays (deps.privileged_exec.run_as u c) (laws.run_as_keeps u c);
    spawn =
        λ k b e id u slot s. Keeps-stays (b.spawn id u slot s) (laws.spawn_keeps k b e id u slot s);
    backend_teardown = λ k b e id. Keeps-stays (b.teardown id) (laws.teardown_keeps k b e id);
    is_alive = λ k b e id. Keeps-stays (b.is_alive id) (laws.is_alive_keeps k b e id);
    create_dir_all = λ p. Keeps-stays (deps.files.create_dir_all p) (laws.create_dir_keeps p);
    set_permissions =
        λ p m. Keeps-stays (deps.files.set_permissions p m) (laws.permissions_keep p m);
    remove_dir_all = λ p. Keeps-stays (deps.files.remove_dir_all p) (laws.remove_dir_keeps p);
    blocking = Keeps-stays deps.files.blocking laws.blocking_keeps;
    unpack_in = λ e d. Keeps-stays (deps.archive.unpack_in e d) (laws.unpack_keeps e d);
    set_entry_permissions =
        λ p m. Keeps-stays (deps.archive.set_permissions p m) (laws.entry_permissions_keep p m);
  }

  interrupted_stays :
      (cancel : Cancellation W) → IsCancellation Holds cancel → Stays Allocated cancel.interrupted
  interrupted_stays cancel laws w (cs, h, a) =
      let (cs', h', change) = laws.interrupted_lem w cs h in
      (
        cs',
        h',
        elim change [
          | inl same ↦ subst (IsAllocated limit) (sym same) a
          | inr (id, u, same) ↦
              subst (IsAllocated limit) (sym same) (set_worker-IsAllocated limit id u cs a)
        ],
      )

module _ {W : Type 0} {Holds : W → List Cluster → Type 0} (service : ClusterService W)
    (deps : TaskDeps W) (cancel : Cancellation W) (s_laws : IsClusterService Holds service)
    (d_laws : IsTaskDeps Holds deps) (c_laws : IsCancellation Holds cancel) where
  abbrev quota : ℕ
  quota = service.limits.max_clusters_per_user

  service-GuardedService : GuardedService (Allocated Holds quota) service
  service-GuardedService = record {
    insert = λ c whole w (cs, h, a).
        Post-Allocated Holds quota (service.repository.try_insert_if_under_quota c quota w)
          (λ o cs' q. Inserts-IsAllocated c quota cs cs' o q a)
          (λ _ cs' q. subst (IsAllocated quota) (sym q) a)
          (s_laws.stores.insert_lem c quota w cs s_laws.quota_u32 whole h);
    get_owned = get_owned_stays Holds quota service.repository s_laws.stores;
    list_by_owner = list_by_owner_stays Holds quota service.repository s_laws.stores;
    update_state = update_state_stays Holds quota service.repository s_laws.stores;
    now = Keeps-stays Holds quota service.clock.now s_laws.clock_keeps;
    cluster_id = Keeps-stays Holds quota service.secrets.cluster_id s_laws.secrets_keep;
  }

  perform_stays :
      (c : Command) → Asks c → Stays (Allocated Holds quota) (perform service deps cancel c)
  perform_stays reconcile a = reconciliation_stays deps (deps-GuardedTasks Holds quota deps d_laws)
  perform_stays (create_cluster owner spec ttl) a =
      create_stays service service-GuardedService owner spec ttl a
  perform_stays (show_cluster id owner) a = info_stays service service-GuardedService id owner
  perform_stays (list_clusters owner) a = list_stays service service-GuardedService owner
  perform_stays (delete_cluster id owner reason) a =
      request_delete_stays service service-GuardedService id owner reason
  perform_stays (spawn_cluster c tar) a =
      spawn_stays deps (deps-GuardedTasks Holds quota deps d_laws) cancel c tar
        (interrupted_stays Holds quota cancel c_laws)
  perform_stays (teardown_cluster c) a =
      teardown_stays deps (deps-GuardedTasks Holds quota deps d_laws) c
  perform_stays (reap grace) a =
      run_once_stays service service-GuardedService deps grace
        (deps-GuardedTasks Holds quota deps d_laws)

  perform_all_stays :
      (commands : List Command)
      → All Asks commands
      → Stays (Allocated Holds quota) (perform_all service deps cancel commands)
  unfolding perform_all
  perform_all_stays [] asks w i = i
  perform_all_stays (c ∷ cs) (a, asks) w i = perform_all_stays cs asks _ (perform_stays c a w i)

  -- Whatever requests arrive and whatever background tasks run between them, and whichever of their
  -- steps fail or are cancelled: rows that start pairwise distinct in id, distinct in slot within a
  -- client and with every slot below the quota stay so, and so no client ever has more rows than
  -- the quota. The repository keeps its contract, nothing else writes its rows, and TTLs are whole
  -- seconds.
  pub perform_all-IsAllocated :
      (commands : List Command) (w : W) (cs : List Cluster)
      → All Asks commands
      → Holds w cs
      → IsAllocated quota cs
      → (cs' : List Cluster) × Holds (perform_all service deps cancel commands w).1 cs'
        × IsAllocated quota cs'
        × ((owner : ClientId) → length (of_owner owner cs') ≤ quota)
  perform_all-IsAllocated commands w cs asks h a =
      let (cs', h', a') = perform_all_stays commands asks w (cs, h, a) in
      (cs', h', a', λ owner. quota_bound owner quota cs' a')
