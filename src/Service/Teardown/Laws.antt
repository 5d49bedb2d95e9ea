-- ===== src/Service/Teardown/Laws.antt =====
-- What src/service/teardown_task.rs leaves, whichever of its steps fail.
use app_salmon.Base.{◌≡◌, refl, ok, err, Option, none, some, List, Result}
use app_salmon.Base.Post.{Post}
use app_salmon.Base.Task.{Keeps}
use app_salmon.Domain.Ids.{WorkerUser}
use app_salmon.Domain.ServiceKind.{ServiceKind}
use app_salmon.Domain.Cluster.{Cluster}
use app_salmon.Errors.{RepositoryError}
use app_salmon.Ports.{ClusterBackend}
use app_salmon.Service.Contract.{IsTaskDeps}
use app_salmon.Service.Deps.{TaskDeps}
use app_salmon.Service.Teardown.{teardown_backend, wipe_directory, teardown}
use app_salmon.Storage.Rows.{remove}

module _ {W : Type 0} {Holds : W → List Cluster → Type 0} (deps : TaskDeps W)
    (laws : IsTaskDeps Holds deps) where
  backend-Keeps :
      (k : ServiceKind) (c : Cluster) (b : Option (ClusterBackend W))
      → deps.backends k ≡ b
      → Keeps Holds (teardown_backend deps b c)
  unfolding teardown_backend
  backend-Keeps k c none e w cs h = h
  backend-Keeps k c (some b) e w cs h = laws.teardown_keeps k b e c.id w cs h

  wipe-Keeps : (u : Option WorkerUser) (c : Cluster) → Keeps Holds (wipe_directory deps u c)
  unfolding wipe_directory
  wipe-Keeps none c w cs h = h
  wipe-Keeps (some u) c w cs h = laws.run_as_keeps u _ w cs h

  -- The row's end: it is gone exactly if the delete went through.
  abbrev pub Gone :
      Cluster → List Cluster → Result RepositoryError (Unit {0}) → List Cluster → Type 0
  Gone c cs (ok _) cs' = cs' ≡ remove c.id cs
  Gone c cs (err _) cs' = cs' ≡ cs

  gone :
      (c : Cluster) (cs : List Cluster) (p : Result RepositoryError (Unit {0}) × W)
      → Post Holds (λ _ cs'. cs' ≡ remove c.id cs) (λ _ cs'. cs' ≡ cs) p
      → (cs' : List Cluster) × Holds p.1 cs' × Gone c cs p.0 cs'
  gone c cs (ok _, w) h = h.ends
  gone c cs (err _, w) h = h.ends

  -- Whatever the backend's teardown and the wipe of the directory answer, the task goes on to delete
  -- the cluster's row, with the rows as they were at its start: the row is gone if that delete
  -- succeeds, and every row is in place if it fails. The other ports do not touch the rows.
  pub teardown_post :
      (c : Cluster) (w : W) (cs : List Cluster)
      → Holds w cs
      → (w' : W) × Holds w' cs
        × ((teardown deps c w).1 ≡ (deps.repository.delete c.id w').1)
        × ((cs' : List Cluster) × Holds (teardown deps c w).1 cs'
            × Gone c cs (deps.repository.delete c.id w').0 cs')
  unfolding teardown
  teardown_post c w cs h =
      let w1 = (teardown_backend deps (deps.backends c.service.kind) c w).1 in
      let h1 : Holds w1 cs = backend-Keeps c.service.kind c _ refl w cs h in
      let w2 = (wipe_directory deps c.worker c w1).1 in
      let h2 : Holds w2 cs = wipe-Keeps c.worker c w1 cs h1 in
      (
        w2,
        h2,
        refl,
        gone c cs (deps.repository.delete c.id w2) (laws.stores.delete_lem c.id w2 cs h2),
      )
