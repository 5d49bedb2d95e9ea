-- ===== src/Tests/Requests.antt =====
-- The theorems about src/service, applied to the in-memory world.
use app_salmon.Base.{◌≡◌, ◌≤◌, refl, ok, none, some, List, [], ◌∷◌, length, map_err}
use app_salmon.Base.Int.{pos}
use app_salmon.Base.Post.{Post}
use app_salmon.Domain.Ids.{ClientId}
use app_salmon.Domain.Cluster.{Cluster, user_requested}
use app_salmon.Service.ClusterService.{create, info, request_delete}
use app_salmon.Service.ClusterService.Laws.{
  Created, Refuses, Deleted, Unfound, create-Post, info-Post, request_delete-Post,
}
use app_salmon.Service.SpawnTask.{conclude, failed_with}
use app_salmon.Service.SpawnTask.Laws.{Ends, Knows, conclude_post}
use app_salmon.Service.Reconciliation.{run}
use app_salmon.Service.Reconciliation.Laws.{Midway, run_reconciles}
use app_salmon.Service.Teardown.{teardown}
use app_salmon.Service.Teardown.Laws.{Gone, teardown_post}
use app_salmon.Service.TtlReaper.{run_once}
use app_salmon.Service.TtlReaper.Sweeps.{SweptEnd, run_once_post}
use app_salmon.Storage.Allocation.{IsAllocated}
use app_salmon.Storage.Rows.{of_owner, find_owned}
use app_salmon.System.{
  Command, create_cluster, delete_cluster, spawn_cluster, reap, reconcile, perform_all,
}
use app_salmon.System.Allocated.{perform_all-IsAllocated}
use app_salmon.Tests.Memory.{
  Holds, service, deps, cancel, service-IsClusterService, deps-IsTaskDeps, cancel-IsCancellation,
}
use app_salmon.Tests.Samples.{
  spec, hour, connection, young, doomed, three_rows, three_rows-IsAllocated,
}

abbrev commands : List Command
commands =
    reconcile
    ∷ create_cluster "alice" spec hour
    ∷ spawn_cluster young none
    ∷ delete_cluster 2 "alice" user_requested
    ∷ reap hour
    ∷ []

perform_all-IsAllocated_example :
    (cs' : List Cluster) × Holds (perform_all service deps cancel commands three_rows).1 cs'
    × IsAllocated 4 cs'
    × ((owner : ClientId) → length (of_owner owner cs') ≤ 4)
perform_all-IsAllocated_example =
    perform_all-IsAllocated service deps cancel service-IsClusterService deps-IsTaskDeps
      cancel-IsCancellation commands three_rows three_rows (tt, (refl, (tt, (tt, (tt, tt))))) refl
      three_rows-IsAllocated

create-Post_example :
    Post Holds
      (Created service "alice" spec hour three_rows)
      (λ e cs'. (cs' ≡ three_rows) × Refuses service "alice" hour three_rows e)
      (create service "alice" spec hour three_rows)
create-Post_example =
    create-Post service service-IsClusterService "alice" spec hour three_rows three_rows refl refl

info-Post_example :
    Post Holds
      (λ c cs'. (find_owned 2 "alice" three_rows ≡ some c) × (cs' ≡ three_rows))
      (λ e cs'.
        (cs' ≡ three_rows) × Unfound service service-IsClusterService 2 "alice" three_rows e)
      (info service 2 "alice" three_rows)
info-Post_example = info-Post service service-IsClusterService 2 "alice" three_rows three_rows refl

request_delete-Post_example :
    Post Holds
      (Deleted service service-IsClusterService 1 "alice" three_rows)
      (λ e cs'.
        (cs' ≡ three_rows) × Unfound service service-IsClusterService 1 "alice" three_rows e)
      (request_delete service 1 "alice" user_requested three_rows)
request_delete-Post_example =
    request_delete-Post service service-IsClusterService 1 "alice" user_requested three_rows
      three_rows refl

run_once_post_example :
    SweptEnd service service-IsClusterService deps
      (pos 10)
      hour
      three_rows
      three_rows
      (run_once service deps hour three_rows).1
run_once_post_example =
    run_once_post service service-IsClusterService deps hour 4 three_rows three_rows deps-IsTaskDeps
      three_rows-IsAllocated refl

teardown_post_example :
    (w' : List Cluster) × Holds w' three_rows
    × ((teardown deps doomed three_rows).1 ≡ (deps.repository.delete 3 w').1)
    × ((cs' : List Cluster) × Holds (teardown deps doomed three_rows).1 cs'
        × Gone deps deps-IsTaskDeps doomed three_rows (deps.repository.delete 3 w').0 cs')
teardown_post_example = teardown_post deps deps-IsTaskDeps doomed three_rows three_rows refl

conclude_post_example :
    Ends deps deps-IsTaskDeps doomed
      (ok connection)
      (Knows deps deps-IsTaskDeps doomed three_rows (deps.repository.get_any 3 three_rows).0)
      three_rows
      (conclude deps (map_err failed_with (ok connection), doomed) three_rows).1
conclude_post_example =
    conclude_post deps deps-IsTaskDeps doomed (ok connection) three_rows three_rows refl

run_reconciles_example : Midway deps deps-IsTaskDeps three_rows (run deps three_rows).1
run_reconciles_example =
    run_reconciles deps deps-IsTaskDeps three_rows 4 three_rows three_rows-IsAllocated refl
