-- ===== src/Storage/Rows.antt =====
-- The contents of the store as a list of clusters, and what each operation of the trait
-- `ClusterRepository` (src/ports/repository.rs) does to it.
pub mod Laws
use app_salmon.Base.{
  ℕ, Bool, ◌&&◌, not, Option, List, map, length, keep, find, some, ◌==◌, text_eq, if◌then◌else◌,
}
use app_salmon.Domain.Ids.{ClusterId, ClientId, WorkerUser}
use app_salmon.Domain.Cluster.{ClusterState, Cluster}

abbrev pub has_id : ClusterId → Cluster → Bool
has_id id c = c.id == id

abbrev pub has_owner : ClientId → Cluster → Bool
has_owner owner c = text_eq c.owner owner

abbrev pub find_owned : ClusterId → ClientId → List Cluster → Option Cluster
find_owned id owner = find (λ c. has_id id c && has_owner owner c)

abbrev pub find_any : ClusterId → List Cluster → Option Cluster
find_any id = find (has_id id)

abbrev pub of_owner : ClientId → List Cluster → List Cluster
of_owner owner = keep (has_owner owner)

abbrev pub with_state : ClusterId → ClusterState → Cluster → Cluster
with_state id s c = if has_id id c then record c { state = s } else c

abbrev pub set_state : ClusterId → ClusterState → List Cluster → List Cluster
set_state id s = map (with_state id s)

abbrev pub with_worker : ClusterId → WorkerUser → Cluster → Cluster
with_worker id u c = if has_id id c then record c { worker = some u } else c

abbrev pub set_worker : ClusterId → WorkerUser → List Cluster → List Cluster
set_worker id u = map (with_worker id u)

abbrev pub remove : ClusterId → List Cluster → List Cluster
remove id = keep (λ c. not (has_id id c))
