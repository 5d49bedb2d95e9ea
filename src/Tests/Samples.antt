-- ===== src/Tests/Samples.antt =====
-- Values that the tests share.
use app_salmon.Base.{ℕ, some, false, List, [], ◌∷◌, arith}
use app_salmon.Base.Int.{pos}
use app_salmon.Domain.Time.{seconds, TimeDelta}
use app_salmon.Domain.Ids.{WorkerUser}
use app_salmon.Domain.ServiceKind.{ServiceSpec, postgres, ConnectionInfo, of_postgres}
use app_salmon.Storage.Allocation.{IsAllocated}
use app_salmon.Domain.Cluster.{Cluster, ClusterState, spawning, ready, deleting, user_requested}

abbrev pub spec : ServiceSpec
spec = record { kind = postgres; pgvector = false }

abbrev pub hour : TimeDelta
hour = seconds (pos 3600)

abbrev pub worker : WorkerUser
worker = record { name = "alice"; uid = 1001; gid = 1001 }

abbrev pub connection : ConnectionInfo
connection = of_postgres (record {
  host = "localhost";
  port = 5432;
  dbname = "app";
  user = "app";
  password = record { expose = "secret" };
})

abbrev pub cluster_at : ℕ → ClusterState → ℕ → Cluster
cluster_at id state slot = record {
  id = id;
  owner = "alice";
  service = spec;
  requested_ttl = hour;
  requested_at = pos 0;
  state = state;
  worker = some worker;
  slot = slot;
}

-- A spawning cluster, one whose time is up, and one that is being deleted.
abbrev pub young : Cluster
young = cluster_at 1 (spawning (pos 0)) 0

abbrev pub old : Cluster
old = cluster_at 2 (ready (pos 1) (pos 5) connection) 1

abbrev pub doomed : Cluster
doomed = cluster_at 3 (deleting (pos 4) user_requested) 2

abbrev pub three_rows : List Cluster
three_rows = young ∷ old ∷ doomed ∷ []

pub three_rows-IsAllocated : IsAllocated 4 three_rows
three_rows-IsAllocated = ground arith
