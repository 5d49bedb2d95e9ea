-- ===== src/Storage/Persisted/RoundTrip.antt =====
-- What a cluster looks like once it was stored and read back.
use app_salmon.Base.{◌≡◌, refl, ap, Option, none, some}
use app_salmon.Domain.Time.{TimeDelta, seconds, num_seconds}
use app_salmon.Domain.Ids.{WorkerUser}
use app_salmon.Domain.ServiceKind.{ConnectionInfo, of_postgres, of_supabase}
use app_salmon.Domain.Cluster.{ClusterState, spawning, ready, failed, deleting, Cluster}
use app_salmon.Storage.Persisted.{
  persist_connection, restore_connection, persist_state, restore_state, persist_worker,
  restore_worker, to_persisted, restore_cluster,
}
use mathlib.Core.Option

pub restore-persist_connection :
    (c : ConnectionInfo) → restore_connection (persist_connection c) ≡ c
unfolding restore_connection persist_connection
restore-persist_connection (of_postgres info) = refl
restore-persist_connection (of_supabase info) = refl

pub restore-persist_state : (s : ClusterState) → restore_state (persist_state s) ≡ s
unfolding restore_state persist_state
restore-persist_state (spawning t) = refl
restore-persist_state (ready r d c) = ap (ready r d) (restore-persist_connection c)
restore-persist_state (failed t e) = refl
restore-persist_state (deleting t r) = refl

restore-persist_worker :
    (w : Option WorkerUser) → Option.map restore_worker (Option.map persist_worker w) ≡ w
restore-persist_worker none = refl
restore-persist_worker (some w) = refl

-- A TTL of whole seconds, the only kind that the API makes.
abbrev pub IsWhole : TimeDelta → Type 0
IsWhole ttl = seconds (num_seconds ttl) ≡ ttl

-- A stored cluster whose TTL is a whole number of seconds comes back unchanged: its id and owner
-- from their columns, and every other field, each secret included, from the persisted form.
pub restore-to_persisted :
    (c : Cluster) → IsWhole c.requested_ttl → restore_cluster c.id c.owner (to_persisted c) ≡ c
unfolding restore_cluster to_persisted
restore-to_persisted c whole = λ i. record {
  id = c.id;
  owner = c.owner;
  service = c.service;
  requested_ttl = whole i;
  requested_at = c.requested_at;
  state = restore-persist_state c.state i;
  worker = restore-persist_worker c.worker i;
  slot = c.slot;
}
