-- ===== src/Workers.antt =====
-- src/client_workers.rs.
use app_salmon.Base.{
  ℕ, String, Option, none, some, List, [], ◌∷◌, Result, ok_or, text_eq, if◌then◌else◌,
}
use app_salmon.Base.Paths.{join, decimal}
use app_salmon.Domain.Ids.{ClientId, WorkerUser}
use app_salmon.Errors.{ClientWorkerError, unknown_client}
use Prim.Native.String

unfoldable pub worker_data_dir : String → WorkerUser → ℕ → String
worker_data_dir base worker slot = join (join base worker.name) (String.◌++◌ "slot-" (decimal slot))

-- `HashMap<ClientId, WorkerUser>`, as its entries.
abbrev pub ClientWorkers : Type 0
ClientWorkers = List (ClientId × WorkerUser)

abbrev lookup : ClientWorkers → ClientId → Option WorkerUser
lookup [] client = none
lookup ((key, worker) ∷ rest) client =
    let other = lookup rest client in if text_eq key client then some worker else other

unfoldable pub get : ClientWorkers → ClientId → Result ClientWorkerError WorkerUser
get workers client = ok_or (unknown_client client) (lookup workers client)
