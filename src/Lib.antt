-- ===== src/Lib.antt =====
-- App Salmon: a service that hands out short-lived PostgreSQL and Supabase clusters. A client asks for
-- a cluster over HTTP; the row of the cluster goes through a lifecycle (spawning, ready or failed,
-- deleting) in an SQLite file; background tasks bring the containers up and down.
--
-- The parts, and the files that model them:
--   Domain/*            src/domain/cluster.rs, src/domain/ids.rs, src/domain/service_kind.rs and
--                       src/redacted.rs: the cluster row, its state, events, ids, secrets. A time is a
--                       signed number of nanoseconds (Domain/Time).
--   Errors              the error types of the ports and of the operations; the error of another
--                       library is its text.
--   Lifecycle           `transition` of src/domain/cluster.rs. Lifecycle/Laws has the states that
--                       sequences of events reach.
--   Storage/Port, Rows  the trait of src/ports/repository.rs as a record of operations, `Rows` as what
--                       each does to a list of clusters, `IsRepository` as the contract.
--   Storage/Allocation  the condition on the rows of the store: distinct ids, distinct slots within a
--                       client, slots below the quota; Allocation/Bound has the quota that follows.
--   Storage/Slots       the choice of a slot in src/adapters/sqlite_repository.rs.
--   Storage/Persisted   the JSON mirror types of that file and the conversions both ways.
--   Storage/Sql         what that file uses of rusqlite, serde_json and ulid: operations, and their
--                       documented behaviour as named laws.
--   Storage/Sqlite      the operations of that file. View relates a table to a list of clusters;
--                       Reads, Writes, UsedSlots and Insert hold the proofs; Contract is the
--                       refinement.
--   Ports, Workers      the other ports and src/client_workers.rs.
--   Tar                 src/domain/tar_validation.rs over the entries of an archive.
--   Service/*           src/service: ClusterService (cluster_service.rs), TtlReaper (ttl_reaper.rs),
--                       Teardown (teardown_task.rs), Reconciliation (reconciliation.rs), SpawnTask
--                       (spawn_task.rs), Deps and Registry (deps.rs), LogRotation
--                       (log_rotation.rs); Contract is what the tasks rely on.
--   Auth                src/auth/mod.rs; Auth/Hashing is src/auth/hashing.rs.
--   Config              src/config.rs: the settings, their validation and the client registry.
--   Http/*              src/http: Responses, Multipart and Handlers (handlers.rs), Server and Serve
--                       (mod.rs, with the extractor of the caller); ApiErrors is src/error.rs.
--   Containers          src/ports/container_runtime.rs; Containers/Contract is what the backends rely
--                       on.
--   Backends/*          src/backends: HealthWait (health_wait.rs), Postgres (postgres.rs) and Supabase
--                       (supabase.rs; Specs is `build_specs`, Config the generated files).
--   Adapters/*          src/adapters: DockerBollard (docker_bollard.rs; Status reads an inspect
--                       response, Runtime is the adapter, Engines what it relies on of the engine),
--                       SystemUsers (system_users.rs; Passwd reads back a passwd file) and SudoExec
--                       (sudo_exec.rs; Argv is what reaches sudo).
--   System              the requests and tasks together, as a list of commands. System/Guarded carries
--                       an invariant from the ports to the operations, System/Allocated is the
--                       invariant of the rows.
--   Tests               concrete worlds: a repository in memory, a disk with room for one row, a daemon,
--                       a log directory and a passwd file.
--   Base                shared types and lemmas. `Action` is what an `async fn` with a `Result` does to
--                       the world, `Task` what one without does; `Post` and `Stays` are their proof
--                       rules.
--
-- Everything outside a function is a world `W`, and each port is a record of functions on it. So the
-- tasks call the ports as the code does, and a theorem says what the ports are relied on for: the
-- repository keeps its contract, the others leave the rows alone. The queries answer in any order and
-- any statement may fail. A transaction that is not committed is rolled back by the connection.
--
-- All functions are structurally recursive and use no fuel but `decimal` and two loops (below). The
-- fuel of `decimal` is the number itself plus one, and a number has no more digits than that. The quota
-- is a `u32` and the sizes in an archive are `u64` with the saturating addition written out; the limit
-- on the total is below the largest `u64`, since at that limit the saturating sum no longer exceeds it.
--
-- A cancelled spawn stops at one of its awaits; before each one, `Cancellation.interrupted` says
-- whether it does, and is what a step dropped half way does to the world. The commands of System run
-- one after another: a delete between the last read and the write of a spawn is not among them.
--
-- A health wait asks at most `rounds` times: every turn but the last sleeps 500 ms, so one more turn
-- than the timeout has intervals, and one for the first look, brings the clock to the deadline. The
-- clock is read in nanoseconds and is relied on to advance by what is slept.
--
-- The loop over a directory runs on a bound of the entries that its stream has left, plus one, since
-- each entry lowers the bound.
--
-- Not modelled: the routes and serialisation that axum and serde generate, the OpenAPI document, the
-- timers of the reaper and of log rotation, opening the database and its migrations, the wiring of the
-- process, the adapters of the clock, of the random source and of the file system, and all logging.
-- Hashing, the signing of tokens, the TOML parser, the Docker client, the database clients and the
-- running of processes are parameters.
pub mod Base
pub mod Domain
pub mod Errors
pub mod Lifecycle
pub mod Storage
pub mod Ports
pub mod Workers
pub mod Tar
pub mod Auth
pub mod Config
pub mod Containers
pub mod Backends
pub mod Adapters
pub mod Http
pub mod Service
pub mod System
pub mod Tests
