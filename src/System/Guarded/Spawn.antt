-- ===== src/System/Guarded/Spawn.antt =====
-- An invariant that the primitive steps keep is kept by src/domain/tar_validation.rs and
-- src/service/spawn_task.rs.
use app_salmon.System.Guarded.{GuardedTasks}
use app_salmon.System.Guarded.Tasks.{teardown_stays}
use app_salmon.Base.{
  ℕ, suc, String, Option, none, some, List, [], ◌∷◌, Bool, true, false, Result, ok, err, map_err,
  ◌≡◌, refl,
}
use app_salmon.Base.Action.{Action, on_err, lift}
use app_salmon.Base.Stays.{Stays, continue_stays}
use app_salmon.Domain.Ids.{WorkerUser}
use app_salmon.Domain.ServiceKind.{ServiceKind, ConnectionInfo}
use app_salmon.Domain.Cluster.{Cluster, ClusterState, spawning, ready, failed, deleting}
use app_salmon.Errors.{
  ClusterError, RepositoryError, repository, Source, client_worker, prepare, backend_spawn_failed,
}
use app_salmon.Ports.{ClusterBackend, CommandOutput, adopt_staged_tree, prepare_worker_dir}
use app_salmon.Service.Deps.{TaskDeps}
use app_salmon.Service.SpawnTask
use app_salmon.Service.SpawnTask.{
  Cancellation, Stop, cancelled, failed_with, adopt_extracted, extract_blocking, adopt_staged,
  adopt_project_tar, unless, awaits, prepare_all, adopt_optional, spawn_as, spawn_with, spawn_on,
  do_spawn, race, permit, prepare_targets, write_state, persist_outcome, settle, recheck, conclude,
}
use app_salmon.Base.Paths.{join}
use app_salmon.Workers.{worker_data_dir}
use app_salmon.Tar.{
  Entry, TarValidationError, read, extract, entry_path_for_display, check_entry, usize_max,
  fix_permissions, unpack_entry, extract_entries, validate_and_extract,
}

module _ {W : Type 0} {I : W → Type 0} (deps : TaskDeps W) (g : GuardedTasks I deps) where
  fix_permissions_stays :
      (dest : String) (n : ℕ) (e : Entry) (b : Bool)
      → Stays I (fix_permissions deps.archive deps.tar_limits dest n e b)
  unfolding fix_permissions
  fix_permissions_stays dest n e false w i = i
  fix_permissions_stays dest n e true w i =
      continue_stays I (lift (map_err (read n) e.path) w) _ i
        λ path w i. g.set_entry_permissions _ _ w i

  unpack_entry_stays :
      (dest : String) (n : ℕ) (e : Entry)
      → Stays I (unpack_entry deps.archive deps.tar_limits dest n e)
  unfolding unpack_entry
  unpack_entry_stays dest n e w i =
      continue_stays I
        (on_err (extract n (entry_path_for_display e)) (deps.archive.unpack_in e dest) w) _
        (g.unpack_in e dest w i) λ b w i. fix_permissions_stays dest n e b w i

  extract_entries_stays :
      (dest : String) (n total : ℕ) (es : List (Result Source Entry))
      → Stays I (extract_entries deps.archive deps.tar_limits dest n total es)
  unfolding extract_entries
  extract_entries_stays dest n total [] w i = i
  extract_entries_stays dest n total (found ∷ rest) w i =
      continue_stays I (lift (map_err (read n) found) w) _ i λ e w i.
        continue_stays I (lift (check_entry deps.tar_limits n total e) w) _ i λ total' w i.
          continue_stays I (unpack_entry deps.archive deps.tar_limits dest n e w) _
            (unpack_entry_stays dest n e w i)
            λ _ w i. extract_entries_stays dest (suc n) total' rest w i

  validate_and_extract_stays :
      (dest : String) (bytes : List ℕ)
      → Stays I (validate_and_extract deps.archive deps.tar_limits dest bytes)
  unfolding validate_and_extract
  validate_and_extract_stays dest bytes w i =
      continue_stays I (lift (map_err (read usize_max) (deps.archive.entries bytes)) w) _ i
        λ es w i. extract_entries_stays dest 0 0 es w i

  extract_blocking_stays :
      (staging : String) (bytes : List ℕ) → Stays I (extract_blocking deps staging bytes)
  unfolding extract_blocking
  extract_blocking_stays staging bytes w i =
      continue_stays I (deps.files.blocking w) _ (g.blocking w i)
        λ _ w i. validate_and_extract_stays staging bytes w i

  adopt_extracted_stays :
      (u : WorkerUser) (staging dest : String)
      (r : Result Source (Result TarValidationError (Unit {0})))
      → Stays I (adopt_extracted deps u staging dest r)
  unfolding adopt_extracted
  adopt_extracted_stays u staging dest (ok (ok _)) w i =
      continue_stays I
        (on_err (λ e. client_worker (prepare e))
          (deps.privileged_exec.run_as u (adopt_staged_tree staging dest)) w)
        _ (g.run_as u _ w i) λ _ w i. i
  adopt_extracted_stays u staging dest (ok (err _)) w i = i
  adopt_extracted_stays u staging dest (err _) w i = i

  adopt_staged_stays :
      (u : WorkerUser) (staging dest : String) (bytes : List ℕ)
      → Stays I (adopt_staged deps u staging dest bytes)
  unfolding adopt_staged
  adopt_staged_stays u staging dest bytes w i =
      g.remove_dir_all staging _
        (adopt_extracted_stays u staging dest _ _ (extract_blocking_stays staging bytes w i))

  adopt_project_tar_stays :
      (u : WorkerUser) (slot : ℕ) (dest : String) (bytes : List ℕ)
      → Stays I (adopt_project_tar deps u slot dest bytes)
  unfolding adopt_project_tar
  adopt_project_tar_stays u slot dest bytes w i =
      let staging = worker_data_dir deps.tar_staging_dir_base u slot in
      continue_stays I
        (on_err (λ _. backend_spawn_failed "failed to prepare staging directory")
          (deps.files.create_dir_all staging) w)
        _ (g.create_dir_all staging w i)
        λ _ w i.
          continue_stays I (permit deps (join deps.tar_staging_dir_base u.name) w) _
            (g.set_permissions _ _ w i)
            λ _ w i.
              continue_stays I (permit deps staging w) _ (g.set_permissions _ _ w i)
                λ _ w i. adopt_staged_stays u staging dest bytes w i

  module _ (cancel : Cancellation W) (c_stays : Stays I cancel.interrupted) where
    unless_stays :
        {A : Type 0} (m : Action W ClusterError A) (b : Bool)
        → Stays I m
        → Stays I (unless deps cancel m b)
    unfolding unless
    unless_stays m true h w i = i
    unless_stays m false h w i = h w i

    awaits_stays :
        {A : Type 0} (m : Action W ClusterError A) → Stays I m → Stays I (awaits deps cancel m)
    unfolding awaits
    awaits_stays m h w i = unless_stays m _ h _ (c_stays w i)

    prepare_all_stays :
        (u : WorkerUser) (targets : List String) → Stays I (prepare_all deps cancel u targets)
    unfolding prepare_all
    prepare_all_stays u [] w i = i
    prepare_all_stays u (t ∷ ts) w i =
        let m : Action W ClusterError CommandOutput =
          on_err (λ e. client_worker (prepare e))
            (deps.privileged_exec.run_as u (prepare_worker_dir t)) in
        continue_stays I (awaits deps cancel m w) _ (awaits_stays m (g.run_as u _) w i)
          λ _ w i. prepare_all_stays u ts w i

    adopt_optional_stays :
        (u : WorkerUser) (slot : ℕ) (base : String) (tar : Option (List ℕ))
        → Stays I (adopt_optional deps cancel u slot base tar)
    unfolding adopt_optional
    adopt_optional_stays u slot base none w i = i
    adopt_optional_stays u slot base (some bytes) w i =
        awaits_stays _ (adopt_project_tar_stays u slot _ bytes) w i

    spawn_as_stays :
        (k : ServiceKind) (b : ClusterBackend W)
        → deps.backends k ≡ some b
        → (u : WorkerUser) (c : Cluster) (tar : Option (List ℕ))
        → Stays I (spawn_as deps cancel b u c tar)
    unfolding spawn_as
    spawn_as_stays k b e u c tar w i =
        let base = worker_data_dir deps.worker_data_dir_base u c.slot in
        let targets = prepare_targets deps cancel base b.worker_subdirs in
        continue_stays I
          (awaits deps cancel (on_err repository (deps.repository.set_worker c.id u)) w) _
          (awaits_stays (on_err repository (deps.repository.set_worker c.id u))
            (g.set_worker c.id u) w i)
          λ _ w i.
            continue_stays I (prepare_all deps cancel u targets w) _
              (prepare_all_stays u targets w i)
              λ _ w i.
                continue_stays I (adopt_optional deps cancel u c.slot base tar w) _
                  (adopt_optional_stays u c.slot base tar w i)
                  λ _ w i.
                    awaits_stays (b.spawn c.id u c.slot c.service)
                      (g.spawn k b e c.id u c.slot c.service) w i

    spawn_with_stays :
        (k : ServiceKind) (b : ClusterBackend W)
        → deps.backends k ≡ some b
        → (c : Cluster) (tar : Option (List ℕ)) (r : Result ClusterError WorkerUser)
        → Stays I (spawn_with deps cancel c tar b r)
    unfolding spawn_with
    spawn_with_stays k b e c tar (err _) w i = i
    spawn_with_stays k b e c tar (ok u) w i =
        spawn_as_stays k b e u (record c { worker = some u }) tar w i

    spawn_on_stays :
        (k : ServiceKind) (b : Option (ClusterBackend W))
        → deps.backends k ≡ b
        → (c : Cluster) (tar : Option (List ℕ)) → Stays I (spawn_on deps cancel c tar b)
    unfolding spawn_on
    spawn_on_stays k none e c tar w i = i
    spawn_on_stays k (some b) e c tar w i = spawn_with_stays k b e c tar _ w i

    race_stays :
        (c : Cluster) (tar : Option (List ℕ)) (b : Bool) → Stays I (race deps cancel c tar b)
    unfolding race do_spawn
    race_stays c tar true w i = i
    race_stays c tar false w i = spawn_on_stays c.service.kind _ refl c tar w i

  write_state_stays :
      (c : Cluster) (r : Result ClusterError ClusterState) → Stays I (write_state deps c r)
  unfolding write_state
  write_state_stays c (ok s) w i = g.update_state c.id s w i
  write_state_stays c (err _) w i = i

  persist_outcome_stays :
      (c : Cluster) (s : ClusterState) (r : Result ClusterError ConnectionInfo)
      → Stays I (persist_outcome deps c s r)
  unfolding persist_outcome
  persist_outcome_stays c s (ok _) w i = write_state_stays c _ _ (g.now w i)
  persist_outcome_stays c s (err _) w i = write_state_stays c _ _ (g.now w i)

  settle_stays :
      (c : Cluster) (r : Result ClusterError ConnectionInfo) (s : ClusterState)
      → Stays I (settle deps c r s)
  unfolding settle
  settle_stays c r (deleting _ _) w i = teardown_stays deps g c w i
  settle_stays c r (spawning t) w i = persist_outcome_stays c (spawning t) r w i
  settle_stays c r (ready a d x) w i = persist_outcome_stays c (ready a d x) r w i
  settle_stays c r (failed t m) w i = persist_outcome_stays c (failed t m) r w i

  recheck_stays :
      (c : Cluster) (r : Result ClusterError ConnectionInfo)
      (found : Result RepositoryError (Option Cluster))
      → Stays I (recheck deps c r found)
  unfolding recheck
  recheck_stays c r (ok (some d)) w i = settle_stays c r d.state w i
  recheck_stays c r (ok none) w i = teardown_stays deps g c w i
  recheck_stays c r (err _) w i = settle_stays c r c.state w i

  conclude_stays : (p : Result Stop ConnectionInfo × Cluster) → Stays I (conclude deps p)
  unfolding conclude
  conclude_stays (err cancelled, c) w i = teardown_stays deps g c w i
  conclude_stays (err (failed_with e), c) w i = recheck_stays c (err e) _ _ (g.get_any c.id w i)
  conclude_stays (ok x, c) w i = recheck_stays c (ok x) _ _ (g.get_any c.id w i)

  pub spawn_stays :
      (cancel : Cancellation W) (c : Cluster) (tar : Option (List ℕ))
      → Stays I cancel.interrupted
      → Stays I (SpawnTask.run deps cancel c tar)
  unfolding SpawnTask.run
  spawn_stays cancel c tar k w i = conclude_stays _ _ (race_stays cancel k c tar _ _ (k w i))
