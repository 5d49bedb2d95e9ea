-- ===== src/Service/SpawnTask/Laws.antt =====
-- What src/service/spawn_task.rs writes once a spawn has ended.
use app_salmon.Base.{
  String, map_err, ◌≢◌, ◌≡◌, ◌⊎◌, inl, inr, refl, sym, subst, true, Result, ok, err, Option, none,
  some, List, arith,
}
use app_salmon.Base.Int.{◌+ℤ◌}
use app_salmon.Base.Post.{Post}
use app_salmon.Domain.Time.{DateTime}
use app_salmon.Domain.ServiceKind.{ConnectionInfo}
use app_salmon.Domain.Cluster.{
  ClusterState, spawning, ready, failed, deleting, Cluster, spawn_succeeded, spawn_failed,
}
use app_salmon.Errors.{ClusterError, RepositoryError}
use app_salmon.Lifecycle.{transition}
use app_salmon.Service.ClusterService.{is_spawning}
use app_salmon.Service.Contract.{IsTaskDeps}
use app_salmon.Service.Deps.{TaskDeps}
use app_salmon.Service.SpawnTask.{
  failed_with, sanitize, write_state, persist_outcome, settle, recheck, conclude,
}
use app_salmon.Service.Teardown.{teardown}
use app_salmon.Service.Teardown.Laws.{Gone, teardown_post}
use app_salmon.Storage.Rows.{find_any, set_state, remove}

-- The state that records how a spawn ended: ready with the backend's connection for the time that
-- was asked for, or failed with a summary that holds no detail of the error.
abbrev pub Records : Cluster → Result ClusterError ConnectionInfo → ClusterState → Type 0
Records c (ok connection) s = (at : DateTime) × (s ≡ ready at (at +ℤ c.requested_ttl) connection)
Records c (err e) s = (at : DateTime) × (s ≡ failed at (sanitize e))

module _ {W : Type 0} {Holds : W → List Cluster → Type 0} (deps : TaskDeps W)
    (laws : IsTaskDeps Holds deps) where
  -- The rows are as they were, or without the cluster's row, or the row records the spawn's end.
  abbrev pub Settled :
      Cluster → Result ClusterError ConnectionInfo → Type 0 → List Cluster → List Cluster → Type 0
  Settled c result Seen cs cs' =
      (cs' ≡ cs)
      ⊎ ((cs' ≡ remove c.id cs)
          ⊎ ((s : ClusterState) × Seen × Records c result s × (cs' ≡ set_state c.id s cs)))

  abbrev pub Ends :
      Cluster → Result ClusterError ConnectionInfo → Type 0 → List Cluster → W → Type 0
  Ends c result Seen cs w = (cs' : List Cluster) × Holds w cs' × Settled c result Seen cs cs'

  teardown-Ends :
      (c : Cluster) (result : Result ClusterError ConnectionInfo) (Seen : Type 0) (w : W)
      (cs : List Cluster)
      → Holds w cs
      → Ends c result Seen cs (teardown deps c w).1
  teardown-Ends c result Seen w cs h =
      let (w', h', same, (cs', k, gone)) = teardown_post deps laws c w cs h in
      (cs', k, split (deps.repository.delete c.id w').0 cs' gone)
    where
      split :
          (r : Result RepositoryError (Unit {0})) (cs' : List Cluster)
          → Gone deps laws c cs r cs'
          → Settled c result Seen cs cs'
      split (ok _) cs' e = inr (inl e)
      split (err _) cs' e = inl e

  write-Ends :
      (c : Cluster) (result : Result ClusterError ConnectionInfo) (Seen : Type 0)
      (r : Result ClusterError ClusterState) (w : W) (cs : List Cluster)
      → ((s : ClusterState) → r ≡ ok s → Seen × Records c result s)
      → Holds w cs
      → Ends c result Seen cs (write_state deps c r w).1
  unfolding write_state
  write-Ends c result Seen (err e) w cs k h = (cs, h, inl refl)
  write-Ends c result Seen (ok s) w cs k h =
      split (deps.repository.update_state c.id s w) (laws.stores.update_state_lem c.id s w cs h)
    where
      split :
          (p : Result RepositoryError (Unit {0}) × W)
          → Post Holds
              (λ _ cs'. (find_any c.id cs ≢ none) × (cs' ≡ set_state c.id s cs))
              (λ _ cs'. cs' ≡ cs)
              p
          → Ends c result Seen cs p.1
      split (ok _, w') q =
          let (cs', h', (_, same)) = q.ends in
          let (seen, records) = k s refl in (cs', h', inr (inr (s, seen, records, same)))
      split (err _, w') q = let (cs', h', same) = q.ends in (cs', h', inl same)

  succeeds_spawning :
      (s s' : ClusterState) (r d : DateTime) (x : ConnectionInfo)
      → transition s (spawn_succeeded r d x) ≡ ok s'
      → (is_spawning s ≡ true) × (s' ≡ ready r d x)
  unfolding transition
  succeeds_spawning s s' r d x h = ground arith

  fails_spawning :
      (s s' : ClusterState) (t : DateTime) (m : String)
      → transition s (spawn_failed t m) ≡ ok s'
      → (is_spawning s ≡ true) × (s' ≡ failed t m)
  unfolding transition
  fails_spawning s s' t m h = ground arith

  persist-Ends :
      (c : Cluster) (current : ClusterState) (result : Result ClusterError ConnectionInfo) (w : W)
      (cs : List Cluster)
      → Holds w cs
      → Ends c result (is_spawning current ≡ true) cs (persist_outcome deps c current result w).1
  unfolding persist_outcome
  persist-Ends c current (ok x) w cs h =
      let (at, w1) = deps.clock.now w in
      write-Ends c (ok x) (is_spawning current ≡ true) _ w1 cs
        (λ s e.
          let (seen, same) = succeeds_spawning current s at (at +ℤ c.requested_ttl) x e in
          (seen, (at, same)))
        (laws.clock_keeps w cs h)
  persist-Ends c current (err x) w cs h =
      let (at, w1) = deps.clock.now w in
      write-Ends c (err x) (is_spawning current ≡ true) _ w1 cs
        (λ s e. let (seen, same) = fails_spawning current s at (sanitize x) e in (seen, (at, same)))
        (laws.clock_keeps w cs h)

  settle-Ends :
      (c : Cluster) (result : Result ClusterError ConnectionInfo) (s : ClusterState) (w : W)
      (cs : List Cluster)
      → Holds w cs
      → Ends c result (is_spawning s ≡ true) cs (settle deps c result s w).1
  unfolding settle
  settle-Ends c result (deleting t r) w cs h = teardown-Ends c result _ w cs h
  settle-Ends c result (spawning t) w cs h = persist-Ends c (spawning t) result w cs h
  settle-Ends c result (ready r d x) w cs h = persist-Ends c (ready r d x) result w cs h
  settle-Ends c result (failed t m) w cs h = persist-Ends c (failed t m) result w cs h

  -- What the task knew when it wrote an outcome: the row as it stands is spawning, or the row
  -- could not be read.
  abbrev pub Knows : Cluster → List Cluster → Result RepositoryError (Option Cluster) → Type 0
  Knows c cs (ok found) = (d : Cluster) × (find_any c.id cs ≡ some d) × (is_spawning d.state ≡ true)
  Knows c cs (err _) = is_spawning c.state ≡ true

  with_seen :
      (c : Cluster) (result : Result ClusterError ConnectionInfo) (Seen Seen' : Type 0)
      (cs : List Cluster) (w : W)
      → (Seen → Seen')
      → Ends c result Seen cs w
      → Ends c result Seen' cs w
  with_seen c result Seen Seen' cs w f (cs', h, inl e) = (cs', h, inl e)
  with_seen c result Seen Seen' cs w f (cs', h, inr (inl e)) = (cs', h, inr (inl e))
  with_seen c result Seen Seen' cs w f (cs', h, inr (inr (s, seen, records, same))) =
      (cs', h, inr (inr (s, f seen, records, same)))

  recheck-Ends :
      (c : Cluster) (result : Result ClusterError ConnectionInfo) (cs : List Cluster)
      (p : Result RepositoryError (Option Cluster) × W)
      → Post Holds (λ found cs'. (found ≡ find_any c.id cs) × (cs' ≡ cs)) (λ _ cs'. cs' ≡ cs) p
      → Ends c result (Knows c cs p.0) cs (recheck deps c result p.0 p.1).1
  unfolding recheck
  recheck-Ends c result cs (ok (some d), w) q =
      let (cs', h, (found, same)) = q.ends in
      with_seen c result _ _ cs _ (λ seen. (d, sym found, seen))
        (settle-Ends c result d.state w cs (subst (Holds w) same h))
  recheck-Ends c result cs (ok none, w) q =
      let (cs', h, (found, same)) = q.ends in teardown-Ends c result _ w cs (subst (Holds w) same h)
  recheck-Ends c result cs (err e, w) q =
      let (cs', h, same) = q.ends in settle-Ends c result c.state w cs (subst (Holds w) same h)

  -- A finished spawn writes its outcome only over a row that it has just read as spawning, or, where
  -- it could not read the row, if its own copy is spawning; what it writes is ready with the backend's
  -- connection for the requested TTL, or failed with the sanitized summary. In every other case, a
  -- row that is being deleted among them, the rows stay as they are or the cluster's row is removed.
  -- Nothing else writes the rows in the meantime.
  pub conclude_post :
      (c : Cluster) (result : Result ClusterError ConnectionInfo) (w : W) (cs : List Cluster)
      → Holds w cs
      → Ends c result
          (Knows c cs (deps.repository.get_any c.id w).0)
          cs
          (conclude deps (map_err failed_with result, c) w).1
  unfolding conclude
  conclude_post c (ok x) w cs h =
      recheck-Ends c (ok x) cs (deps.repository.get_any c.id w)
        (laws.stores.get_any_lem c.id w cs h)
  conclude_post c (err e) w cs h =
      recheck-Ends c (err e) cs (deps.repository.get_any c.id w)
        (laws.stores.get_any_lem c.id w cs h)
