-- ===== src/Service/Reconciliation/Laws.antt =====
-- What a pass of src/service/reconciliation.rs may do to each row.
use app_salmon.Base.{
  ℕ, ◌≡◌, ◌≢◌, ◌⊎◌, inl, inr, refl, sym, subst, Bool, true, false, Result, ok, err, Option, none,
  some, List, [], ◌∷◌, All, All-perm, ◌==◌, ==_iff, Bool-cases, arith,
}
use app_salmon.Base.Post.{Post}
use app_salmon.Base.Task.{Task, Keeps}
use app_salmon.Domain.Time.{DateTime}
use app_salmon.Domain.Ids.{ClusterId}
use app_salmon.Domain.ServiceKind.{ServiceKind}
use app_salmon.Domain.Cluster.{
  ClusterState, spawning, ready, failed, deleting, Cluster, admin_forced,
}
use app_salmon.Errors.{ClusterError, RepositoryError}
use app_salmon.Ports.{ClusterBackend}
use app_salmon.Service.Contract.{IsTaskDeps}
use app_salmon.Service.Deps.{TaskDeps}
use app_salmon.Service.Reconciliation.{
  teardown_marked, note_liveness, check_backend, reconcile_as, reconcile_all, reconcile_listed, run,
}
use app_salmon.Service.Teardown.{teardown}
use app_salmon.Service.Teardown.Laws.{Gone, teardown_post}
use app_salmon.Service.TtlReaper.Laws.{Listed, IsAllocated-Listed}
use app_salmon.Storage.Allocation.{IsAllocated}
use app_salmon.Storage.Rows.{find_any, set_state, remove}
use app_salmon.Storage.Rows.Laws.{
  find_any-set_state, find_any-set_state_other, find_any-remove, find_any-remove_other,
}
use mathlib.Core.List.{Permᴰ}
use mathlib.Core.List.Permᴰ
use mathlib.Core.Option

-- The states that a pass may give to a row in a state: a stuck spawn may be marked for deletion, a
-- ready cluster may be found lost.
abbrev pub MayBecome : ClusterState → ClusterState → Type 0
MayBecome (spawning t) s' = (s' ≡ spawning t) ⊎ ((at : DateTime) × (s' ≡ deleting at admin_forced))
MayBecome (ready r d x) s' =
    (s' ≡ ready r d x) ⊎ ((at : DateTime) × (s' ≡ failed at "lost after restart"))
MayBecome (deleting t r) s' = s' ≡ deleting t r
MayBecome (failed t m) s' = s' ≡ failed t m

-- The rows that a pass may remove: stuck spawns and clusters that were being deleted.
abbrev pub MayVanish : ClusterState → Type 0
MayVanish (spawning _) = Unit
MayVanish (deleting _ _) = Unit
MayVanish _ = ⊥

-- What is found under an id before and after a pass.
abbrev pub Reconciled : Option Cluster → Option Cluster → Type 0
Reconciled none none = Unit
Reconciled none (some c') = ⊥
Reconciled (some c) none = MayVanish c.state
Reconciled (some c) (some c') = MayBecome c.state c'.state × (c' ≡ record c { state = c'.state })

MayBecome-same : (s : ClusterState) → MayBecome s s
MayBecome-same (spawning t) = inl refl
MayBecome-same (ready r d x) = inl refl
MayBecome-same (deleting t r) = refl
MayBecome-same (failed t m) = refl

Reconciled-same : (o : Option Cluster) → Reconciled o o
Reconciled-same none = tt
Reconciled-same (some c) = (MayBecome-same c.state, refl)

Reconciled-state :
    (c : Cluster) (s : ClusterState) (o : Option Cluster)
    → MayBecome c.state s
    → Reconciled (some c) o
    → Reconciled (some c) (Option.map (λ (d : Cluster). record d { state = s }) o)
Reconciled-state c s none may h = h
Reconciled-state c s (some d) may (_, same) = (may, λ i. record (same i) { state = s })

-- Every row of `cs`, by its id, has come to `cs'` as a pass may leave it.
abbrev pub AllReconciled : List Cluster → List Cluster → Type 0
AllReconciled cs cs' = (id : ClusterId) → Reconciled (find_any id cs) (find_any id cs')

set_state-AllReconciled :
    (cs cs' : List Cluster) (c : Cluster) (s : ClusterState)
    → Listed cs c
    → MayBecome c.state s
    → AllReconciled cs cs'
    → AllReconciled cs (set_state c.id s cs')
set_state-AllReconciled cs cs' c s listed may h id = elim (Bool-cases (c.id == id)) [
  | inl e ↦
      let same : c.id ≡ id = (==_iff c.id id).0 e in
      subst (λ k. Reconciled (find_any k cs) (find_any k (set_state c.id s cs'))) same
        (rw (listed, find_any-set_state c.id s cs')
          (Reconciled-state c s (find_any c.id cs') may
            (subst (λ o. Reconciled o (find_any c.id cs')) listed (h c.id))))
  | inr e ↦
      let n : c.id ≢ id = ground (arith, e) in rw (find_any-set_state_other c.id id s cs' n) (h id)
]

remove-AllReconciled :
    (cs cs' : List Cluster) (c : Cluster)
    → Listed cs c
    → MayVanish c.state
    → AllReconciled cs cs'
    → AllReconciled cs (remove c.id cs')
remove-AllReconciled cs cs' c listed may h id = elim (Bool-cases (c.id == id)) [
  | inl e ↦
      let same : c.id ≡ id = (==_iff c.id id).0 e in
      subst (λ k. Reconciled (find_any k cs) (find_any k (remove c.id cs'))) same
        (rw (listed, find_any-remove c.id cs') may)
  | inr e ↦ let n : c.id ≢ id = ground (arith, e) in rw (find_any-remove_other c.id id cs' n) (h id)
]

module _ {W : Type 0} {Holds : W → List Cluster → Type 0} (deps : TaskDeps W)
    (laws : IsTaskDeps Holds deps) (cs : List Cluster) where
  -- The rows at a point of the pass.
  abbrev pub Midway : W → Type 0
  Midway w = (cs' : List Cluster) × Holds w cs' × AllReconciled cs cs'

  -- The cluster that is torn down has the id of a row `c`.
  teardown-Midway :
      (c d : Cluster) (w : W)
      → c.id ≡ d.id
      → Listed cs c
      → MayVanish c.state
      → Midway w
      → Midway (teardown deps d w).1
  teardown-Midway c d w same listed may (cs', h, all) =
      let (w', h', _, (cs2, k, gone)) = teardown_post deps laws d w cs' h in
      split (deps.repository.delete d.id w').0 cs2 k gone
    where
      split :
          (r : Result RepositoryError (Unit {0})) (cs2 : List Cluster)
          → Holds (teardown deps d w).1 cs2
          → Gone deps laws d cs' r cs2
          → Midway (teardown deps d w).1
      split (ok _) cs2 k e = (
        cs2,
        k,
        subst (AllReconciled cs) (sym e) (
            subst (λ i. AllReconciled cs (remove i cs')) same
              (remove-AllReconciled cs cs' c listed may all)),
      )
      split (err _) cs2 k e = (cs2, k, subst (AllReconciled cs) (sym e) all)

  update-Midway :
      (c : Cluster) (s : ClusterState) (w : W)
      → Listed cs c
      → MayBecome c.state s
      → Midway w
      → Midway (deps.repository.update_state c.id s w).1
  update-Midway c s w listed may (cs', h, all) =
      split (deps.repository.update_state c.id s w) (laws.stores.update_state_lem c.id s w cs' h)
    where
      split :
          (p : Result RepositoryError (Unit {0}) × W)
          → Post Holds
              (λ _ x. (find_any c.id cs' ≢ none) × (x ≡ set_state c.id s cs'))
              (λ _ x. x ≡ cs')
              p
          → Midway p.1
      split (ok _, w') q =
          let (x, k, (_, e)) = q.ends in
          (
            x,
            k,
            subst (AllReconciled cs) (sym e) (set_state-AllReconciled cs cs' c s listed may all),
          )
      split (err _, w') q = let (x, k, e) = q.ends in (x, k, subst (AllReconciled cs) (sym e) all)

  Keeps-Midway : {A : Type 0} (m : Task W A) → Keeps Holds m → (w : W) → Midway w → Midway (m w).1
  Keeps-Midway m k w (cs', h, all) = (cs', k w cs' h, all)

  marked-Midway :
      (c : Cluster) (s : ClusterState) (r : Result RepositoryError (Unit {0})) (w : W)
      → Listed cs c
      → MayVanish c.state
      → Midway w
      → Midway (teardown_marked deps (record c { state = s }) r w).1
  unfolding teardown_marked
  marked-Midway c s (err _) w listed may h = h
  marked-Midway c s (ok _) w listed may h =
      teardown-Midway c (record c { state = s }) w refl listed may h

  liveness-Midway :
      (c : Cluster) (r : Result ClusterError Bool) (w : W)
      → Listed cs c
      → ((at : DateTime) → MayBecome c.state (failed at "lost after restart"))
      → Midway w
      → Midway (note_liveness deps c r w).1
  unfolding note_liveness
  liveness-Midway c (ok true) w listed may h = h
  liveness-Midway c (ok false) w listed may h =
      let (at, w1) = deps.clock.now w in
      update-Midway c (failed at "lost after restart") w1 listed (may at)
        (Keeps-Midway deps.clock.now laws.clock_keeps w h)
  liveness-Midway c (err _) w listed may h = h

  backend-Midway :
      (k : ServiceKind) (c : Cluster) (b : Option (ClusterBackend W)) (w : W)
      → deps.backends k ≡ b
      → Listed cs c
      → ((at : DateTime) → MayBecome c.state (failed at "lost after restart"))
      → Midway w
      → Midway (check_backend deps b c w).1
  unfolding check_backend
  backend-Midway k c none w e listed may h = h
  backend-Midway k c (some b) w e listed may h =
      liveness-Midway c (b.is_alive c.id w).0 (b.is_alive c.id w).1 listed may
        (Keeps-Midway (b.is_alive c.id) (laws.is_alive_keeps k b e c.id) w h)

  reconcile-Midway :
      (s : ClusterState) (c : Cluster) (w : W)
      → c.state ≡ s
      → Listed cs c
      → Midway w
      → Midway (reconcile_as deps s c w).1
  unfolding reconcile_as
  reconcile-Midway (spawning t) c w e listed h =
      let (at, w1) = deps.clock.now w in
      marked-Midway c (deleting at admin_forced) _ _ listed (subst MayVanish (sym e) tt) (
        update-Midway c (deleting at admin_forced) w1 listed
          (subst (λ s. MayBecome s (deleting at admin_forced)) (sym e) (inr (at, refl)))
          (Keeps-Midway deps.clock.now laws.clock_keeps w h))
  reconcile-Midway (ready r d x) c w e listed h =
      backend-Midway c.service.kind c _ w refl listed
        (λ at. subst (λ s. MayBecome s (failed at "lost after restart")) (sym e) (inr (at, refl))) h
  reconcile-Midway (deleting t r) c w e listed h =
      teardown-Midway c c w refl listed (subst MayVanish (sym e) tt) h
  reconcile-Midway (failed t m) c w e listed h = h

  All-Midway :
      (rows : List Cluster) (w : W)
      → All (Listed cs) rows
      → Midway w
      → Midway (reconcile_all deps rows w).1
  unfolding reconcile_all
  All-Midway [] w ls h = h
  All-Midway (c ∷ rows) w (l, ls) h = All-Midway rows _ ls (reconcile-Midway c.state c w refl l h)

  Listed-Midway :
      (p : Result RepositoryError (List Cluster) × W)
      → All (Listed cs) cs
      → Post Holds (λ rows cs'. Permᴰ rows cs × (cs' ≡ cs)) (λ _ cs'. cs' ≡ cs) p
      → Midway (reconcile_listed deps p.0 p.1).1
  unfolding reconcile_listed
  Listed-Midway (err e, w) ls q =
      let (x, h, same) = q.ends in
      (cs, subst (Holds w) same h, λ id. Reconciled-same (find_any id cs))
  Listed-Midway (ok rows, w) ls q =
      let (x, h, (moved, same)) = q.ends in
      All-Midway rows w (All-perm (Listed cs) (Permᴰ.symm moved) ls)
        (cs, subst (Holds w) same h, λ id. Reconciled-same (find_any id cs))

  -- Whichever of its steps fail, a pass at start-up leaves every row, found by its id, as it was, but
  -- for these: a spawning row may be gone or marked as deleting by force, a deleting row may be gone,
  -- and a ready row may have failed as lost after the restart. No ready or failed row is removed, no
  -- failed row is touched, no other field changes, and no row is added. The rows have distinct ids.
  pub run_reconciles :
      (limit : ℕ) (w : W) → IsAllocated limit cs → Holds w cs → Midway (run deps w).1
  unfolding run
  run_reconciles limit w a h =
      Listed-Midway (deps.repository.list_all w) (IsAllocated-Listed limit cs a)
        (laws.stores.list_all_lem w cs h)
