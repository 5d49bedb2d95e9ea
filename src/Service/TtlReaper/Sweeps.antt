-- ===== src/Service/TtlReaper/Sweeps.antt =====
-- A sweep of src/service/ttl_reaper.rs: what it asks for, and the rows that it leaves.
use app_salmon.Base.{
  ℕ, ◌≡◌, ◌⊎◌, inl, inr, refl, sym, subst, List, [], ◌∷◌, All, All-perm, Option-cases, Result, ok,
  err,
}
use app_salmon.Base.Post.{Post}
use app_salmon.Base.Related.{Both}
use app_salmon.Domain.Time.{DateTime, TimeDelta}
use app_salmon.Domain.Cluster.{Cluster, DeleteReason}
use app_salmon.Errors.{ClusterError, RepositoryError}
use app_salmon.Service.ClusterService.{ClusterService, DeleteOutcome, request_delete}
use app_salmon.Service.ClusterService.Laws.{IsClusterService, Deleted, Unfound, request_delete-Post}
use app_salmon.Service.Contract.{IsTaskDeps}
use app_salmon.Service.Deps.{TaskDeps}
use app_salmon.Service.TtlReaper.{due_for_reaping, reap, sweep, sweep_listed, run_once}
use app_salmon.Service.TtlReaper.Laws.{
  IsDue, Swept, Cause, due_for_reaping-IsDue, due_for_reaping-Cause, due_for_reaping-none, Listed,
  IsAllocated-Listed, set_state-Swept, unswept,
}
use app_salmon.Storage.Allocation.{IsAllocated}
use mathlib.Core.List.{Permᴰ}
use mathlib.Core.List.Permᴰ
use app_salmon.Service.TtlReaper.Marks.{Marked, set_state-Marked, find_any_owned}

abbrev pub Has : Cluster → List Cluster → Type 0
Has c [] = ⊥
Has c (d ∷ ds) = (d ≡ c) ⊎ Has c ds

module _ {A : Type 0} where
  abbrev pub if_failed : Result ClusterError A → Cluster → List Cluster → List Cluster
  if_failed (ok _) c missed = missed
  if_failed (err _) c missed = c ∷ missed

module _ {W : Type 0} {Holds : W → List Cluster → Type 0} (service : ClusterService W)
    (laws : IsClusterService Holds service) (now : DateTime) (grace : TimeDelta) where
  -- From one world to the next by going through the rows: the deletion of every row that is due is
  -- asked for, by its cause, and of no other. The requests that failed are the missed rows.
  pub data Reaps : List Cluster → W → List Cluster → W → Type 0 where
    finish : (w : W) → Reaps [] w [] w
    skip :
        (c : Cluster) {rows missed : List Cluster} {w w' : W}
        → ¬ IsDue now grace c.state
        → Reaps rows w missed w'
        → Reaps (c ∷ rows) w missed w'
    ask :
        (c : Cluster) (reason : DeleteReason) {rows missed : List Cluster} {w w' : W}
        → IsDue now grace c.state
        → Cause c.state reason
        → Reaps rows (request_delete service c.id c.owner reason w).1 missed w'
        → Reaps
            (c ∷ rows)
            w
            (if_failed (request_delete service c.id c.owner reason w).0 c missed)
            w'

  -- What became of a row by the end: it was not due, or is being deleted, or its request failed.
  abbrev pub Fate : List Cluster → List Cluster → Cluster → Type 0
  Fate missed cs' c = (¬ IsDue now grace c.state) ⊎ Marked c cs' ⊎ Has c missed

  -- The end of a sweep through `rows` of the store `cs` that began in `w`.
  abbrev pub Reaped : List Cluster → List Cluster → W → W → Type 0
  Reaped cs rows w w' =
      (missed : List Cluster) × (cs' : List Cluster) × Reaps rows w missed w'
      × Holds w' cs'
      × Both (Swept now grace) cs cs'
      × All (Fate missed cs') rows

  module _ (cs : List Cluster) (listed : All (Listed cs) cs) where
    abbrev Onward : List Cluster → List Cluster → Type 0
    Onward cs1 cs2 = (c : Cluster) → Marked c cs1 → Marked c cs2

    abbrev Noted : {A : Type 0} → Cluster → List Cluster → Result ClusterError A → Type 0
    Noted c cs' (ok _) = Marked c cs'
    Noted c cs' (err _) = Unit

    fate :
        {A : Type 0} (r : Result ClusterError A) (c : Cluster) (cs1 cs' missed : List Cluster)
        → Noted c cs1 r
        → Onward cs1 cs'
        → Fate (if_failed r c missed) cs' c
    fate (ok _) c cs1 cs' missed h on = inr (inl (on c h))
    fate (err _) c cs1 cs' missed h on = inr (inr (inl refl))

    later :
        {A : Type 0} (r : Result ClusterError A) (c d : Cluster) (cs' missed : List Cluster)
        → Fate missed cs' d
        → Fate (if_failed r c missed) cs' d
    later (ok _) c d cs' missed h = h
    later (err _) c d cs' missed (inl young) = inl young
    later (err _) c d cs' missed (inr (inl marked)) = inr (inl marked)
    later (err _) c d cs' missed (inr (inr m)) = inr (inr (inr m))

    All-later :
        {A : Type 0} (r : Result ClusterError A) (c : Cluster) (cs' missed rows : List Cluster)
        → All (Fate missed cs') rows
        → All (Fate (if_failed r c missed) cs') rows
    All-later r c cs' missed [] h = tt
    All-later r c cs' missed (d ∷ rows) (f, h) =
        (later r c d cs' missed f, All-later r c cs' missed rows h)

    asked :
        (c : Cluster) (cs1 : List Cluster) (p : Result ClusterError (Cluster × DeleteOutcome) × W)
        → Listed cs c
        → IsDue now grace c.state
        → Both (Swept now grace) cs cs1
        → Post Holds
            (Deleted service laws c.id c.owner cs1)
            (λ e cs'. (cs' ≡ cs1) × Unfound service laws c.id c.owner cs1 e)
            p
        → (cs2 : List Cluster) × Holds p.1 cs2
          × Both (Swept now grace) cs cs2
          × Onward cs1 cs2
          × Noted c cs2 p.0
    asked c cs1 (ok (c', o), w) lc due sw q =
        let (cs2, h, (old, found, _, marked, _, _, same)) = q.ends in
        let (d, there) = find_any_owned c.id c.owner cs1 old found in
        (
          cs2,
          h,
          subst (Both (Swept now grace) cs) (sym same)
              (set_state-Swept now grace cs c c'.state cs cs1 lc listed due marked sw),
          λ b (e, known, gone).
              subst (Marked b) (sym same)
                (set_state-Marked b c.id c'.state cs1 e marked known (inl gone)),
          subst (Marked c) (sym same)
              (set_state-Marked c c.id c'.state cs1 d marked there (inr refl)),
        )
    asked c cs1 (err e, w) lc due sw q =
        let (cs2, h, (same, _)) = q.ends in
        (
          cs2,
          h,
          subst (Both (Swept now grace) cs) (sym same) sw,
          λ b m. subst (Marked b) (sym same) m,
          tt,
        )

    -- The same, with the rows of an end carried on from those of the start.
    abbrev From : List Cluster → List Cluster → W → W → Type 0
    From rows cs1 w w' =
        (missed : List Cluster) × (cs' : List Cluster) × Reaps rows w missed w'
        × Holds w' cs'
        × Both (Swept now grace) cs cs'
        × Onward cs1 cs'
        × All (Fate missed cs') rows

    sweep-From :
        (rows : List Cluster) (w : W) (cs1 : List Cluster)
        → All (Listed cs) rows
        → Holds w cs1
        → Both (Swept now grace) cs cs1
        → From rows cs1 w (sweep service now grace rows w).1
    unfolding sweep reap
    sweep-From [] w cs1 ls h sw = ([], cs1, finish w, h, sw, (λ b m. m), tt)
    sweep-From (c ∷ rows) w cs1 (lc, ls) h sw =
        elim (Option-cases (due_for_reaping c.state now grace)) [
          | inl young ↦
              let (missed, cs', course, h', sw', on, all) = sweep-From rows w cs1 ls h sw in
              let early = due_for_reaping-none c.state now grace young in
              rw young (missed, cs', skip c early course, h', sw', on, (inl early, all))
          | inr (reason, why) ↦
              let due = due_for_reaping-IsDue c.state now grace reason why in
              let cause = due_for_reaping-Cause c.state now grace reason why in
              let p = request_delete service c.id c.owner reason w in
              let (cs2, h2, sw2, on2, noted) =
                asked c cs1 p lc due sw
                  (request_delete-Post service laws c.id c.owner reason w cs1 h) in
              let (missed, cs', course, h', sw', on, all) = sweep-From rows p.1 cs2 ls h2 sw2 in
              rw why (
                if_failed p.0 c missed,
                cs',
                ask c reason due cause course,
                h',
                sw',
                (λ b m. on b (on2 b m)),
                (fate p.0 c cs2 cs' missed noted on, All-later p.0 c cs' missed rows all),
              )
        ]

module _ {W : Type 0} {Holds : W → List Cluster → Type 0} (service : ClusterService W)
    (laws : IsClusterService Holds service) (deps : TaskDeps W) where
  -- The pass from the world in which the rows are read: they cannot be read, and nothing changes, or
  -- those that were read are gone through.
  abbrev pub SweptEnd : DateTime → TimeDelta → List Cluster → W → W → Type 0
  SweptEnd now grace cs w w' =
      ((e : RepositoryError) × ((deps.repository.list_all w).0 ≡ err e)
        × (w' ≡ (deps.repository.list_all w).1)
        × Holds w' cs)
      ⊎ ((rows : List Cluster) × ((deps.repository.list_all w).0 ≡ ok rows)
          × Permᴰ rows cs
          × Reaped service laws now grace cs rows (deps.repository.list_all w).1 w')

  sweep_listed-Ends :
      (now : DateTime) (grace : TimeDelta) (cs : List Cluster)
      (p : Result RepositoryError (List Cluster) × W)
      → All (Listed cs) cs
      → Post Holds (λ rows cs'. Permᴰ rows cs × (cs' ≡ cs)) (λ _ cs'. cs' ≡ cs) p
      → ((e : RepositoryError) × (p.0 ≡ err e)
          × ((sweep_listed service now grace p.0 p.1).1 ≡ p.1)
          × Holds (sweep_listed service now grace p.0 p.1).1 cs)
        ⊎ ((rows : List Cluster) × (p.0 ≡ ok rows)
            × Permᴰ rows cs
            × Reaped service laws now grace cs rows p.1 (sweep_listed service now grace p.0 p.1).1)
  unfolding sweep_listed
  sweep_listed-Ends now grace cs (err e, w) listed q =
      let (cs', h, same) = q.ends in inl (e, refl, refl, subst (Holds w) same h)
  sweep_listed-Ends now grace cs (ok rows, w) listed q =
      let (cs0, h, (moved, same)) = q.ends in
      let (missed, cs', course, h', sw, _, all) =
        sweep-From service laws now grace cs listed rows w cs
          (All-perm (Listed cs) (Permᴰ.symm moved) listed) (subst (Holds w) same h)
          (unswept now grace cs cs) in
      inr (rows, refl, moved, (missed, cs', course, h', sw, all))

  -- A pass reads the clock and the rows. If the rows cannot be read, nothing changes. Otherwise it goes
  -- through all of them and asks for the deletion of each that is due by that reading of the clock,
  -- by its cause, and of no other. At the end every row that was due is being deleted, but those
  -- whose request failed; and nothing else has changed: no row is added or removed, and a row
  -- that was not due is as it was.
  pub run_once_post :
      (grace : TimeDelta) (limit : ℕ) (w : W) (cs : List Cluster)
      → IsTaskDeps Holds deps
      → IsAllocated limit cs
      → Holds w cs
      → SweptEnd
          (deps.clock.now w).0
          grace
          cs
          (deps.clock.now w).1
          (run_once service deps grace w).1
  unfolding run_once
  run_once_post grace limit w cs d_laws a h =
      let (now, w1) = deps.clock.now w in
      sweep_listed-Ends now grace cs (deps.repository.list_all w1) (IsAllocated-Listed limit cs a)
        (d_laws.stores.list_all_lem w1 cs (d_laws.clock_keeps w cs h))
