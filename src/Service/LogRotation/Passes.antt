-- ===== src/Service/LogRotation/Passes.antt =====
-- src/service/log_rotation.rs: a pass comes to its end and asks for what it should.
use app_salmon.Base.{
  ℕ, zero, suc, ◌<◌, Bool-cases, ◌≡◌, inl, inr, refl, String, Bool, true, false, Option, none, some,
  List, [], ◌∷◌, Result, ok, err, arith,
}
use app_salmon.Base.Task.{Task}
use app_salmon.Errors.{Source}
use app_salmon.Containers.{Duration}
use app_salmon.Ports.Filesystem.{SystemTime, DirEntry, Filesystem}
use app_salmon.Service.LogRotation.{
  is_gz, rotate, dated_file, kind_known, visit, proceed, sweep, opened_dir, run_once,
}
use app_salmon.Service.LogRotation.Ages.{older_than-cases}
use app_salmon.Service.LogRotation.Trace.{
  Event, opened, began, listed, kind, dated, told, was_ok, Noted, note, noted_entry, answer_event,
  answer, noted, Visited, unknown, no_file, undated, young, expired, old, Swept, at_end, at_fault,
  onward, Sweeps,
}

module _ {W D : Type 0} (fs : Filesystem W D) (compress_after retention : Duration) where
  rotate-Visited :
      (now : SystemTime) (path : String) (modified : SystemTime) (w : W) (log : List Event)
      → Visited compress_after retention now path log
          (rotate
            (noted fs)
            compress_after
            retention
            now
            path
            modified
            (w, dated path (some modified) ∷ kind path (some true) ∷ listed path ∷ log)).1.1
  unfolding rotate
  rotate-Visited now path modified w log = elim (Bool-cases (is_gz path)) [
    | inl g ↦ elim (older_than-cases modified now retention) [
      | inl o ↦ rw (g, o.0) (expired modified g o.1)
      | inr o ↦ rw (g, o.0) (young modified (λ _. o.1) (λ n. ground arith))
    ]
    | inr g ↦ elim (older_than-cases modified now compress_after) [
      | inl o ↦ rw (g, o.0) (old modified g o.1)
      | inr o ↦ rw (g, o.0) (young modified (λ y. ground arith) (λ _. o.1))
    ]
  ]

  dated_file-Visited :
      (now : SystemTime) (path : String) (r : Result Source SystemTime) (w : W) (log : List Event)
      → Visited compress_after retention now path log
          (dated_file
            (noted fs)
            compress_after
            retention
            now
            path
            r
            (w, dated path (told r) ∷ kind path (some true) ∷ listed path ∷ log)).1.1
  unfolding dated_file
  dated_file-Visited now path (ok modified) w log = rotate-Visited now path modified w log
  dated_file-Visited now path (err e) w log = undated

  kind_known-Visited :
      (now : SystemTime) (entry : DirEntry W) (r : Result Source Bool) (w : W) (log : List Event)
      → Visited compress_after retention now entry.path log
          (kind_known
            (noted fs)
            compress_after
            retention
            now
            (noted_entry entry)
            r
            (w, kind entry.path (told r) ∷ listed entry.path ∷ log)).1.1
  unfolding kind_known
  kind_known-Visited now entry (ok true) w log =
      dated_file-Visited now entry.path (entry.modified w).0 (entry.modified w).1 log
  kind_known-Visited now entry (ok false) w log = no_file
  kind_known-Visited now entry (err e) w log = unknown

  visit-Visited :
      (now : SystemTime) (entry : DirEntry W) (w : W) (log : List Event)
      → Visited compress_after retention now entry.path log
          (visit
            (noted fs)
            compress_after
            retention
            now
            (noted_entry entry)
            (w, listed entry.path ∷ log)).1.1
  unfolding visit
  visit-Visited now entry w log =
      kind_known-Visited now entry (entry.is_file w).0 (entry.is_file w).1 log

  abbrev Complete : SystemTime → List Event → Option (Unit {0}) × Noted W → Type 0
  Complete now log p = (p.0 ≡ some tt) × Swept compress_after retention now log p.1.1

  -- A stream that has one entry fewer after each.
  abbrev pub IsBound : (D → ℕ) → Type 0
  IsBound bound =
      (d d' : D) (entry : DirEntry W) (w : W)
      → (fs.next_entry d w).0 ≡ ok (some (entry, d'))
      → bound d' < bound d

  proceed-Complete :
      (again : D → Task (Noted W) (Option (Unit {0}))) (now : SystemTime)
      (r : Result Source (Option (DirEntry W × D))) (w : W) (log : List Event)
      → ((entry : DirEntry W) (rest : D) (w : W) (log' : List Event)
          → r ≡ ok (some (entry, rest))
          → Complete now log' (again rest (w, log')))
      → Complete now log (
          proceed
            (noted fs)
            compress_after
            retention
            again
            now
            (answer r)
            (w, answer_event r ∷ log))
  unfolding proceed
  proceed-Complete again now (ok (some (entry, rest))) w log k =
      let q =
        visit (noted fs) compress_after retention now (noted_entry entry)
          (w, listed entry.path ∷ log) in
      let rec = k entry rest q.1.0 q.1.1 refl in
      (rec.0, onward (visit-Visited now entry w log) rec.1)
  proceed-Complete again now (ok none) w log k = (refl, at_end)
  proceed-Complete again now (err e) w log k = (refl, at_fault)

  module _ (bound : D → ℕ) (finite : IsBound bound) where
    sweep-Complete :
        (fuel : ℕ) (now : SystemTime) (d : D) (w : W) (log : List Event)
        → bound d < fuel
        → Complete now log (sweep (noted fs) compress_after retention fuel now d (w, log))
    unfolding sweep
    sweep-Complete zero now d w log h = absurd (omega arith)
    sweep-Complete (suc fuel) now d w log h =
        proceed-Complete (λ rest. sweep (noted fs) compress_after retention fuel now rest) now
          (fs.next_entry d w).0 (fs.next_entry d w).1 log
          (λ entry rest w' log' same.
            let less = finite d rest entry w same in
            sweep-Complete fuel now rest w' log' (omega arith))

    opened_dir-Sweeps :
        (system_now : Task W SystemTime) (r : Result Source D) (w : W)
        → ((opened_dir
              (noted fs)
              compress_after
              retention
              bound
              (note began system_now)
              r
              (w, opened (was_ok r) ∷ [])).0
            ≡ some tt)
          × Sweeps compress_after retention
              (opened_dir
                (noted fs)
                compress_after
                retention
                bound
                (note began system_now)
                r
                (w, opened (was_ok r) ∷ [])).1.1
    unfolding opened_dir
    opened_dir-Sweeps system_now (ok d) w =
        let q = system_now w in
        let h =
          sweep-Complete (suc (bound d)) q.0 d q.1 (began q.0 ∷ opened true ∷ []) (omega arith) in
        (h.0, inr (q.0, h.1))
    opened_dir-Sweeps system_now (err e) w = (refl, inl refl)

    -- Over a directory of finitely many entries, a pass of log rotation comes to its end. It opens
    -- the directory or stops there; reads the clock once; and asks the stream for entries until it
    -- ends or fails. Of each entry it asks the kind, and of a regular file the time of its last change,
    -- and goes on to the next entry if either is not told. It then asks to delete the file if its name
    -- has the extension "gz" and its age has reached the retention, to compress it if its name has not
    -- and its age has reached the other limit, and nothing otherwise. It makes no other request.
    pub run_once-Sweeps :
        (system_now : Task W SystemTime) (log_dir : String) (w : W)
        → ((run_once
              (noted fs)
              compress_after
              retention
              bound
              (note began system_now)
              log_dir
              (w, [])).0
            ≡ some tt)
          × Sweeps compress_after retention
              (run_once
                (noted fs)
                compress_after
                retention
                bound
                (note began system_now)
                log_dir
                (w, [])).1.1
    unfolding run_once
    run_once-Sweeps system_now log_dir w =
        opened_dir-Sweeps system_now (fs.read_dir log_dir w).0 (fs.read_dir log_dir w).1
