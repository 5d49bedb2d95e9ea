-- ===== src/Service/LogRotation/Trace.antt =====
-- src/service/log_rotation.rs: what a sweep is told and what it then asks of the file system. `Noted`
-- carries a file system that notes each request beside the world, the newest first.
use app_salmon.Base.{
  ◌≡◌, ◌⊎◌, String, Bool, true, false, Option, none, some, List, [], ◌∷◌, Result, ok, err,
}
use app_salmon.Base.Int.{pos, ◌+ℤ◌, ◌≤ℤ◌, ◌<ℤ◌}
use app_salmon.Base.Task.{Task}
use app_salmon.Errors.{Source}
use app_salmon.Containers.{Duration}
use app_salmon.Ports.Filesystem.{SystemTime, DirEntry, Filesystem}
use app_salmon.Service.LogRotation.{is_gz}

pub data Event : Type 0 where
  opened : (was_opened : Bool) → Event
  began : (now : SystemTime) → Event
  listed : (path : String) → Event
  ended broken : Event
  kind : (path : String) (is_file : Option Bool) → Event
  dated : (path : String) (modified : Option SystemTime) → Event
  removal compression : (path : String) → Event

abbrev pub told : {A E : Type 0} → Result E A → Option A
told (ok a) = some a
told (err e) = none

abbrev pub was_ok : {A E : Type 0} → Result E A → Bool
was_ok (ok a) = true
was_ok (err e) = false

abbrev pub Noted : Type 0 → Type 0
Noted W = W × List Event

module _ {W A : Type 0} where
  abbrev pub note : (A → Event) → Task W A → Task (Noted W) A
  note f m (w, log) = let (a, w') = m w in (a, (w', f a ∷ log))

module _ {W : Type 0} where
  abbrev pub noted_entry : DirEntry W → DirEntry (Noted W)
  noted_entry entry = record {
    path = entry.path;
    is_file = note (λ r. kind entry.path (told r)) entry.is_file;
    modified = note (λ r. dated entry.path (told r)) entry.modified;
  }

module _ {W D : Type 0} where
  abbrev pub answer_event : Result Source (Option (DirEntry W × D)) → Event
  answer_event (ok (some (entry, rest))) = listed entry.path
  answer_event (ok none) = ended
  answer_event (err e) = broken

  abbrev pub answer :
      Result Source (Option (DirEntry W × D)) → Result Source (Option (DirEntry (Noted W) × D))
  answer (ok (some (entry, rest))) = ok (some (noted_entry entry, rest))
  answer (ok none) = ok none
  answer (err e) = err e

  abbrev pub noted : Filesystem W D → Filesystem (Noted W) D
  noted fs = record {
    read_dir = λ dir. note (λ r. opened (was_ok r)) (fs.read_dir dir);
    next_entry = λ d p. let (r, q) = note answer_event (fs.next_entry d) p in (answer r, q);
    remove_file = λ path. note (λ r. removal path) (fs.remove_file path);
    compress = λ path. note (λ r. compression path) (fs.compress path);
  }

module _ (compress_after retention : Duration) (now : SystemTime) where
  -- From one log to the next by one entry of the directory.
  pub data Visited (p : String) (log : List Event) : List Event → Type 0 where
    unknown : Visited p log (kind p none ∷ listed p ∷ log)
    no_file : Visited p log (kind p (some false) ∷ listed p ∷ log)
    undated : Visited p log (dated p none ∷ kind p (some true) ∷ listed p ∷ log)
    young :
        (modified : SystemTime)
        → (is_gz p ≡ true → now <ℤ modified +ℤ pos retention)
        → (is_gz p ≡ false → now <ℤ modified +ℤ pos compress_after)
        → Visited p log (dated p (some modified) ∷ kind p (some true) ∷ listed p ∷ log)
    expired :
        (modified : SystemTime)
        → is_gz p ≡ true
        → modified +ℤ pos retention ≤ℤ now
        → Visited p log (removal p ∷ dated p (some modified) ∷ kind p (some true) ∷ listed p ∷ log)
    old :
        (modified : SystemTime)
        → is_gz p ≡ false
        → modified +ℤ pos compress_after ≤ℤ now
        → Visited p log
            (compression p ∷ dated p (some modified) ∷ kind p (some true) ∷ listed p ∷ log)

  -- From one log to the next by a loop that goes on to the end of the stream or to its failure.
  pub data Swept : List Event → List Event → Type 0 where
    at_end : {log : List Event} → Swept log (ended ∷ log)
    at_fault : {log : List Event} → Swept log (broken ∷ log)
    onward :
        {p : String} {log log' log'' : List Event}
        → Visited p log log'
        → Swept log' log''
        → Swept log log''

module _ (compress_after retention : Duration) where
  -- The whole log of a pass, with the time that it went by.
  abbrev pub Sweeps : List Event → Type 0
  Sweeps log =
      (log ≡ opened false ∷ [])
      ⊎ ((now : SystemTime) × Swept compress_after retention now (began now ∷ opened true ∷ []) log)
