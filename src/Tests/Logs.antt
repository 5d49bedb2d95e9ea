-- ===== src/Tests/Logs.antt =====
-- A log directory with an archive and a log file, and the theorem about
-- src/service/log_rotation.rs applied to it.
use app_salmon.Base.{ℕ, zero, suc, ◌≡◌, some, none, ok, err, [], true, arith}
use app_salmon.Base.Int.{pos}
use app_salmon.Ports.Filesystem.{DirEntry, Filesystem, task_failed}
use app_salmon.Service.LogRotation.{run_once}
use app_salmon.Service.LogRotation.Trace.{noted, note, began, Sweeps}
use app_salmon.Service.LogRotation.Passes.{IsBound, run_once-Sweeps}

abbrev archive : DirEntry (Unit {0})
archive = record {
  path = "/var/log/app.log.1.gz";
  is_file = λ w. (ok true, w);
  modified = λ w. (ok (pos 10), w);
}

abbrev log_file : DirEntry (Unit {0})
log_file = record {
  path = "/var/log/app.log.2";
  is_file = λ w. (ok true, w);
  modified = λ w. (err "gone", w);
}

abbrev entry_at : ℕ → DirEntry (Unit {0})
entry_at zero = archive
entry_at (suc n) = log_file

-- The number of entries that are still to come is the stream.
abbrev directory : Filesystem (Unit {0}) ℕ
directory = record {
  read_dir = λ dir w. (ok 2, w);
  next_entry = λ d w. elim d [ zero ↦ (ok none, w) | suc n ↦ (ok (some (entry_at n, n)), w) ];
  remove_file = λ path w. (ok tt, w);
  compress = λ path w. (err (task_failed "cancelled"), w);
}

directory-IsBound : IsBound directory 50 100 (λ d. d)
directory-IsBound zero d' entry w h = ground arith
directory-IsBound (suc n) d' entry w h = ground arith

run_once-Sweeps_example :
    ((run_once
        (noted directory)
        50
        100
        (λ d. d)
        (note began (λ w. (pos 200, w)))
        "/var/log"
        (tt, [])).0
      ≡ some tt)
    × Sweeps 50 100
        (run_once
          (noted directory)
          50
          100
          (λ d. d)
          (note began (λ w. (pos 200, w)))
          "/var/log"
          (tt, [])).1.1
run_once-Sweeps_example =
    run_once-Sweeps directory 50 100 (λ d. d) directory-IsBound (λ w. (pos 200, w)) "/var/log" tt
