-- ===== src/Service/LogRotation.antt =====
-- src/service/log_rotation.rs: `run_once`. The clock is a parameter.
pub mod Trace
pub mod Ages
pub mod Passes
use Prim.Native.String.{len, slice}
use app_salmon.Base.{
  ℕ, zero, suc, ◌+◌, ◌-◌, String, Bool, true, false, ◌&&◌, not, Option, none, some, Result, ok, err,
  leb, text_eq, if◌then◌else◌,
}
use app_salmon.Base.Int.{leb_ℤ, pos_part, neg_part}
use app_salmon.Base.Task.{Task, ◌>>=◌, ◌>>◌, give, done, ignore}
use app_salmon.Errors.{Source}
use app_salmon.Containers.{Duration}
use app_salmon.Ports.Filesystem.{SystemTime, DirEntry, Filesystem}

abbrev ends_with : String → String → Bool
ends_with s t = leb (len t) (len s) && text_eq (slice s (len s - len t) (len s)) t

-- The path of a directory entry ends with the entry's name, and a name that is all extension has
-- none.
unfoldable pub is_gz : String → Bool
is_gz path = ends_with path ".gz" && not (text_eq path ".gz") && not (ends_with path "/.gz")

-- `now.duration_since(modified)`, an error if `modified` is the later.
unfoldable pub duration_since : SystemTime → SystemTime → Option Duration
duration_since now modified =
    if leb_ℤ modified now
    then some (pos_part now + neg_part modified - (pos_part modified + neg_part now))
    else none

abbrev pub is_some_and : (Duration → Bool) → Option Duration → Bool
is_some_and test none = false
is_some_and test (some d) = test d

unfoldable pub older_than : SystemTime → SystemTime → Duration → Bool
unfolding duration_since
older_than modified now threshold = is_some_and (leb threshold) (duration_since now modified)

module _ {W D : Type 0} (fs : Filesystem W D) (compress_after retention : Duration) where
  unfoldable pub rotate : SystemTime → String → SystemTime → Task W (Unit {0})
  rotate now path modified =
      if is_gz path
      then (if older_than modified now retention then ignore (fs.remove_file path) else done)
      else if older_than modified now compress_after
      then ignore (fs.compress path)
      else done

  unfoldable pub dated_file : SystemTime → String → Result Source SystemTime → Task W (Unit {0})
  unfolding rotate
  dated_file now path (ok modified) = rotate now path modified
  dated_file now path (err error) = done

  unfoldable pub kind_known : SystemTime → DirEntry W → Result Source Bool → Task W (Unit {0})
  unfolding dated_file
  kind_known now entry (ok true) = entry.modified >>= dated_file now entry.path
  kind_known now entry (ok false) = done
  kind_known now entry (err error) = done

  unfoldable pub visit : SystemTime → DirEntry W → Task W (Unit {0})
  unfolding kind_known
  visit now entry = entry.is_file >>= kind_known now entry

  -- What follows an answer of the stream; `again` is the rest of the loop.
  unfoldable pub proceed :
      (D → Task W (Option (Unit {0})))
      → SystemTime
      → Result Source (Option (DirEntry W × D))
      → Task W (Option (Unit {0}))
  unfolding visit
  proceed again now (ok (some (entry, entries))) = visit now entry >> again entries
  proceed again now (ok none) = give (some tt)
  proceed again now (err error) = give (some tt)

  -- The loop, or none if the fuel runs out.
  unfoldable pub sweep : ℕ → SystemTime → D → Task W (Option (Unit {0}))
  unfolding proceed
  sweep zero now entries = give none
  sweep (suc fuel) now entries = fs.next_entry entries >>= proceed (λ rest. sweep fuel now rest) now

  unfoldable pub opened_dir :
      (D → ℕ) → Task W SystemTime → Result Source D → Task W (Option (Unit {0}))
  unfolding sweep
  opened_dir bound system_now (ok entries) =
      system_now >>= λ now. sweep (suc (bound entries)) now entries
  opened_dir bound system_now (err error) = give (some tt)

  -- `bound` limits the number of entries that a stream still has.
  unfoldable pub run_once : (D → ℕ) → Task W SystemTime → String → Task W (Option (Unit {0}))
  unfolding opened_dir
  run_once bound system_now log_dir = fs.read_dir log_dir >>= opened_dir bound system_now
