-- ===== src/Ports/Filesystem.antt =====
-- src/ports/filesystem.rs. A stream of directory entries is a value of a type `D` that a successful
-- `next_entry` moves on. A `SystemTime` is the signed number of nanoseconds since the Unix epoch.
use app_salmon.Base.{String, Bool, Option}
use app_salmon.Base.Int.{ℤ}
use app_salmon.Base.Action.{Action}
use app_salmon.Errors.{Source}

abbrev pub SystemTime : Type 0
SystemTime = ℤ

pub data CompressError : Type 0 where
  io : (source : Source) → CompressError
  task_failed : (reason : String) → CompressError

pub record DirEntry (W : Type 0) : Type 0 where
  pub path : String
  pub is_file : Action W Source Bool
  pub modified : Action W Source SystemTime

pub record Filesystem (W D : Type 0) : Type 0 where
  pub read_dir : String → Action W Source D
  pub next_entry : D → Action W Source (Option (DirEntry W × D))
  pub remove_file : String → Action W Source (Unit {0})
  pub compress : String → Action W CompressError (Unit {0})
