-- ===== src/Adapters/SudoExec.antt =====
-- src/adapters/sudo_exec.rs. Starting a process and waiting for it, under a limit of time, are
-- `tokio`: a parameter.
pub mod Argv
use Prim.Native.String.{◌++◌}
use app_salmon.Base.{
  ℕ, String, Bool, true, false, Option, none, some, List, [], ◌∷◌, Result, ok, err, if◌then◌else◌,
}
use app_salmon.Base.Int.{ℤ, negsuc}
use app_salmon.Base.Action.{Action, ◌>>=◌, lift}
use app_salmon.Base.Task.{Task, infallible}
use app_salmon.Domain.Ids.{WorkerUser}
use app_salmon.Errors.{Source, PrivilegedExecError, spawn, non_zero_exit, timeout}
use app_salmon.Containers.{Duration, as_secs}
use app_salmon.Ports.{
  PrivilegedCommand, prepare_worker_dir, wipe_worker_dir, adopt_staged_tree, CommandOutput,
  PrivilegedExecutor,
}

-- The program and its arguments. Its input is closed, its output is captured, and it is killed when
-- it is no longer waited for.
pub record Command : Type 0 where
  pub program : String
  pub args : List String

-- The streams are as `from_utf8_lossy` reads them.
pub record Output : Type 0 where
  pub success : Bool
  pub code : Option ℤ
  pub stdout : String
  pub stderr : String

pub data Waited : Type 0 where
  elapsed : Waited
  not_started : (source : Source) → Waited
  finished : (output : Output) → Waited

pub record Processes (W : Type 0) : Type 0 where
  pub output_within : Duration → Command → Task W Waited

pub record SudoExecutor : Type 0 where
  pub sudo_path : String
  pub timeout : Duration

unfoldable pub program_and_args : PrivilegedCommand → String × List String
program_and_args (prepare_worker_dir path) = ("mkdir", "-p" ∷ path ∷ [])
program_and_args (wipe_worker_dir path) = ("find", path ∷ "-mindepth" ∷ "1" ∷ "-delete" ∷ [])
program_and_args (adopt_staged_tree staging_path dest_path) =
    ("cp", "-r" ∷ (staging_path ++ "/.") ∷ dest_path ∷ [])

module _ (self : SudoExecutor) where
  unfoldable pub sudo : WorkerUser → PrivilegedCommand → Command
  unfolding program_and_args
  sudo worker command =
      let (program, args) = program_and_args command in
      record { program = self.sudo_path; args = "-u" ∷ worker.name ∷ "--" ∷ program ∷ args }

  abbrev or_minus_one : Option ℤ → ℤ
  or_minus_one none = negsuc 0
  or_minus_one (some code) = code

  unfoldable pub verdict : WorkerUser → Waited → Result PrivilegedExecError CommandOutput
  verdict worker elapsed = err (timeout worker (as_secs self.timeout))
  verdict worker (not_started source) = err (spawn worker source)
  verdict worker (finished output) =
      if output.success
      then ok (record { stdout = output.stdout; stderr = output.stderr })
      else err (non_zero_exit worker (or_minus_one output.code) output.stderr)

  module _ {W : Type 0} (processes : Processes W) where
    unfoldable pub run_as :
        WorkerUser → PrivilegedCommand → Action W PrivilegedExecError CommandOutput
    unfolding sudo verdict
    run_as worker command = do
      waited ← infallible (processes.output_within self.timeout (sudo worker command))
      lift (verdict worker waited)

    unfoldable pub privileged_executor : PrivilegedExecutor W
    privileged_executor = record { run_as = run_as }
