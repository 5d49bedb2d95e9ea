-- ===== src/Adapters/SudoExec/Argv.antt =====
-- src/adapters/sudo_exec.rs: what reaches `sudo`.
use app_salmon.Base.{
  ℕ, ◌≡◌, ap, String, Bool, true, false, List, [], ◌∷◌, text_eq, arith, zero, suc,
}
use text.Mathlib.TextLemmas.{append_cancel_right}
use app_salmon.Domain.Ids.{WorkerUser}
use app_salmon.Ports.{PrivilegedCommand, prepare_worker_dir, wipe_worker_dir, adopt_staged_tree}
use app_salmon.Adapters.SudoExec.{SudoExecutor, program_and_args, sudo}

abbrev nth : ℕ → List String → String
nth n [] = ""
nth zero (x ∷ xs) = x
nth (suc n) (x ∷ xs) = nth n xs

-- The program after the options of `sudo`, and its arguments.
abbrev run_part : List String → String × List String
run_part (option ∷ worker ∷ dashes ∷ program ∷ args) = (program, args)
run_part _ = ("", [])

different : ◌≡◌ {A = Bool} true false → ⊥
different h = ground arith

same_command : (c c' : PrivilegedCommand) → program_and_args c ≡ program_and_args c' → c ≡ c'
unfolding program_and_args
same_command (prepare_worker_dir p) (prepare_worker_dir q) h =
    ap prepare_worker_dir (ap (λ (x : String × List String). nth 1 x.1) h)
same_command (wipe_worker_dir p) (wipe_worker_dir q) h =
    ap wipe_worker_dir (ap (λ (x : String × List String). nth 0 x.1) h)
same_command (adopt_staged_tree p d) (adopt_staged_tree q e) h =
    let source = append_cancel_right p q "/." (ap (λ (x : String × List String). nth 1 x.1) h) in
    let dest = ap (λ (x : String × List String). nth 2 x.1) h in cc
same_command (prepare_worker_dir p) (wipe_worker_dir q) h =
    absurd (different (ap (λ (x : String × List String). text_eq x.0 "mkdir") h))
same_command (prepare_worker_dir p) (adopt_staged_tree q e) h =
    absurd (different (ap (λ (x : String × List String). text_eq x.0 "mkdir") h))
same_command (wipe_worker_dir p) (prepare_worker_dir q) h =
    absurd (different (ap (λ (x : String × List String). text_eq x.0 "find") h))
same_command (wipe_worker_dir p) (adopt_staged_tree q e) h =
    absurd (different (ap (λ (x : String × List String). text_eq x.0 "find") h))
same_command (adopt_staged_tree p d) (prepare_worker_dir q) h =
    absurd (different (ap (λ (x : String × List String). text_eq x.0 "cp") h))
same_command (adopt_staged_tree p d) (wipe_worker_dir q) h =
    absurd (different (ap (λ (x : String × List String). text_eq x.0 "cp") h))

-- The arguments that reach `sudo` settle the request: two requests with the same arguments name the
-- same account and are the same operation on the same paths, whatever the paths and names hold.
pub sudo_injective :
    (self : SudoExecutor) (worker worker' : WorkerUser) (c c' : PrivilegedCommand)
    → (sudo self worker c).args ≡ (sudo self worker' c').args
    → (worker.name ≡ worker'.name) × (c ≡ c')
unfolding sudo program_and_args
sudo_injective self worker worker' c c' h = (ap (nth 1) h, same_command c c' (ap run_part h))
