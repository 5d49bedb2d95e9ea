-- ===== src/Tests/Sudo.antt =====
-- The theorem about src/adapters/sudo_exec.rs applied to the paths of one worker.
use Prim.Native.String.{◌++◌}
use app_salmon.Base.{◌≡◌, refl}
use app_salmon.Ports.{PrivilegedCommand, adopt_staged_tree}
use app_salmon.Adapters.SudoExec.{SudoExecutor}
use app_salmon.Adapters.SudoExec.Argv.{sudo_injective}
use app_salmon.Tests.Samples.{worker}

abbrev executor : SudoExecutor
executor = record { sudo_path = "sudo"; timeout = 30000000000 }

abbrev adopted : PrivilegedCommand
adopted = adopt_staged_tree "/tmp/staging; rm -rf" "/srv/w/slot-0"

abbrev joined : PrivilegedCommand
joined = adopt_staged_tree ("/tmp/staging;" ++ " rm -rf") "/srv/w/slot-0"

sudo_injective_example : (worker.name ≡ worker.name) × (adopted ≡ joined)
sudo_injective_example = sudo_injective executor worker worker adopted joined refl
