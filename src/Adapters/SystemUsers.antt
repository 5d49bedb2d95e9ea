-- ===== src/Adapters/SystemUsers.antt =====
-- src/adapters/system_users.rs: the numeric ids of the clients' accounts, from the text of the passwd
-- file. Reading the file is `tokio::fs`: a parameter.
pub mod Passwd
use app_salmon.Base.{
  ℕ, String, Bool, false, Option, none, some, List, [], ◌∷◌, Result, ok, err, text_eq,
  if◌then◌else◌, zero, suc, ◌>>=◌, ok_or,
}
use app_salmon.Base.Action.{Action, on_err, lift}
use app_salmon.Base.Action
use app_salmon.Base.Digits.{parse_below}
use app_salmon.Base.Lines.{split, lines}
use app_salmon.Domain.Ids.{ClientId, WorkerUser}
use app_salmon.Errors.{Source}
use app_salmon.Workers.{ClientWorkers}
use mathlib.Core.Option

pub data WorkerResolutionError : Type 0 where
  read : (path : String) (source : Source) → WorkerResolutionError
  account_not_found : (name : String) → WorkerResolutionError
  malformed_entry : (name : String) → WorkerResolutionError

-- The n-th piece.
abbrev field : ℕ → List String → Option String
field n [] = none
field zero (x ∷ xs) = some x
field (suc n) (x ∷ xs) = field n xs

abbrev pub is_first : String → List String → Bool
is_first name [] = false
is_first name (first ∷ rest) = text_eq first name

-- The first line whose first piece is the name.
unfoldable pub find_line : String → List String → Option (List String)
find_line name [] = none
find_line name (line ∷ rest) =
    let later = find_line name rest in
    if is_first name (split line ":") then some (split line ":") else later

abbrev pub parse_u32 : String → String → Result WorkerResolutionError ℕ
parse_u32 name text = ok_or (malformed_entry name) (parse_below 4294967296 text)

unfoldable pub ids_of : String → List String → Result WorkerResolutionError (ℕ × ℕ)
ids_of name fields = do
  uid_text ← ok_or (malformed_entry name) (field 2 fields)
  uid ← parse_u32 name uid_text
  gid_text ← ok_or (malformed_entry name) (field 3 fields)
  gid ← parse_u32 name gid_text
  ok (uid, gid)

unfoldable pub parse_uid_gid : String → String → Result WorkerResolutionError (ℕ × ℕ)
unfolding find_line ids_of
parse_uid_gid contents name = do
  fields ← ok_or (account_not_found name) (find_line name (lines contents))
  ids_of name fields

-- `.collect()` stops at the first error, and the last entry of a client counts.
unfoldable pub collect :
    String → ClientWorkers → List (ClientId × String) → Result WorkerResolutionError ClientWorkers
collect contents workers [] = ok workers
collect contents workers ((client_id, unix_user) ∷ clients) = do
  ids ← parse_uid_gid contents unix_user
  collect contents ((client_id, record { name = unix_user; uid = ids.0; gid = ids.1 }) ∷ workers)
      clients

module _ {W : Type 0} (read_to_string : String → Action W Source String) where
  unfoldable pub resolve_client_workers :
      String → List (ClientId × String) → Action W WorkerResolutionError ClientWorkers
  unfolding collect
  resolve_client_workers passwd_path clients =
      Action.◌>>=◌ (on_err (read passwd_path) (read_to_string passwd_path))
        (λ contents. lift (collect contents [] clients))
