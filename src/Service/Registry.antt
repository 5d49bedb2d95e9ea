-- ===== src/Service/Registry.antt =====
-- `TaskRegistry` of src/service/deps.rs. A `CancellationToken` is shared by those who cloned it, so
-- the tokens are numbers, in the order of their creation, and the cancelled ones are a list.
pub mod Laws
use app_salmon.Base.{
  ℕ, suc, Option, none, some, List, [], ◌∷◌, Bool, not, keep, ◌==◌, if◌then◌else◌,
}
use app_salmon.Domain.Ids.{ClusterId}
use app_salmon.Storage.Slots.{contains}

abbrev pub Token : Type 0
Token = ℕ

pub record TaskRegistry : Type 0 where
  pub tokens : List (ClusterId × Token)
  pub fresh : Token
  pub cancelled : List Token

abbrev pub token_of : ClusterId → List (ClusterId × Token) → Option Token
token_of id [] = none
token_of id ((key, token) ∷ rest) =
    let other = token_of id rest in if key == id then some token else other

abbrev pub without_id : ClusterId → List (ClusterId × Token) → List (ClusterId × Token)
without_id id = keep (λ e. not (e.0 == id))

abbrev pub is_cancelled : Token → TaskRegistry → Bool
is_cancelled token r = contains r.cancelled token

unfoldable pub register : ClusterId → TaskRegistry → Token × TaskRegistry
register id r =
    (r.fresh, record r { tokens = (id, r.fresh) ∷ without_id id r.tokens; fresh = suc r.fresh })

unfoldable pub cancel_token : Option Token → TaskRegistry → TaskRegistry
cancel_token none r = r
cancel_token (some token) r = record r { cancelled = token ∷ r.cancelled }

unfoldable pub cancel : ClusterId → TaskRegistry → TaskRegistry
cancel id r = cancel_token (token_of id r.tokens) r

unfoldable pub unregister : ClusterId → TaskRegistry → TaskRegistry
unregister id r = record r { tokens = without_id id r.tokens }
