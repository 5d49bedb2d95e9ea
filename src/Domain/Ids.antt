-- ===== src/Domain/Ids.antt =====
-- src/domain/ids.rs. The newtypes `ClusterId` (over `ulid::Ulid`, a 128-bit number) and `ClientId`
-- (over `String`) are transparent: they are compared, copied and printed through what they wrap.
use app_salmon.Base.{ℕ, String}

abbrev pub ClusterId : Type 0
ClusterId = ℕ

abbrev pub ClientId : Type 0
ClientId = String

pub record WorkerUser : Type 0 where
  pub name : String
  pub uid : ℕ
  pub gid : ℕ
