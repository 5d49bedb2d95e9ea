-- ===== src/Domain/ServiceKind.antt =====
-- src/domain/service_kind.rs and src/redacted.rs.
use app_salmon.Base.{ℕ, String, Bool}

pub data ServiceKind : Type 0 where
  postgres supabase : ServiceKind

pub record ServiceSpec : Type 0 where
  pub kind : ServiceKind
  pub pgvector : Bool

-- A secret; `expose` is the one way to read it back.
pub record Redacted (T : Type 0) : Type 0 where
  pub expose : T

pub record PostgresConnectionInfo : Type 0 where
  pub host : String
  pub port : ℕ  -- u16
  pub dbname : String
  pub user : String
  pub password : Redacted String

pub record SupabaseConnectionInfo : Type 0 where
  pub api_url : String
  pub postgres : PostgresConnectionInfo
  pub anon_key : Redacted String
  pub service_role_key : Redacted String
  pub jwt_secret : Redacted String

pub data ConnectionInfo : Type 0 where
  of_postgres : PostgresConnectionInfo → ConnectionInfo
  of_supabase : SupabaseConnectionInfo → ConnectionInfo
