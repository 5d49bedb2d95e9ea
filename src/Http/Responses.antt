-- ===== src/Http/Responses.antt =====
-- The JSON bodies of src/http/handlers.rs, and the response as a status with one of them. The
-- serialisation is serde's.
pub mod Info
use app_salmon.Base.{ℕ, String, List, Bool}
use app_salmon.Domain.Time.{DateTime}
use app_salmon.Domain.Ids.{ClusterId}
use app_salmon.Domain.ServiceKind.{ServiceKind}
use app_salmon.Base.Int.{ℤ}

pub record CreateClusterRequest : Type 0 where
  pub service : ServiceKind
  pub pgvector : Bool
  pub ttl_secs : ℤ  -- i64

pub record CreateClusterResponse : Type 0 where
  pub id : ClusterId
  pub status : String
  pub requested_at : DateTime
  pub estimated_ready_at : DateTime

pub record PostgresConnectionResponse : Type 0 where
  pub host : String
  pub port : ℕ
  pub dbname : String
  pub user : String
  pub password : String

pub data ConnectionResponse : Type 0 where
  postgres : (host : String) (port : ℕ) (dbname user password : String) → ConnectionResponse
  supabase :
      (api_url : String) (postgres : PostgresConnectionResponse)
      (anon_key service_role_key jwt_secret : String)
      → ConnectionResponse

pub data ClusterInfoResponse : Type 0 where
  spawning : (requested_at estimated_ready_at : DateTime) → ClusterInfoResponse
  ready :
      (requested_at started_at scheduled_decommission_at : DateTime)
      (connection : ConnectionResponse)
      → ClusterInfoResponse
  failed : (requested_at failed_at : DateTime) (error : String) → ClusterInfoResponse
  deleting : (message : String) → ClusterInfoResponse

pub record ClusterListEntry : Type 0 where
  pub id : ClusterId
  pub info : ClusterInfoResponse

pub record DeleteResponse : Type 0 where
  pub status : String

pub record ErrorBody : Type 0 where
  pub error : String
  pub message : String

pub data Body : Type 0 where
  created : CreateClusterResponse → Body
  about : ClusterInfoResponse → Body
  listed : List ClusterListEntry → Body
  deletion : DeleteResponse → Body
  problem : ErrorBody → Body

pub record Response : Type 0 where
  pub status : ℕ
  pub body : Body
