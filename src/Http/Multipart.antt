-- ===== src/Http/Multipart.antt =====
-- src/http/handlers.rs: the multipart body of a create request. Its fields are read one after
-- another; the reader may fail at the next field, and so may the reading of a field's bytes.
pub mod Laws
use Prim.Native.String.{◌++◌}
use app_salmon.Base.{
  ℕ, String, Option, none, some, List, [], ◌∷◌, Result, ok, err, ok_or, map_err, ◌>>=◌, text_eq,
  if◌then◌else◌,
}
use app_salmon.Domain.ServiceKind.{ServiceKind}
use app_salmon.Domain.ServiceKind
use app_salmon.Errors.{Source}
use app_salmon.Http.ApiErrors.{ApiError, bad_request}
use app_salmon.Http.Responses.{CreateClusterRequest}

pub record Field : Type 0 where
  pub name : Option String
  pub bytes : Result Source (List ℕ)

-- The fields that `next_field` still gives, and the error that it ends with, if it does.
pub data Fields : Type 0 where
  end : Fields
  broken : Source → Fields
  field : Field → Fields → Fields

-- What the loop has collected.
pub record Parts : Type 0 where
  pub metadata : Option CreateClusterRequest
  pub project_tar : Option (List ℕ)

invalid_body : Source → ApiError
invalid_body e = bad_request ("invalid multipart body: " ++ e)

module _ (from_slice : List ℕ → Result Source CreateClusterRequest) where
  take_metadata : Parts → List ℕ → Result ApiError Parts
  take_metadata parts bytes = do
    metadata ← map_err (λ e. bad_request ("invalid \"metadata\" part: " ++ e)) (from_slice bytes)
    ok (record parts { metadata = some metadata })

  take_named : Parts → Field → String → Result ApiError Parts
  unfolding take_metadata invalid_body
  take_named parts f name =
      if text_eq name "metadata"
      then map_err invalid_body f.bytes >>= take_metadata parts
      else if text_eq name "project_tar"
      then (map_err invalid_body f.bytes >>= λ bytes.
          ok (record parts { project_tar = some bytes }))
      else ok parts

  take_field : Parts → Field → Option String → Result ApiError Parts
  unfolding take_named
  take_field parts f none = ok parts
  take_field parts f (some name) = take_named parts f name

  collect : Parts → Fields → Result ApiError Parts
  unfolding take_field
  collect parts end = ok parts
  collect parts (broken e) = err (invalid_body e)
  collect parts (field f rest) = do parts' ← take_field parts f f.name; collect parts' rest

  only_supabase :
      ServiceKind → CreateClusterRequest → List ℕ → Result ApiError (CreateClusterRequest × List ℕ)
  only_supabase ServiceKind.supabase metadata project_tar = ok (metadata, project_tar)
  only_supabase ServiceKind.postgres metadata project_tar =
      err (bad_request "multipart/form-data requests are only accepted for service \"supabase\"")

  unfoldable pub parse_multipart_create_request :
      Fields → Result ApiError (CreateClusterRequest × List ℕ)
  unfolding collect only_supabase invalid_body
  parse_multipart_create_request multipart = do
    parts ← collect (record { metadata = none; project_tar = none }) multipart
    metadata ← ok_or (bad_request "multipart request missing a \"metadata\" part") parts.metadata
    project_tar ←
        ok_or (bad_request "multipart request missing a \"project_tar\" part") parts.project_tar
    only_supabase metadata.service metadata project_tar
