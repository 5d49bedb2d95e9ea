-- ===== src/Http/Multipart/Laws.antt =====
-- src/http/handlers.rs: what a multipart body is refused for, and what is read from one that is not.
use app_salmon.Base.{
  ℕ, String, Option, none, some, List, Result, ok, err, ok_or, map_err, ◌>>=◌, Bool-cases, inl, inr,
  text_eq,
}
use app_salmon.Domain.ServiceKind.{ServiceKind, postgres, supabase}
use app_salmon.Errors.{Source}
use app_salmon.Http.ApiErrors.{ApiError, bad_request}
use app_salmon.Http.Responses.{CreateClusterRequest}
use app_salmon.Http.Multipart.{
  Field, Fields, end, broken, field, Parts, invalid_body, take_metadata, take_named, take_field,
  collect, only_supabase, parse_multipart_create_request,
}

-- A result that is an error only as a bad request.
abbrev pub BlamesRequest : {A : Type 0} → Result ApiError A → Type 0
BlamesRequest (ok _) = Unit
BlamesRequest (err (bad_request _)) = Unit
BlamesRequest (err _) = ⊥

pub bind-BlamesRequest :
    {A B : Type 0} (m : Result ApiError A) (f : A → Result ApiError B)
    → BlamesRequest m
    → ((a : A) → BlamesRequest (f a))
    → BlamesRequest (m >>= f)
bind-BlamesRequest (ok a) f h k = k a
bind-BlamesRequest (err (bad_request _)) f h k = tt
bind-BlamesRequest (err _) f h k = absurd h

pub map_err-BlamesRequest :
    {E A : Type 0} (f : E → String) (r : Result E A)
    → BlamesRequest (map_err (λ e. bad_request (f e)) r)
map_err-BlamesRequest f (ok a) = tt
map_err-BlamesRequest f (err e) = tt

ok_or-BlamesRequest :
    {A : Type 0} (message : String) (o : Option A) → BlamesRequest (ok_or (bad_request message) o)
ok_or-BlamesRequest message none = tt
ok_or-BlamesRequest message (some a) = tt

module _ (from_slice : List ℕ → Result Source CreateClusterRequest) where
  take_named-BlamesRequest :
      (parts : Parts) (f : Field) (name : String)
      → BlamesRequest (take_named from_slice parts f name)
  unfolding take_named take_metadata invalid_body
  take_named-BlamesRequest parts f name = elim (Bool-cases (text_eq name "metadata")) [
    | inl meta ↦ rw meta (
        bind-BlamesRequest (map_err invalid_body f.bytes) (take_metadata from_slice parts)
          (map_err-BlamesRequest _ f.bytes)
          (λ bytes. bind-BlamesRequest _ _ (map_err-BlamesRequest _ (from_slice bytes)) (λ m. tt)))
    | inr other ↦ rw other (elim (Bool-cases (text_eq name "project_tar")) [
      | inl tar ↦ rw tar (
          bind-BlamesRequest (map_err invalid_body f.bytes) _ (map_err-BlamesRequest _ f.bytes)
            (λ bytes. tt))
      | inr unknown ↦ rw unknown tt
    ])
  ]

  take_field-BlamesRequest :
      (parts : Parts) (f : Field) (name : Option String)
      → BlamesRequest (take_field from_slice parts f name)
  unfolding take_field
  take_field-BlamesRequest parts f none = tt
  take_field-BlamesRequest parts f (some name) = take_named-BlamesRequest parts f name

  collect-BlamesRequest :
      (parts : Parts) (fields : Fields) → BlamesRequest (collect from_slice parts fields)
  unfolding collect invalid_body
  collect-BlamesRequest parts end = tt
  collect-BlamesRequest parts (broken e) = tt
  collect-BlamesRequest parts (field f rest) =
      bind-BlamesRequest (take_field from_slice parts f f.name) _
        (take_field-BlamesRequest parts f f.name) (λ parts'. collect-BlamesRequest parts' rest)

  only_supabase-BlamesRequest :
      (kind : ServiceKind) (metadata : CreateClusterRequest) (tar : List ℕ)
      → BlamesRequest (only_supabase from_slice kind metadata tar)
  unfolding only_supabase
  only_supabase-BlamesRequest supabase metadata tar = tt
  only_supabase-BlamesRequest postgres metadata tar = tt

  pub parse-BlamesRequest :
      (fields : Fields) → BlamesRequest (parse_multipart_create_request from_slice fields)
  unfolding parse_multipart_create_request
  parse-BlamesRequest fields =
      bind-BlamesRequest (collect from_slice _ fields) _ (collect-BlamesRequest _ fields) λ parts.
        bind-BlamesRequest (ok_or _ parts.metadata) _ (ok_or-BlamesRequest _ parts.metadata)
          λ metadata.
            bind-BlamesRequest (ok_or _ parts.project_tar) _
              (ok_or-BlamesRequest _ parts.project_tar)
              λ tar. only_supabase-BlamesRequest metadata.service metadata tar
