-- ===== src/Access.antt =====
-- src/error.rs, src/rbac.rs and the token check of src/auth.rs: errors, roles, and who may act.
pub mod Roles
pub mod Credentials
mod Tests
use zed_api_server_rs.Prelude.{
  ℕ, Bool, true, false, ◌||◌, Option, none, some, List, [], ◌∷◌, ◌++◌, if◌then◌else◌, is_empty,
  ◌==◌, leb,
}
use zed_api_server_rs.Text.{Str, str, str_eq, strip_prefix, trim, bytes}
use zed_api_server_rs.Audit.{Token}

-- The status codes that errors carry.
pub data StatusCode : Type 0 where
  bad_request_400 unauthorized_401 forbidden_403 not_found_404 conflict_409 payload_too_large_413
        internal_server_error_500 service_unavailable_503 :
      StatusCode

pub record ApiErr : Type 0 where
  pub status : StatusCode
  pub code : Str
  pub message : Str

abbrev api_err : StatusCode → Str → Str → ApiErr
api_err status code message = record { status = status; code = code; message = message }

abbrev pub not_found : Str → ApiErr
not_found what = api_err not_found_404 (str "not_found") (what ++ str " not found")

abbrev pub bad_request : Str → Str → ApiErr
bad_request code message = api_err bad_request_400 code message

abbrev pub unauthorized : ApiErr
unauthorized = api_err unauthorized_401 (str "unauthorized") (str "missing or invalid bearer token")

abbrev pub forbidden : Str → Str → ApiErr
forbidden code message = api_err forbidden_403 code message

abbrev pub conflict : Str → Str → ApiErr
conflict code message = api_err conflict_409 code message

abbrev pub service_unavailable : Str → Str → ApiErr
service_unavailable code message = api_err service_unavailable_503 code message

-- `From<sea_orm::DbErr>`
abbrev pub database_error : ApiErr
database_error = api_err internal_server_error_500 (str "internal") (str "internal database error")

-- `From<anyhow::Error>`
unfoldable pub internal_error : ApiErr
unfolding str
internal_error = record {
  status = internal_server_error_500;
  code = str "internal";
  message = str "internal error";
}

-- `ApiResult<T>`
pub data ApiResult (A : Type 0) : Type 0 where
  ok : A → ApiResult A
  err : ApiErr → ApiResult A

infixl 10 ◌>>=◌
abbrev pub ◌>>=◌ : {A B : Type 0} → ApiResult A → (A → ApiResult B) → ApiResult B
ok a >>= f = f a
err e >>= f = err e

pub data Role : Type 0 where
  owner publisher reader : Role

-- `Role::parse`
unfoldable pub parse : Str → Role
unfolding str_eq str
parse s =
    if str_eq s (str "owner")
    then owner
    else if str_eq s (str "publisher")
    then publisher
    else if str_eq s (str "reader")
    then reader
    else reader

-- `Role::as_str`
unfoldable pub as_str : Role → Str
unfolding str
as_str owner = str "owner"
as_str publisher = str "publisher"
as_str reader = str "reader"

-- `Role::is_valid`
unfoldable pub is_valid : Str → Bool
unfolding str_eq str
is_valid s = str_eq s (str "owner") || str_eq s (str "publisher") || str_eq s (str "reader")

abbrev pub can_publish : Role → Bool
can_publish owner = true
can_publish publisher = true
can_publish reader = false

abbrev pub can_manage : Role → Bool
can_manage owner = true
can_manage publisher = false
can_manage reader = false

abbrev pub cannot_publish : Role → Str
cannot_publish role =
    str "this token's role (`"
    ++ as_str role
    ++ str "`) cannot publish; a `publisher` or `owner` token is required"

abbrev pub cannot_manage : Role → Str
cannot_manage role =
    str "this token's role (`"
    ++ as_str role
    ++ str "`) cannot manage the org; an `owner` token is required"

unfoldable pub authorize_publish : Option ℕ → Role → ℕ → ApiResult Unit
unfolding as_str
authorize_publish none role target_org = ok tt
authorize_publish (some scope) role target_org =
    if scope == target_org
    then if can_publish role
      then ok tt
      else err (forbidden (str "insufficient_role") (cannot_publish role))
    else err unauthorized

unfoldable pub authorize_manage : Option ℕ → Role → ℕ → ApiResult Unit
unfolding as_str
authorize_manage none role target_org = ok tt
authorize_manage (some scope) role target_org =
    if scope == target_org
    then if can_manage role
      then ok tt
      else err (forbidden (str "insufficient_role") (cannot_manage role))
    else err unauthorized

-- `bearer_token` on the text of the `Authorization` header, if it has one.
unfoldable pub bearer_token : Option Str → Option Str
unfolding strip_prefix trim str
bearer_token none = none
bearer_token (some header) = elim (strip_prefix header (str "Bearer ")) [
  | none ↦ none
  | some credential ↦ if is_empty (trim credential) then none else some (trim credential)
]

-- `.one()`: the first row that the filter keeps.
abbrev pub one {ℓ} : {A : Type ℓ} → (A → Bool) → List A → Option A
one p [] = none
one p (a ∷ as') = if p a then some a else one p as'

-- A query that a database error may end, and that must find a row.
abbrev pub query : {A : Type 0} → Bool → Option A → ApiErr → ApiResult A
query true found missing = err database_error
query false none missing = err missing
query false (some a) missing = ok a

abbrev pub is_expired : ℕ → Option ℕ → Bool
is_expired now none = false
is_expired now (some expires_at) = leb expires_at now

abbrev pub is_some {ℓ} : {A : Type ℓ} → Option A → Bool
is_some none = false
is_some (some a) = true

-- `hash_token` of a plaintext is a parameter, as SHA-256 is; `db_fails` tells whether the query does.
unfoldable pub require_token : (Str → Str) → ℕ → Bool → List Token → Option Str → ApiResult Token
unfolding bearer_token str_eq
require_token hash_token now db_fails tokens header = elim (bearer_token header) [
  | none ↦ err unauthorized
  | some plaintext ↦ do
    row ← query db_fails (one (λ t. str_eq t.token_hash (hash_token plaintext)) tokens) unauthorized
    if is_some row.revoked_at
        then err unauthorized
        else if is_expired now row.expires_at
        then err unauthorized
        else ok row
]
