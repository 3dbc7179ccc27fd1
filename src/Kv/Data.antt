-- ===== src/Kv/Data.antt =====
-- backend/covert-kv: domain/, error.rs, migrations/ and covert-types/src/methods/kv/mod.rs.
use covert.Prelude.{ℕ, Bool, List, Option, Str, Result, ok, ◌≡◌}

-- domain/secret.rs. A time is a number of nanoseconds.
pub record Secret : Type 0 where
  pub key : Str
  pub version : ℕ
  pub value : Option Str
  pub created_time : ℕ
  pub deleted : Bool
  pub destroyed : Bool

-- domain/config.rs
pub record Configuration : Type 0 where
  pub max_versions : ℕ

abbrev pub default_max_versions : ℕ
default_max_versions = 10

abbrev pub default_config : Configuration
default_config = record { max_versions = default_max_versions }

-- The tables SECRETS and CONFIG. The lock column lets CONFIG hold one row at most. No statement
-- depends on the order of SECRETS, and a new row stands first.
pub record Db : Type 0 where
  pub secrets : List Secret
  pub config : Option Configuration

-- error.rs
pub data ErrorType : Type 0 where
  storage internal_error bad_request metadata_not_found : ErrorType
  key_version_not_found missing_key_versions : ErrorType

pub data StatusCode : Type 0 where
  internal_server_error bad_request_code not_found : StatusCode

-- `From<Error> for ApiError`
unfoldable pub status_code : ErrorType → StatusCode
status_code storage = internal_server_error
status_code internal_error = internal_server_error
status_code bad_request = bad_request_code
status_code missing_key_versions = bad_request_code
status_code metadata_not_found = not_found
status_code key_version_not_found = not_found

pub record SecretMetadata : Type 0 where
  pub max_version : ℕ
  pub min_version : ℕ

pub record CreateSecretResponse : Type 0 where
  pub version : ℕ
  pub created_time : ℕ
  pub deleted : Bool
  pub destroyed : Bool
  pub min_version : ℕ
  pub max_version : ℕ

-- What the engine uses of other crates: the JSON values and their text (serde_json), and what sqlx
-- makes of a NULL that is read into a `u32`.
pub record Crates : Type 1 where
  pub Json : Type 0
  pub to_string : Json → Result ErrorType Str
  pub from_str : Str → Result ErrorType Json
  pub from_str-to_string : (j : Json) (s : Str) → to_string j ≡ ok s → from_str s ≡ ok j
  pub null_u32 : Result ErrorType ℕ
