-- ===== src/Kv/Handlers.antt =====
-- backend/covert-kv/src: create_secret.rs, soft_delete_secret.rs, hard_delete_secret.rs, config.rs.
use covert.Prelude.{
  ℕ, ◌+◌, ◌%◌, ◌^◌, Bool, true, false, ◌&&◌, not, List, Option, none, some, Str, is_empty, [], ◌∷◌,
  if◌then◌else◌, Result, ok, err,
}
use covert.Prelude
use covert.Prelude.Exec.{Exec, pure, raise, query, modify, ◌>>=◌, ◌>>◌}
use covert.Kv.Data.{
  Secret, Configuration, Db, ErrorType, internal_error, metadata_not_found, key_version_not_found,
  missing_key_versions, SecretMetadata, CreateSecretResponse, Crates,
}
use covert.Kv.Secrets
use covert.Kv.Config

module _ (crates : Crates) where
  open crates use {Json, to_string, from_str, null_u32}

  pub record ReadSecretResponse : Type 0 where
    pub content : Option Json
    pub metadata : CreateSecretResponse

  abbrev pub next_version : Option SecretMetadata → ℕ
  next_version none = 0
  next_version (some v) = (v.max_version + 1) % 2 ^ 32

  -- `add_secret`; `u32` wraps at the last version, as in a release build
  unfoldable pub add_secret : Str → Json → ℕ → Exec Db ErrorType CreateSecretResponse
  add_secret key body now = do
    version_metadata ← query (Secrets.version_metadata null_u32 key)
    value ← query (λ _. to_string body)
    let secret : Secret = record {
      key = key;
      version = next_version version_metadata;
      value = some value;
      created_time = now;
      deleted = false;
      destroyed = false;
    }
    Secrets.insert secret
    config ← Config.load
    modify (Secrets.prune_old_versions key config.max_versions) tt
    found ← query (Secrets.version_metadata null_u32 key)
    metadata ← query (λ _. Prelude.ok_or found internal_error)
    pure (record {
      version = secret.version;
      created_time = secret.created_time;
      deleted = secret.deleted;
      destroyed = secret.destroyed;
      min_version = metadata.min_version;
      max_version = metadata.max_version;
    })

  abbrev pub read_value : Option Str → Result ErrorType (Option Json)
  read_value none = ok none
  read_value (some value) = elim (from_str value) [ ok j ↦ ok (some j) | err e ↦ err e ]

  abbrev pub unwrap_or : Option ℕ → ℕ → ℕ
  unwrap_or none d = d
  unwrap_or (some v) d = v

  -- `read_secret`
  unfoldable pub read_secret : Str → Option ℕ → Exec Db ErrorType ReadSecretResponse
  read_secret key version = do
    found ← query (Secrets.version_metadata null_u32 key)
    version_metadata ← query (λ _. Prelude.ok_or found metadata_not_found)
    let version : ℕ = unwrap_or version version_metadata.max_version
    secret ← query (λ db. Prelude.ok_or (Secrets.get key version db) key_version_not_found)
    content ← query (λ _.
        if not secret.deleted && not secret.destroyed then read_value secret.value else ok none)
    pure (record {
      content = content;
      metadata = record {
        version = version;
        created_time = secret.created_time;
        deleted = secret.deleted;
        destroyed = secret.destroyed;
        min_version = version_metadata.min_version;
        max_version = version_metadata.max_version;
      };
    })

-- `soft_delete_secret`; the result is the response's `not_deleted`
unfoldable pub soft_delete_secret : Str → List ℕ → Exec Db ErrorType (List ℕ)
soft_delete_secret key versions =
    if is_empty versions then raise missing_key_versions else Secrets.soft_delete key versions

-- `path_undelete_write`; the result is the response's `not_recovered`
unfoldable pub path_undelete_write : Str → List ℕ → Exec Db ErrorType (List ℕ)
path_undelete_write key versions =
    if is_empty versions then raise missing_key_versions else Secrets.recover key versions

-- `hard_delete_secret`; the result is the response's `not_deleted`
unfoldable pub hard_delete_secret : Str → List ℕ → Exec Db ErrorType (List ℕ)
hard_delete_secret key versions =
    if is_empty versions then raise missing_key_versions else Secrets.hard_delete key versions

-- `set_config`
unfoldable pub set_config : ℕ → Exec Db ErrorType ℕ
set_config max_versions = do
  let config : Configuration = record { max_versions = max_versions }
  Config.set config
  pure config.max_versions

-- `read_config`
unfoldable pub read_config : Exec Db ErrorType ℕ
read_config = do config ← Config.load; pure config.max_versions

-- The requests of the engine's router (lib.rs), and the state that each leaves.
pub data Call (crates : Crates) : Type 0 where
  adds : Str → crates.Json → ℕ → Call crates
  reads : Str → Option ℕ → Call crates
  soft_deletes undeletes destroys : Str → List ℕ → Call crates
  sets_config : ℕ → Call crates
  reads_config : Call crates

unfoldable pub step : (crates : Crates) → Db → Call crates → Db
step crates db (adds key body now) = (add_secret crates key body now db).1
step crates db (reads key version) = (read_secret crates key version db).1
step crates db (soft_deletes key versions) = (soft_delete_secret key versions db).1
step crates db (undeletes key versions) = (path_undelete_write key versions db).1
step crates db (destroys key versions) = (hard_delete_secret key versions db).1
step crates db (sets_config max_versions) = (set_config max_versions db).1
step crates db reads_config = (read_config db).1

unfoldable pub run : (crates : Crates) → Db → List (Call crates) → Db
run crates db [] = db
run crates db (c ∷ cs) = run crates (step crates db c) cs
