-- ===== src/Server/Tables.antt =====
-- covert-server/migrations/encrypted/20221229_init.sql: the rows of the tables that the
-- repositories of covert-server/src/repos read and write. A new row stands first. A time is a number
-- of nanoseconds, and an id is a text. A policy row holds the paths themselves and not their JSON.
use covert.Prelude.{ℕ, List, Option, Str, codes, not, ◌&&◌, any, Bool, ◌==◌, leb}
use covert.Policy.{Policy}
use covert.Ttl.{MountConfig}

-- repos/namespace.rs, `Namespace`
pub record Namespace : Type 0 where
  pub id : Str
  pub name : Str
  pub parent_namespace_id : Option Str

-- covert-types/src/entity.rs, `Entity`
pub record Entity : Type 0 where
  pub name : Str
  pub namespace_id : Str

-- ENTITY_ALIASES
pub record AliasRow : Type 0 where
  pub name : Str
  pub mount_path : Str
  pub entity_name : Str
  pub namespace_id : Str

-- ENTITY_POLICIES
pub record EntityPolicyRow : Type 0 where
  pub entity_name : Str
  pub policy_name : Str
  pub namespace_id : Str

-- repos/token.rs, `TokenEntry`
pub record TokenEntry : Type 0 where
  pub id : Str
  pub entity_name : Str
  pub expires_at : Option ℕ
  pub issued_at : ℕ
  pub namespace_id : Str

-- covert-types/src/backend.rs, `BackendType`
pub data BackendType : Type 0 where
  kv postgres system userpass : BackendType

-- covert-types/src/mount.rs, `MountEntry`
pub record MountEntry : Type 0 where
  pub id : Str
  pub path : Str
  pub config : MountConfig
  pub backend_type : BackendType
  pub namespace_id : Str

-- expiration_manager/lease.rs, `LeaseEntry`
pub record LeaseEntry : Type 0 where
  pub id : Str
  pub issued_mount_path : Str
  pub revoke_path : Option Str
  pub revoke_data : Str
  pub renew_path : Option Str
  pub renew_data : Str
  pub issued_at : ℕ
  pub expires_at : ℕ
  pub last_renewal_time : ℕ
  pub failed_revocation_attempts : ℕ
  pub namespace_id : Str

pub record Tables : Type 0 where
  pub namespaces : List Namespace
  pub entities : List Entity
  pub policies : List Policy
  pub entity_aliases : List AliasRow
  pub entity_policies : List EntityPolicyRow
  pub tokens : List TokenEntry
  pub mounts : List MountEntry
  pub leases : List LeaseEntry

-- the variants of error.rs that the modelled functions return
pub data Error : Type 0 where
  storage internal_error bad_data not_found bad_request : Error
  mount_not_found mount_path_conflict invalid_mount_type : Error
  auth_backend_not_under_auth_path logical_backend_under_auth_path : Error
  unique_constraint_violation foreign_key_violation unauthorized timeout : Error
  renew_lease revoke_lease invalid_initialize_params state_transition master_key_recovery : Error
  seal_in_non_root_namespace invalid_state : Error

-- INSTR(name, c) != 0, for one character
abbrev pub holds_char : ℕ → Str → Bool
holds_char c name = any (λ d. d == c) name

-- LOWER(name) = name, where LOWER folds the letters of ASCII
abbrev pub is_lower_text : Str → Bool
is_lower_text name = not (any (λ c. leb b'A' c && leb c b'Z') name)

abbrev pub slash : ℕ
slash = b'/'

abbrev pub space : ℕ
space = b' '

abbrev pub root_name : Str
root_name = codes "root"
