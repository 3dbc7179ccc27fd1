-- ===== src/Router.antt =====
-- covert-server/src/router.rs: which backend a request goes to, and what the backend sees of it. The
-- lookup is an association list of its own, since requests are routed with the lookup as it is.
-- A backend's handler is a parameter.
pub mod Dispatch
pub mod Prefixes
use covert.Prelude.{
  ℕ, zero, suc, Bool, true, false, List, [], ◌∷◌, Option, none, some, Str, codes, length, any,
  select, delete, str_eq, starts_with, if◌then◌else◌, Result, ok, err, ok_or, ◌>>=◌,
}
use covert.Policy.Paths.{Operation}
use covert.Ttl.{MountConfig, default_config}
use covert.Auth.{StorageState}
use covert.Mount.{longest_prefix}
use covert.Server.Tables.{
  Tables, Namespace, MountEntry, Error, internal_error, mount_not_found, unauthorized,
}

-- covert-types/src/auth.rs
pub data AuthPolicy : Type 0 where
  authenticated unauthenticated : AuthPolicy

-- covert-types/src/request.rs: `Request`. The extensions are the fields from `ns` on.
pub record Request : Type 0 where
  pub operation : Operation
  pub namespace : List Str
  pub path : Str
  pub payload : Str
  pub params : List Str
  pub token : Option Str
  pub ns : Option Namespace
  pub config : Option MountConfig
  pub storage_state : Option StorageState
  pub auth_policy : Option AuthPolicy

abbrev pub drop : ℕ → Str → Str
drop zero s = s
drop (suc n) [] = []
drop (suc n) (c ∷ s) = drop n s

-- `Request::advance_path`
unfoldable pub advance_path : Str → Request → Bool × Request
advance_path prefix req =
    if starts_with req.path prefix
    then (true, record req { path = drop (length prefix) req.path })
    else (false, req)

-- system/mod.rs, `SYSTEM_MOUNT_PATH`
abbrev pub system_mount_path : Str
system_mount_path = codes "sys/"

abbrev pub system_key : Str
system_key = codes "system"

-- response.rs, `ResponseContext`
pub record ResponseContext : Type 0 where
  pub backend_config : MountConfig
  pub backend_mount_path : Str

module _ {B : Type 0} where
  -- DashMap's `get`, `insert` and `remove`
  abbrev pub get : Str → List (Str × B) → Option B
  get key [] = none
  get key (e ∷ es) = if str_eq e.0 key then some e.1 else get key es

  abbrev put : Str → B → List (Str × B) → List (Str × B)
  put key b es = (key, b) ∷ delete (λ e. str_eq e.0 key) es

  -- `mount`
  unfoldable pub mount : Str → B → List (Str × B) → List (Str × B)
  mount mount_id backend es = put mount_id backend es

  -- `mount_system`
  unfoldable pub mount_system : B → List (Str × B) → List (Str × B)
  mount_system backend es = put system_key backend es

  -- `get_system_mount`
  unfoldable pub get_system_mount : List (Str × B) → Option B
  get_system_mount es = get system_key es

  -- `remove`
  unfoldable pub remove : Str → List (Str × B) → Bool × List (Str × B)
  remove mount_id es = (any (λ e. str_eq e.0 mount_id) es, delete (λ e. str_eq e.0 mount_id) es)

  -- `clear_mounts`
  unfoldable pub clear_mounts : List (Str × B) → List (Str × B)
  clear_mounts es = []

  abbrev pub to_system : List (Str × B) → Result Error (B × Str × MountConfig)
  to_system es = do
    backend ← ok_or (get_system_mount es) internal_error
    ok (backend, system_mount_path, default_config)

  abbrev pub to_mount :
      List (Str × B) → Request → Namespace → Tables → Result Error (B × Str × MountConfig)
  to_mount es req ns t = do
    mount ← ok_or (longest_prefix req.path ns.id t) mount_not_found
    backend ← ok_or (get mount.id es) internal_error
    ok (backend, mount.path, mount.config)

  -- the `match` of `route`: the backend, its mount path and its configuration
  unfoldable pub resolve : List (Str × B) → Request → Tables → Result Error (B × Str × MountConfig)
  resolve es req t = elim req.ns [
    | some ns ↦
        if starts_with req.path system_mount_path then to_system es else to_mount es req ns t
    | none ↦ if starts_with req.path system_mount_path then to_system es else err unauthorized
  ]

abbrev pub as_seen : Request → Str → MountConfig → Request
as_seen req path config = record (advance_path path req).1 { config = some config }
