-- ===== src/System.antt =====
-- covert-server/src/system/mount.rs: mounting a backend and changing a mount's configuration. The
-- making of a backend, its migrations, which write tables of its own only, and the test for a UUID
-- are parameters, and the id that is drawn is an argument.
pub mod Mounted
pub mod Entities
pub mod Handlers
pub mod Opening
pub mod Routes
pub mod Tokens
pub mod Unmount
pub mod Namespaces
use covert.Prelude.{
  ◌&&◌, ◌||◌, not, Bool, true, false, List, ◌∷◌, Option, none, some, Str, codes, starts_with,
  if◌then◌else◌, Result, ok, err, ok_or,
}
use covert.Prelude.Exec.{Exec, pure, raise, query, ◌>>=◌}
use covert.Ttl.{MountConfig}
use covert.Server.Tables.{
  Tables, MountEntry, BackendType, kv, postgres, system, userpass, Error, internal_error,
  mount_not_found, mount_path_conflict, invalid_mount_type, auth_backend_not_under_auth_path,
  logical_backend_under_auth_path,
}
use covert.Mount
use covert.Mount.{longest_prefix, get_by_path}
use covert.Router
use covert.Router.{system_mount_path}

-- the part of `Context` that is used here: the tables and the router's lookup
pub record Context (B : Type 0) : Type 0 where
  pub tables : Tables
  pub router : List (Str × B)

abbrev pub is_system : BackendType → Bool
is_system kv = false
is_system postgres = false
is_system system = true
is_system userpass = false

-- `BackendCategory::from(variant) == BackendCategory::Credential`
abbrev pub is_auth_backend : BackendType → Bool
is_auth_backend kv = false
is_auth_backend postgres = false
is_auth_backend system = false
is_auth_backend userpass = true

abbrev pub is_auth_path : Str → Bool
is_auth_path path = starts_with path (codes "auth/")

abbrev pub is_system_path : Str → Bool
is_system_path path = starts_with path system_mount_path || starts_with system_mount_path path

pub record Backends (B : Type 0) : Type 0 where
  pub is_uuid : Str → Bool
  pub new_backend : BackendType → Result Error B
  pub migrate : B → Str → Result Error (Unit {0})

module _ {B : Type 0} (backends : Backends B) where
  open backends use {is_uuid, new_backend, migrate}

  abbrev pub on_tables : {A : Type 0} → Exec Tables Error A → Exec (Context B) Error A
  on_tables m s = ((m s.tables).0, record s { tables = (m s.tables).1 })

  -- `mount_route_entry`
  unfoldable pub mount_route_entry : Str → BackendType → Str → Exec (Context B) Error B
  mount_route_entry id variant namespace_id s =
      if is_uuid namespace_id
      then elim (new_backend variant) [
        | ok backend ↦ (ok backend, record s { router = Router.mount id backend s.router })
        | err e ↦ (err e, s)
      ]
      else (err internal_error, s)

  -- `mount`, once it has passed its tests
  unfoldable pub mount_entry : MountEntry → Exec (Context B) Error Str
  unfolding ◌>>=◌
  mount_entry entry = do
    backend ← mount_route_entry entry.id entry.backend_type entry.namespace_id
    created ← on_tables (Mount.create entry)
    migrated ← query (λ s. migrate backend entry.id)
    pure entry.id

  -- `mount`
  unfoldable pub mount : MountEntry → Exec (Context B) Error Str
  unfolding mount_entry
  mount entry s =
      if is_system entry.backend_type
      then (err invalid_mount_type, s)
      else if is_system_path entry.path
      then (err mount_path_conflict, s)
      else elim (longest_prefix entry.path entry.namespace_id s.tables) [
        | some m ↦ (err mount_path_conflict, s)
        | none ↦
            if is_auth_backend entry.backend_type && not (is_auth_path entry.path)
            then (err auth_backend_not_under_auth_path, s)
            else if not (is_auth_backend entry.backend_type) && is_auth_path entry.path
            then (err logical_backend_under_auth_path, s)
            else mount_entry entry s
      ]

-- `update_mount`
unfoldable pub update_mount : Str → Str → MountConfig → Exec Tables Error MountEntry
unfolding ◌>>=◌
update_mount path namespace_id config = do
  me ← query (λ t. ok_or (get_by_path path namespace_id t) mount_not_found)
  set ← Mount.set_config me.path namespace_id config
  pure (record me { config = config })
