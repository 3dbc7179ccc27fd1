-- ===== src/System/Unmount.antt =====
-- covert-server/src/system/mount.rs: unmounting a backend. Whether the tables of its own can be
-- dropped is a parameter.
pub mod Gone
pub mod Stranded
use covert.Prelude.{
  ℕ, zero, suc, Bool, true, false, List, [], ◌∷◌, Option, none, some, Str, first, select, str_eq,
  if◌then◌else◌, Result, ok, err, ok_or,
}
use covert.Prelude.Exec.{Exec, pure, raise, query, ◌>>=◌, ◌>>◌}
use covert.Server.Tables.{
  Tables, Namespace, MountEntry, LeaseEntry, Error, internal_error, not_found, mount_not_found,
  invalid_mount_type,
}
use covert.Mount
use covert.Mount.{get_by_path}
use covert.Router
use covert.Router.{Request}
use covert.Expiration.Revocation.{revoke_leases_by_mount_prefix}
use covert.System.{Context, is_system}

module _ {B R : Type 0} (handle_request : B → Request → Exec Tables Error R)
    (elapsed : LeaseEntry → Tables → Bool) where
  -- `revoke_leases_by_mount_prefix`, with the router as it is
  abbrev pub revoke_leases : Str → Str → Exec (Context B) Error (List LeaseEntry)
  revoke_leases path namespace_id s =
      let r =
        revoke_leases_by_mount_prefix handle_request elapsed s.router path namespace_id s.tables in
      (r.0, record s { tables = r.1 })

module _ {B : Type 0} where
  -- the router's `remove`, which must have found the mount
  abbrev pub unroute : Str → Exec (Context B) Error (Unit {0})
  unroute id s =
      let r = Router.remove id s.router in
      (if r.0 then ok tt else err mount_not_found, record s { router = r.1 })

  abbrev pub remove_row : Str → Str → Exec (Context B) Error Bool
  remove_row path namespace_id s =
      let r = Mount.remove_by_path path namespace_id s.tables in (r.0, record s { tables = r.1 })

module _ {B R : Type 0} (is_uuid : Str → Bool) (drops : MountEntry → Bool)
    (handle_request : B → Request → Exec Tables Error R)
    (elapsed : LeaseEntry → Tables → Bool) where
  -- `remove_mount`
  unfoldable pub remove_mount : Str → Str → Exec (Context B) Error MountEntry
  unfolding ◌>>=◌
  remove_mount path namespace_id = do
    me ← query (λ s. ok_or (get_by_path path namespace_id s.tables) mount_not_found)
    checked ← query (λ _. if is_system me.backend_type then err invalid_mount_type else ok tt)
    revoked ← revoke_leases handle_request elapsed path namespace_id
    unrouted ← unroute me.id
    removed ← remove_row path namespace_id
    parsed ← query (λ _. if is_uuid namespace_id then ok tt else err internal_error)
    dropped ← query (λ _. if drops me then ok tt else err internal_error)
    pure me
