-- ===== src/System/Unmount/Stranded.antt =====
-- covert-server/src/system/mount.rs: unmounting where a lease of the mount cannot be revoked.
use covert.Prelude.{
  ◌≡◌, refl, ap, ◌∙◌, Bool, true, false, some, Str, any, first, select, str_eq, err, any-delete,
}
use covert.Prelude.Exec.{Exec, ◌>>=◌}
use covert.Server.Tables.{Tables, MountEntry, LeaseEntry, Error, storage}
use covert.Mount.{is_mount, has_lease, get_by_path, remove_by_path}
use covert.Router
use covert.Router.{Request}
use covert.Expiration.Revocation.{revoke_leases_by_mount_prefix}
use covert.Expiration.Revocation.Outcome.{IsQuiet}
use covert.System.{Context, is_system}
use covert.System.Unmount.{remove_mount}
use covert.System.Unmount.Gone.{revoked, revoked-mounts, get_by_path-any}

module _ {B R : Type 0} (is_uuid : Str → Bool) (drops : MountEntry → Bool)
    (handle_request : B → Request → Exec Tables Error R) (elapsed : LeaseEntry → Tables → Bool)
    (quiet : IsQuiet handle_request) where
  get_by_path-revoked :
      (path namespace_id : Str) (s : Context B)
      → get_by_path path namespace_id (revoked handle_request elapsed path namespace_id s)
        ≡ get_by_path path namespace_id s.tables
  unfolding get_by_path
  get_by_path-revoked path namespace_id s =
      ap (λ rows. first (select (is_mount path namespace_id) rows))
        (revoked-mounts handle_request elapsed quiet path namespace_id s)

  -- Where a lease of the mount is left when the revocations have ended, which are not asked
  -- whether they succeeded, unmounting fails on it; the row of the mount stays, but its backend is
  -- gone from the router. The backends revoke without touching the tables of leases, namespaces
  -- and mounts, and the mount has a backend and is not of the system.
  pub remove_mount_stranded :
      (path namespace_id : Str) (s : Context B) (me : MountEntry)
      → get_by_path path namespace_id s.tables ≡ some me
      → is_system me.backend_type ≡ false
      → any (λ e. str_eq e.0 me.id) s.router ≡ true
      → has_lease path namespace_id (revoked handle_request elapsed path namespace_id s) ≡ true
      → ((remove_mount is_uuid drops handle_request elapsed path namespace_id s).0 ≡ err storage)
        × (get_by_path path namespace_id
              (remove_mount is_uuid drops handle_request elapsed path namespace_id s).1.tables
            ≡ some me)
        × (any
              (λ e. str_eq e.0 me.id)
              (remove_mount is_uuid drops handle_request elapsed path namespace_id s).1.router
            ≡ false)
  unfolding remove_mount ◌>>=◌ Router.remove remove_by_path revoke_leases_by_mount_prefix
  remove_mount_stranded path namespace_id s me found other routed leased =
      let mounted : any (is_mount path namespace_id)
            (revoked handle_request elapsed path namespace_id s).mounts
          ≡ true =
        get_by_path-any path namespace_id (revoked handle_request elapsed path namespace_id s) me
          (get_by_path-revoked path namespace_id s ∙ found) in
      rw (found, other, routed, mounted, leased)
        (
          refl,
          get_by_path-revoked path namespace_id s ∙ found,
          any-delete (λ e. str_eq e.0 me.id) s.router,
        )
