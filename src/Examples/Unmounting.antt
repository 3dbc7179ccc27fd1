-- ===== src/Examples/Unmounting.antt =====
-- Unmounting, with a backend that agrees to revoke its leases and one that refuses.
use covert.Prelude.{
  arith, ◌≡◌, refl, Bool, true, false, [], ◌∷◌, some, Str, codes, ok, err, any, str_eq,
}
use covert.Prelude.Exec.{◌>>=◌}
use covert.Namespace
use covert.Lease
use covert.Lease.Like.{like, fold}
use covert.Mount.{longest_prefix, get_by_path, has_lease, remove_by_path}
use covert.Router
use covert.Router.{resolve}
use covert.Router.Dispatch.{route}
use covert.Expiration.Revocation.{
  after_send, revoke_lease_entry, send_lease_revoke_request, revoke_leases_by_mount_prefix,
}
use covert.Server.Tables.{MountEntry, storage}
use covert.System.{Context}
use covert.System.Unmount.{remove_mount}
use covert.System.Unmount.Gone.{IsRemoved, revoked, remove_mount-IsRemoved}
use covert.System.Unmount.Stranded.{remove_mount_stranded}
use covert.System.Namespaces.{delete_namespace_handler}
use covert.System.Namespaces.Ended.{Ended, delete_namespace_handler-Ended}
use covert.Examples.{store, kv_mount, root_ns}
use covert.Examples.Namespaces.{rows-IsForest}
use covert.Examples.Revocations.{agrees, refuses, in_time, agrees-IsQuiet, refuses-IsQuiet}

abbrev context : Context Bool
context = record { tables = store; router = (codes "m1", true) ∷ (codes "m2", true) ∷ [] }

abbrev is_uuid : Str → Bool
is_uuid id = true

abbrev drops : MountEntry → Bool
drops m = true

abbrev after : Context Bool
after = (remove_mount is_uuid drops agrees in_time (codes "kv/") (codes "t") context).1

kv_is_unmounted :
    remove_mount is_uuid drops agrees in_time (codes "kv/") (codes "t") context
    ≡ (ok kv_mount, after)
unfolding remove_mount get_by_path revoke_leases_by_mount_prefix Lease.list_by_mount_prefix
    revoke_lease_entry after_send send_lease_revoke_request Namespace.lookup Namespace.get_full_path
    Namespace.find_parents Namespace.climb route resolve longest_prefix like fold Lease.delete_by_id
    Router.remove remove_by_path ◌>>=◌
kv_is_unmounted = refl

remove_mount-IsRemoved_example :
    (get_by_path (codes "kv/") (codes "t") store ≡ some kv_mount)
    × IsRemoved (codes "kv/") (codes "t") store after.tables
    × (any (λ e. str_eq e.0 (codes "m1")) after.router ≡ false)
remove_mount-IsRemoved_example =
    remove_mount-IsRemoved is_uuid drops agrees in_time agrees-IsQuiet (codes "kv/") (codes "t")
      context after kv_mount kv_is_unmounted

kv_is_found : get_by_path (codes "kv/") (codes "t") store ≡ some kv_mount
unfolding get_by_path
kv_is_found = refl

lease_is_left :
    has_lease (codes "kv/") (codes "t") (revoked refuses in_time (codes "kv/") (codes "t") context)
    ≡ true
unfolding revoke_leases_by_mount_prefix Lease.list_by_mount_prefix revoke_lease_entry after_send
    send_lease_revoke_request Namespace.lookup Namespace.get_full_path Namespace.find_parents
    Namespace.climb route resolve longest_prefix like fold
    Lease.increment_failed_revocation_attempts ◌>>=◌
lease_is_left = refl

remove_mount_stranded_example :
    ((remove_mount is_uuid drops refuses in_time (codes "kv/") (codes "t") context).0 ≡ err storage)
    × (get_by_path
          (codes "kv/")
          (codes "t")
          (remove_mount is_uuid drops refuses in_time (codes "kv/") (codes "t") context).1.tables
        ≡ some kv_mount)
    × (any
          (λ e. str_eq e.0 (codes "m1"))
          (remove_mount is_uuid drops refuses in_time (codes "kv/") (codes "t") context).1.router
        ≡ false)
remove_mount_stranded_example =
    remove_mount_stranded is_uuid drops refuses in_time refuses-IsQuiet (codes "kv/") (codes "t")
      context kv_mount kv_is_found refl refl lease_is_left

delete_namespace_handler-Ended_example :
    Ended
      (codes "team")
      root_ns
      context
      (delete_namespace_handler is_uuid drops agrees in_time 2 (codes "team") root_ns context)
delete_namespace_handler-Ended_example =
    delete_namespace_handler-Ended is_uuid drops agrees in_time agrees-IsQuiet 2 (codes "team")
      root_ns context rows-IsForest (omega arith)
