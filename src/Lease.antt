-- ===== src/Lease.antt =====
-- covert-server/src/repos/lease.rs: the statements on the table LEASES.
pub mod Like
pub mod Queue
use covert.Prelude.{
  ℕ, ◌+◌, ◌&&◌, Bool, true, false, List, [], ◌∷◌, ◌++◌, Option, none, some, Str, any, first, select,
  delete, update, count, take, min, str_eq, if◌then◌else◌, leb, Result, ok, err, ◌==◌,
}
use covert.Prelude.Exec.{Exec}
use covert.Server.Tables.{Tables, LeaseEntry, Error, not_found, foreign_key_violation}
use Like.{like, percent}

-- WHERE id = ? AND namespace_id = ?
abbrev pub is_lease : Str → Str → LeaseEntry → Bool
is_lease id namespace_id le = str_eq le.id id && str_eq le.namespace_id namespace_id

-- `create`, with the foreign key on the mount
unfoldable pub create : LeaseEntry → Exec Tables Error (Unit {0})
create le t =
    if any (λ m. str_eq m.namespace_id le.namespace_id && str_eq m.path le.issued_mount_path)
      t.mounts
    then (ok tt, record t { leases = le ∷ t.leases })
    else (err foreign_key_violation, t)

-- ORDER BY expires_at: each row goes before the first that expires later than it
abbrev pub insert_by_expiry : LeaseEntry → List LeaseEntry → List LeaseEntry
insert_by_expiry le [] = le ∷ []
insert_by_expiry le (x ∷ r) =
    if leb le.expires_at x.expires_at then le ∷ x ∷ r else x ∷ insert_by_expiry le r

abbrev pub order_by_expiry : List LeaseEntry → List LeaseEntry
order_by_expiry [] = []
order_by_expiry (x ∷ r) = insert_by_expiry x (order_by_expiry r)

-- `pull`
unfoldable pub pull : ℕ → ℕ → Tables → List LeaseEntry
pull limit before t =
    take (min limit 100) (order_by_expiry (select (λ le. leb le.expires_at before) t.leases))

-- `peek`
unfoldable pub peek : Tables → Option LeaseEntry
peek t = first (order_by_expiry t.leases)

abbrev pub retried : ℕ → LeaseEntry → LeaseEntry
retried expires_at le = record le {
  failed_revocation_attempts = le.failed_revocation_attempts + 1;
  expires_at = expires_at;
}

-- a statement that has to change exactly one row
abbrev pub update_one :
    (LeaseEntry → Bool) → (LeaseEntry → LeaseEntry) → Exec Tables Error (Unit {0})
update_one test set t = (
  if count test t.leases == 1 then ok tt else err not_found,
  record t { leases = update test set t.leases },
)

-- `increment_failed_revocation_attempts`
unfoldable pub increment_failed_revocation_attempts : Str → Str → ℕ → Exec Tables Error (Unit {0})
increment_failed_revocation_attempts id namespace_id expires_at =
    update_one (is_lease id namespace_id) (retried expires_at)

abbrev pub renewed : ℕ → ℕ → LeaseEntry → LeaseEntry
renewed expires_at last_renewal_time le = record le {
  expires_at = expires_at;
  last_renewal_time = last_renewal_time;
}

-- `renew`
unfoldable pub renew : Str → Str → ℕ → ℕ → Exec Tables Error (Unit {0})
renew id namespace_id expires_at last_renewal_time =
    update_one (is_lease id namespace_id) (renewed expires_at last_renewal_time)

-- `delete`
unfoldable pub delete_by_id : Str → Str → Exec Tables Error Bool
delete_by_id id namespace_id t = (
  ok (count (is_lease id namespace_id) t.leases == 1),
  record t { leases = delete (is_lease id namespace_id) t.leases },
)

-- `list_by_mount_prefix`
unfoldable pub list_by_mount_prefix : Str → Str → Tables → List LeaseEntry
list_by_mount_prefix path_prefix namespace_id t =
    select
      (λ le.
        like (path_prefix ++ percent ∷ []) le.issued_mount_path
        && str_eq le.namespace_id namespace_id)
      t.leases

-- `lookup`
unfoldable pub lookup : Str → Str → Tables → Option LeaseEntry
lookup id namespace_id t = first (select (is_lease id namespace_id) t.leases)
