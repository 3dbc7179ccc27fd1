-- ===== src/Expiration.antt =====
-- covert-server/src/expiration_manager/mod.rs and lease.rs: the leases' life after they are issued.
-- The router's backends are parameters, with the clock's readings as arguments.
pub mod Registration
pub mod Revocation
pub mod Renewal
use covert.Prelude.{ℕ, ◌+◌, ◌*◌, List, Option, none, some, Str, codes, ◌++◌, Result, ok, err}
use covert.Prelude.Exec.{Exec}
use covert.Server.Tables.{Tables, LeaseEntry, Error}
use covert.Lease

-- the values that `ExpirationManager::new` sets
abbrev pub revocation_retry_timeout : ℕ
revocation_retry_timeout = 5 * 1_000_000_000

abbrev pub revocation_max_retries : ℕ
revocation_max_retries = 10

abbrev pub revocation_worker_concurrency : ℕ
revocation_worker_concurrency = 100

-- `LeaseEntry::new`; the id is drawn by the caller, and the two payloads are serialized already
abbrev pub new_lease : Str → Str → Option Str → Str → Option Str → Str → ℕ → ℕ → Str → LeaseEntry
new_lease id issued_mount_path revoke_path revoke_data renew_path renew_data now ttl namespace_id =
    record {
      id = id;
      issued_mount_path = issued_mount_path;
      revoke_path = revoke_path;
      revoke_data = revoke_data;
      renew_path = renew_path;
      renew_data = renew_data;
      issued_at = now;
      expires_at = now + ttl;
      last_renewal_time = now;
      failed_revocation_attempts = 0;
      namespace_id = namespace_id;
    }

-- `register`; the notice to the worker changes no table
unfoldable pub register : LeaseEntry → Exec Tables Error (Unit {0})
register le = Lease.create le

-- `lookup`
abbrev pub lookup : Str → Str → Tables → Option LeaseEntry
lookup lease_id namespace_id t = Lease.lookup lease_id namespace_id t

-- `list_by_mount_prefix`
abbrev pub list_by_mount_prefix : Str → Str → Tables → List LeaseEntry
list_by_mount_prefix prefix namespace_id t = Lease.list_by_mount_prefix prefix namespace_id t

-- the path of a revoke or renew request: the backend's own, or else that of the token's mount
abbrev pub endpoint : LeaseEntry → Option Str → Str → Str
endpoint le none path = path
endpoint le (some p) path = le.issued_mount_path ++ p
