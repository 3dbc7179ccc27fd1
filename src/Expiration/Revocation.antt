-- ===== src/Expiration/Revocation.antt =====
-- covert-server/src/expiration_manager/mod.rs: revocation, and the worker that drives it. The leases
-- that the program revokes concurrently are revoked one after the other.
pub mod Outcome
pub mod Retries
pub mod Worker
use covert.Prelude.{
  ℕ, zero, suc, ◌+◌, ◌%◌, ◌^◌, Bool, true, false, List, [], ◌∷◌, Option, none, some, Str, codes,
  Result, ok, err, ok_or, leb, if◌then◌else◌, split,
}
use covert.Prelude.Exec.{Exec, pure, raise, query, ◌>>=◌, ◌>>◌}
use covert.Policy.Paths.{Operation, revoke}
use covert.Namespace
use covert.Auth.{full_path}
use covert.Auth.{unsealed}
use covert.Router.{Request, authenticated}
use covert.Router.Dispatch.{route}
use covert.Lease
use covert.Server.Tables.{
  Tables, Namespace, LeaseEntry, Error, internal_error, not_found, revoke_lease, timeout, slash,
}
use covert.Expiration.{
  endpoint, lookup, list_by_mount_prefix, revocation_max_retries, revocation_retry_timeout,
  revocation_worker_concurrency,
}

-- `if let Err(error) = ...`: the error is logged
abbrev pub ignore {ℓ} : {S E A : Type ℓ} → Exec S E A → Exec S E (Unit {ℓ})
ignore m s = (ok tt, (m s).1)

-- `tokio::time::timeout`: past the deadline the work stands as it is and the answer is an error
abbrev pub with_timeout : {A : Type 0} → (Tables → Bool) → Exec Tables Error A → Exec Tables Error A
with_timeout elapsed m t = if elapsed t then (err timeout, (m t).1) else m t

abbrev pub revoke_request : LeaseEntry → Namespace → Str → Request
revoke_request le ns ns_path = record {
  operation = revoke;
  namespace = split slash ns_path;
  path = endpoint le le.revoke_path (codes "sys/token/revoke");
  payload = le.revoke_data;
  token = none;
  params = [];
  ns = some ns;
  config = none;
  storage_state = some unsealed;
  auth_policy = some authenticated;
}

-- no attempt is made after this one
abbrev pub is_last : LeaseEntry → Bool
is_last le = leb revocation_max_retries ((le.failed_revocation_attempts + 1) % 2 ^ 32)

-- the branches of `revoke_lease_entry`, by what the backend answered
unfoldable pub after_send : LeaseEntry → Result Error (Unit {0}) → Exec Tables Error (Unit {0})
unfolding ◌>>=◌
after_send le (ok _) = do removed ← Lease.delete_by_id le.id le.namespace_id; pure tt
after_send le (err error) =
    (if is_last le
      then ignore (Lease.delete_by_id le.id le.namespace_id)
      else ignore (
          Lease.increment_failed_revocation_attempts le.id le.namespace_id
            (le.expires_at + revocation_retry_timeout)))
    >> raise internal_error

module _ {B R : Type 0} (handle_request : B → Request → Exec Tables Error R)
    (elapsed : LeaseEntry → Tables → Bool) (backends : List (Str × B)) where
  -- `send_lease_revoke_request`
  unfoldable pub send_lease_revoke_request : LeaseEntry → Exec Tables Error (Unit {0})
  unfolding ◌>>=◌
  send_lease_revoke_request le = do
    ns ← query (λ t. ok_or (Namespace.lookup le.namespace_id t.namespaces) internal_error)
    ns_path ← query (full_path le.namespace_id)
    response ←
        with_timeout (elapsed le) (route handle_request backends (revoke_request le ns ns_path))
    pure tt

  -- `revoke_lease_entry`
  unfoldable pub revoke_lease_entry : LeaseEntry → Exec Tables Error (Unit {0})
  revoke_lease_entry le t = let (res, u) = send_lease_revoke_request le t in after_send le res u

  abbrev pub as_revoke_error : {A : Type 0} → Exec Tables Error A → Exec Tables Error A
  as_revoke_error m t = elim (m t).0 [
    | ok a ↦ (ok a, (m t).1)
    | err e ↦ (err revoke_lease, (m t).1)
  ]

  -- `revoke_lease_entry_by_id`
  unfoldable pub revoke_lease_entry_by_id : Str → Str → Exec Tables Error LeaseEntry
  unfolding ◌>>=◌
  revoke_lease_entry_by_id lease_id namespace_id = do
    le ← query (λ t. ok_or (lookup lease_id namespace_id t) not_found)
    done ← as_revoke_error (revoke_lease_entry le)
    pure le

  abbrev collect : LeaseEntry → Result Error (Unit {0}) → List LeaseEntry → List LeaseEntry
  collect le (ok _) revoked = le ∷ revoked
  collect le (err e) revoked = revoked

  abbrev pub revoke_each : List LeaseEntry → Tables → List LeaseEntry × Tables
  revoke_each [] t = ([], t)
  revoke_each (le ∷ les) t =
      let (res, u) = revoke_lease_entry le t in
      let (revoked, v) = revoke_each les u in (collect le res revoked, v)

  -- `revoke_leases_by_mount_prefix`
  unfoldable pub revoke_leases_by_mount_prefix : Str → Str → Exec Tables Error (List LeaseEntry)
  revoke_leases_by_mount_prefix prefix namespace_id t =
      let (revoked, u) = revoke_each (list_by_mount_prefix prefix namespace_id t) t in
      (ok revoked, u)

  -- one turn of the loop of `start`, at a reading of the clock
  unfoldable pub work : ℕ → Tables → Tables
  work now t = (revoke_each (Lease.pull revocation_worker_concurrency now t) t).1
