-- ===== src/Expiration/Renewal.antt =====
-- covert-server/src/expiration_manager/mod.rs: `renew_lease_entry`. The clock is read three times.
-- Serialising the request and reading the answer are parameters; `to_std` keeps a duration that is
-- not negative, as all durations are here.
pub mod Bounds
use covert.Prelude.{ℕ, ◌+◌, List, Option, none, some, [], Str, codes, Result, ok, err, ok_or, split}
use covert.Prelude.Exec.{Exec, pure, query, ◌>>=◌}
use covert.Policy.Paths.{renew}
use covert.Ttl.{Chrono, MountConfig, calculate_ttl, TtlError}
use covert.Namespace
use covert.Auth.{full_path}
use covert.Mount
use covert.Auth.{unsealed}
use covert.Router.{Request, authenticated}
use covert.Router.Dispatch.{route}
use covert.Lease
use covert.Lease.{renewed}
use covert.Server.Tables.{
  Tables, Namespace, LeaseEntry, Error, internal_error, not_found, mount_not_found, renew_lease,
  bad_request, slash,
}
use covert.Expiration.{endpoint, lookup}

abbrev pub or_internal {ℓ} : {E A : Type ℓ} → Result E A → Option A
or_internal (ok a) = some a
or_internal (err e) = none

abbrev pub as_renew_error : {A : Type 0} → Exec Tables Error A → Exec Tables Error A
as_renew_error m t = elim (m t).0 [ ok a ↦ (ok a, (m t).1) | err e ↦ (err renew_lease, (m t).1) ]

abbrev pub renew_request : LeaseEntry → Namespace → Str → Str → Request
renew_request le ns ns_path payload = record {
  operation = renew;
  namespace = split slash ns_path;
  path = endpoint le le.renew_path (codes "sys/token/renew");
  payload = payload;
  token = none;
  params = [];
  ns = some ns;
  config = none;
  storage_state = some unsealed;
  auth_policy = some authenticated;
}

module _ {B R : Type 0} (chrono : Chrono) (handle_request : B → Request → Exec Tables Error R)
    (backends : List (Str × B)) (to_vec : ℕ → Str → Option Str) (response_ttl : R → Option ℕ) where
  abbrev pub ttl_at : ℕ → LeaseEntry → MountConfig → Option ℕ → Result Error ℕ
  ttl_at now le config ttl =
      ok_or (or_internal (calculate_ttl chrono now le.issued_at config ttl)) internal_error

  -- The backend has answered: the clock is read for the new time to live, and once more.
  unfoldable pub after_answer :
      Str → LeaseEntry → MountConfig → ℕ → ℕ → R → Exec Tables Error LeaseEntry
  unfolding ◌>>=◌
  after_answer lease_id le config now2 now3 response = do
    granted ← query (λ t. ok_or (response_ttl response) internal_error)
    ttl ← query (λ t. ttl_at now2 le config (some granted))
    stored ← Lease.renew lease_id le.namespace_id (now3 + ttl) now3
    pure (renewed (now3 + ttl) now3 le)

  -- `renew_lease_entry`
  unfoldable pub renew_lease_entry : Str → Str → Option ℕ → ℕ → ℕ → ℕ → Exec Tables Error LeaseEntry
  unfolding ◌>>=◌
  renew_lease_entry lease_id namespace_id ttl now1 now2 now3 = do
    le ← query (λ t. ok_or (lookup lease_id namespace_id t) not_found)
    mount ←
        query
          (λ t. ok_or (Mount.get_by_path le.issued_mount_path le.namespace_id t) mount_not_found)
    asked ← query (λ t. ttl_at now1 le mount.config ttl)
    ns ← query (λ t. ok_or (Namespace.lookup le.namespace_id t.namespaces) internal_error)
    ns_path ← query (full_path le.namespace_id)
    payload ← query (λ t. ok_or (to_vec asked le.renew_data) bad_request)
    answer ← as_renew_error (route handle_request backends (renew_request le ns ns_path payload))
    after_answer lease_id le mount.config now2 now3 answer.0
