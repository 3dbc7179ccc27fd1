-- ===== src/System/Handlers.antt =====
-- covert-server/src/system: the handlers for policies (policy.rs), leases (lease.rs), namespaces
-- (namespace.rs), mounts (mount.rs) and the status (status.rs). Times are shown as they are, not as
-- RFC 3339 texts.
use covert.Prelude.{
  ℕ, Bool, List, [], ◌∷◌, ◌++◌, Option, some, Str, map, if◌then◌else◌, ok, err, ok_or,
}
use covert.Prelude.Exec.{Exec, pure, raise, query, ◌>>=◌}
use covert.Ttl.{Chrono, MountConfig}
use covert.Policy.{Policy}
use covert.Policy.Parse.{Unicode, parse}
use covert.Policies
use covert.Namespace
use covert.Mount
use covert.Expiration.{lookup, list_by_mount_prefix}
use covert.Expiration.Revocation.{revoke_lease_entry_by_id, revoke_leases_by_mount_prefix}
use covert.Expiration.Renewal.{renew_lease_entry}
use covert.Router.{Request}
use covert.Auth.{StorageState}
use covert.Storage.{EncryptedPool}
use covert.System.{is_auth_backend, update_mount, Context, Backends, mount}
use covert.System.Unmount.{remove_mount}
use covert.Server.Tables.{
  Tables, Namespace, MountEntry, BackendType, LeaseEntry, Error, not_found, bad_request,
}

-- `handle_create_policy`
unfoldable pub handle_create_policy : Unicode → Str → Str → Namespace → Exec Tables Error Policy
unfolding ◌>>=◌
handle_create_policy unicode name text ns = do
  rules ← query (λ t. elim (parse unicode text) [ ok rules ↦ ok rules | err e ↦ err bad_request ])
  let policy : Policy = record { name = name; paths = rules; namespace_id = ns.id }
  created ← Policies.create policy
  pure policy

-- `handle_list_policies`
unfoldable pub handle_list_policies : Namespace → Tables → List Policy
handle_list_policies ns t = Policies.list ns.id t.policies

-- `handle_delete_policy`
unfoldable pub handle_delete_policy : Str → Namespace → Exec Tables Error Str
unfolding ◌>>=◌
handle_delete_policy name ns = do
  removed ← Policies.remove name ns.id
  if removed then pure name else raise not_found

-- methods/system, `LeaseEntry`
pub record LeaseEntryDto : Type 0 where
  pub id : Str
  pub issued_mount_path : Str
  pub issue_time : ℕ
  pub expire_time : ℕ
  pub last_renewal_time : ℕ

-- `From<&LeaseEntry>`
abbrev pub from_lease : LeaseEntry → LeaseEntryDto
from_lease le = record {
  id = le.id;
  issued_mount_path = le.issued_mount_path;
  issue_time = le.issued_at;
  expire_time = le.expires_at;
  last_renewal_time = le.expires_at;
}

-- `handle_list_leases`
unfoldable pub handle_list_leases : Str → Namespace → Tables → List LeaseEntryDto
handle_list_leases prefix ns t = map from_lease (list_by_mount_prefix prefix ns.id t)

-- `handle_lease_lookup`
unfoldable pub handle_lease_lookup : Str → Namespace → Exec Tables Error LeaseEntryDto
unfolding ◌>>=◌
handle_lease_lookup lease_id ns = do
  le ← query (λ t. ok_or (lookup lease_id ns.id t) not_found)
  pure (from_lease le)

module _ {B R : Type 0} (handle_request : B → Request → Exec Tables Error R)
    (elapsed : LeaseEntry → Tables → Bool) (backends : List (Str × B)) where
  -- `handle_lease_revocation_by_mount`
  unfoldable pub handle_lease_revocation_by_mount :
      Str → Namespace → Exec Tables Error (List LeaseEntryDto)
  unfolding ◌>>=◌
  handle_lease_revocation_by_mount prefix ns = do
    revoked ← revoke_leases_by_mount_prefix handle_request elapsed backends prefix ns.id
    pure (map from_lease revoked)

  -- `handle_lease_revocation`
  unfoldable pub handle_lease_revocation : Str → Namespace → Exec Tables Error LeaseEntryDto
  unfolding ◌>>=◌
  handle_lease_revocation lease_id ns = do
    revoked ← revoke_lease_entry_by_id handle_request elapsed backends lease_id ns.id
    pure (from_lease revoked)

-- `handle_lease_renew`; the clock is read three times
module _ {B R : Type 0} (chrono : Chrono) (handle_request : B → Request → Exec Tables Error R)
    (backends : List (Str × B)) (to_vec : ℕ → Str → Option Str) (response_ttl : R → Option ℕ) where
  unfoldable pub handle_lease_renew :
      Str → Namespace → Option ℕ → ℕ → ℕ → ℕ → Exec Tables Error LeaseEntryDto
  unfolding ◌>>=◌
  handle_lease_renew lease_id ns ttl now1 now2 now3 = do
    le ←
        renew_lease_entry chrono handle_request backends to_vec response_ttl lease_id ns.id ttl now1
          now2 now3
    pure (from_lease le)

-- `create_namespace_handler`
unfoldable pub create_namespace_handler : Str → Str → Namespace → Exec Tables Error (Str × Str)
unfolding ◌>>=◌
create_namespace_handler id name ns = do
  created ← Namespace.create (record { id = id; name = name; parent_namespace_id = some ns.id })
  pure (id, name)

-- `list_namespaces_handler`
unfoldable pub list_namespaces_handler : Namespace → Tables → List (Str × Str)
list_namespaces_handler ns t = map (λ n. (n.id, n.name)) (Namespace.list ns.id t.namespaces)

-- `handle_mounts_list`: the mounts that log in and the others
pub record MountsListResponse : Type 0 where
  pub auth : List MountEntry
  pub secret : List MountEntry

abbrev pub by_category : List MountEntry → MountsListResponse → MountsListResponse
by_category [] r = r
by_category (m ∷ ms) r = by_category ms (
    if is_auth_backend m.backend_type
    then record r { auth = r.auth ++ m ∷ [] }
    else record r { secret = r.secret ++ m ∷ [] })

unfoldable pub handle_mounts_list : Namespace → Tables → MountsListResponse
handle_mounts_list ns t = by_category (Mount.list ns.id t) (record { auth = []; secret = [] })

-- `handle_update_mount`
unfoldable pub handle_update_mount : Str → Namespace → MountConfig → Exec Tables Error MountEntry
handle_update_mount path ns config = update_mount path ns.id config

-- `CreateMountResponse`
pub record CreateMountResponse : Type 0 where
  pub id : Str
  pub config : MountConfig
  pub variant : BackendType
  pub path : Str

-- `handle_mount`; the id is the one that `mount` draws
unfoldable pub handle_mount :
    {B : Type 0}
    → Backends B
    → Str
    → Str
    → Namespace
    → BackendType
    → MountConfig
    → Exec (Context B) Error CreateMountResponse
unfolding ◌>>=◌
handle_mount backends uuid path ns variant config = do
  id ← mount backends (record {
    id = uuid;
    path = path;
    config = config;
    backend_type = variant;
    namespace_id = ns.id;
  })
  pure (record { id = id; config = config; variant = variant; path = path })

-- `handle_mount_disable`: the mount that is shown
unfoldable pub handle_mount_disable :
    {B R : Type 0} (is_uuid : Str → Bool) (drops : MountEntry → Bool)
    (handle_request : B → Request → Exec Tables Error R) (elapsed : LeaseEntry → Tables → Bool)
    → Str
    → Namespace
    → Exec (Context B) Error MountEntry
unfolding ◌>>=◌
handle_mount_disable is_uuid drops handle_request elapsed path ns = do
  removed ← remove_mount is_uuid drops handle_request elapsed path ns.id
  pure (record removed { path = path })

-- `handle_status`
unfoldable pub handle_status : EncryptedPool → StorageState
handle_status pool = pool.state
