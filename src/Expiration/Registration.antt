-- ===== src/Expiration/Registration.antt =====
-- covert-server/src/layer/lease_registration.rs: the layer that turns a backend's answer into a
-- registered lease or a new token. Ids are drawn by the caller, and serialised payloads are texts.
pub mod Issued
use covert.Prelude.{ℕ, ◌+◌, Option, none, some, Str, Result, ok, ok_or}
use covert.Prelude.Exec.{Exec, pure, query, ◌>>=◌}
use covert.Ttl.{Chrono, calculate_ttl}
use covert.Auth
use covert.Entity.{get_entity_from_alias}
use covert.Router.{ResponseContext}
use covert.Server.Tables.{Tables, Namespace, TokenEntry, Error, internal_error, bad_request}
use covert.Expiration.{new_lease, register}
use covert.Expiration.Renewal.{or_internal}

-- covert-types/src/response.rs
pub record LeaseRenewRevokeEndpoint : Type 0 where
  pub path : Str
  pub payload : Str

pub record LeaseResponse : Type 0 where
  pub revoke : LeaseRenewRevokeEndpoint
  pub renew : LeaseRenewRevokeEndpoint
  pub payload : Str
  pub ttl : Option ℕ

pub record AuthResponse : Type 0 where
  pub alias : Str
  pub ttl : Option ℕ

pub data Response : Type 0 where
  raw : Str → Response
  auth : AuthResponse → Response
  lease : LeaseResponse → Response

-- the three shapes of what the client gets
pub data Answer : Type 0 where
  raw_answer : Str → Answer
  auth_answer : (token lease_id : Str) (ttl : ℕ) → Answer
  lease_answer : (payload lease_id : Str) (ttl : ℕ) → Answer

-- repos/token.rs, `TokenEntry::new`
abbrev pub new_token : Str → Str → ℕ → ℕ → Str → TokenEntry
new_token id entity_name now ttl namespace_id = record {
  id = id;
  entity_name = entity_name;
  expires_at = some (now + ttl);
  issued_at = now;
  namespace_id = namespace_id;
}

module _ (chrono : Chrono) (revoke_params : Str → Str) where
  abbrev pub granted : ℕ → ResponseContext → Option ℕ → Result Error ℕ
  granted now ctx ttl =
      ok_or (or_internal (calculate_ttl chrono now now ctx.backend_config ttl)) internal_error

  -- the branch of `call` for a lease
  unfoldable pub register_lease :
      Option Namespace → ResponseContext → Str → ℕ → LeaseResponse → Exec Tables Error Answer
  unfolding ◌>>=◌
  register_lease ns ctx lease_id now response = do
    ns ← query (λ _. ok_or ns internal_error)
    ttl ← query (λ _. granted now ctx response.ttl)
    done ← register (
        new_lease lease_id ctx.backend_mount_path (some response.revoke.path)
          response.revoke.payload (some response.renew.path) response.renew.payload now ttl ns.id)
    pure (lease_answer response.payload lease_id ttl)

  -- the branch of `call` for a login: `TokenEntry::new` reads the clock again
  unfoldable pub register_token :
      Option Namespace
      → ResponseContext
      → Str
      → Str
      → ℕ
      → ℕ
      → AuthResponse
      → Exec Tables Error Answer
  unfolding ◌>>=◌
  register_token ns ctx lease_id token now later response = do
    ns ← query (λ _. ok_or ns internal_error)
    entity ← query (λ t.
        ok_or
          (get_entity_from_alias
            (record { name = response.alias; mount_path = ctx.backend_mount_path }) ns.id t)
          bad_request)
    ttl ← query (λ _. granted now ctx response.ttl)
    created ← Auth.create (new_token token entity.name later ttl ns.id)
    done ← register (
        new_lease lease_id ctx.backend_mount_path none (revoke_params token) none
          (revoke_params token) now ttl ns.id)
    pure (auth_answer token lease_id ttl)

  -- `call`, from what the inner service has answered
  unfoldable pub call :
      Option Namespace → ResponseContext → Str → Str → ℕ → ℕ → Response → Exec Tables Error Answer
  call ns ctx lease_id token now later (raw payload) = pure (raw_answer payload)
  call ns ctx lease_id token now later (auth r) = register_token ns ctx lease_id token now later r
  call ns ctx lease_id token now later (lease r) = register_lease ns ctx lease_id now r
