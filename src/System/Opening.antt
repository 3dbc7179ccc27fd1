-- ===== src/System/Opening.antt =====
-- covert-server/src/system/unseal.rs and seal.rs: what follows the opening of the pool, and what goes
-- with its closing. The migrations of the encrypted database are a parameter; ids, the token and the
-- reading of the clock are drawn by the caller. The replication, whose failure is only logged, and the
-- worker, which runs on its own, are left out.
pub mod Reopened
pub mod RootToken
pub mod Routes
use covert.Prelude.{List, [], ◌∷◌, Option, none, some, Str, codes, ℕ, Result, ok, err, ok_or}
use covert.Prelude.Exec.{Exec, pure, query, ◌>>=◌, ◌>>◌}
use covert.Policy.{Policy}
use covert.Policy.Paths.{read, update, create, delete}
use covert.Server.Tables.{
  Tables, Namespace, Entity, MountEntry, TokenEntry, Error, internal_error, root_name,
}
use covert.Namespace
use covert.Namespace.{find_by_path}
use covert.Mount
use covert.Policies
use covert.Entity
use covert.Auth
use covert.Router
use covert.Expiration.Revocation.{ignore}
use covert.Storage.{Cipher}
use covert.Seal
use covert.Seal.{Sealing, Sharing, UnsealResponse, complete, in_progress}
use covert.System.{Context, Backends, mount_route_entry}

abbrev pub root_path : List Str
root_path = root_name ∷ []

abbrev pub new_root : Str → Namespace
new_root id = record { id = id; name = root_name; parent_namespace_id = none }

abbrev pub root_policy : Str → Policy
root_policy namespace_id = record {
  name = root_name;
  paths = record { path = codes "*"; operations = read ∷ delete ∷ create ∷ update ∷ [] } ∷ [];
  namespace_id = namespace_id;
}

abbrev pub root_entity : Str → Entity
root_entity namespace_id = record { name = root_name; namespace_id = namespace_id }

abbrev pub root_token : Str → ℕ → Str → TokenEntry
root_token token now namespace_id = record {
  id = token;
  entity_name = root_name;
  expires_at = none;
  issued_at = now;
  namespace_id = namespace_id;
}

-- `generate_root_token`
unfoldable pub generate_root_token : Str → ℕ → Exec Tables Error Str
unfolding ◌>>=◌
generate_root_token token now = do
  ns ← query (λ t. ok_or (find_by_path root_path t.namespaces) internal_error)
  policy_made ← ignore (Policies.create (root_policy ns.id))
  entity_made ← ignore (Entity.create (root_entity ns.id))
  attached ← ignore (Entity.attach_policy root_name root_name ns.id)
  created ← Auth.create (root_token token now ns.id)
  pure token

module _ {B : Type 0} where
  abbrev pub on_tables : {A : Type 0} → Exec Tables Error A → Exec (Context B) Error A
  on_tables m s = ((m s.tables).0, record s { tables = (m s.tables).1 })

  -- the root namespace, which is made if there is none
  unfoldable pub root_namespace : Str → Exec (Context B) Error Namespace
  unfolding ◌>>=◌
  root_namespace id s = elim (find_by_path root_path s.tables.namespaces) [
    | some ns ↦ (ok ns, s)
    | none ↦ (on_tables (Namespace.create (new_root id)) >> pure (new_root id)) s
  ]

  -- what `seal` does to the router
  unfoldable pub clear_routes : Exec (Context B) Error (Unit {0})
  clear_routes s = elim (Router.get_system_mount s.router) [
    | none ↦ (err internal_error, s)
    | some backend ↦
        (ok tt, record s { router = Router.mount_system backend (Router.clear_mounts s.router) })
  ]

module _ {B : Type 0} (backends : Backends B) (migrated : Result Error (Unit {0})) where
  -- the loop of `unseal`
  unfoldable pub route_all : Str → List MountEntry → Exec (Context B) Error (Unit {0})
  unfolding ◌>>=◌
  route_all namespace_id [] = pure tt
  route_all namespace_id (m ∷ ms) =
      mount_route_entry backends m.id m.backend_type namespace_id >> route_all namespace_id ms

  -- `unseal`, from the migrations on
  unfoldable pub set_up : Str → Exec (Context B) Error (Unit {0})
  unfolding ◌>>=◌
  set_up id = do
    ready ← query (λ s. migrated)
    ns ← root_namespace id
    mounts ← query (λ s. ok (Mount.list ns.id s.tables))
    route_all ns.id mounts

  unfoldable pub open_server : Str → Str → ℕ → Exec (Context B) Error Str
  unfolding ◌>>=◌
  open_server id token now = set_up id >> on_tables (generate_root_token token now)

-- the two databases and the router
pub record Server (B : Type 0) : Type 0 where
  pub sealing : Sealing
  pub context : Context B

-- methods/system, `UnsealResponse`, with the token of the complete one
pub data Unsealed : Type 0 where
  waiting : (threshold key_shares_total key_shares_provided : ℕ) → Unsealed
  opened : (token : Str) → Unsealed

module _ {B : Type 0} where
  abbrev pub on_context : {A : Type 0} → Exec (Context B) Error A → Exec (Server B) Error A
  on_context m s = ((m s.context).0, record s { context = (m s.context).1 })

  abbrev pub on_sealing : {A : Type 0} → Exec Sealing Error A → Exec (Server B) Error A
  on_sealing m s = ((m s.sealing).0, record s { sealing = (m s.sealing).1 })

  -- `handle_seal`, whole
  unfoldable pub handle_seal : Namespace → Exec (Server B) Error (Unit {0})
  unfolding ◌>>=◌
  handle_seal ns = on_sealing (Seal.handle_seal ns) >> on_context clear_routes

module _ {B : Type 0} (sharing : Sharing) (cipher : Cipher) (backends : Backends B)
    (migrated : Result Error (Unit {0})) where
  unfoldable pub after_sealing :
      Str → Str → ℕ → UnsealResponse sharing → Exec (Server B) Error Unsealed
  unfolding ◌>>=◌
  after_sealing id token now (in_progress threshold total provided) =
      pure (waiting threshold total provided)
  after_sealing id token now complete = do
    issued ← on_context (open_server backends migrated id token now)
    pure (opened issued)

  -- `handle_unseal`, whole
  unfoldable pub handle_unseal : List (Str × Str) → Str → Str → ℕ → Exec (Server B) Error Unsealed
  unfolding ◌>>=◌
  handle_unseal shares id token now = do
    response ← on_sealing (Seal.handle_unseal sharing cipher shares)
    after_sealing id token now response
