-- ===== src/Examples/Openings.antt =====
-- Closing and opening the store, with the team's mounts in its tables, at concrete inputs.
use covert.Prelude.{◌≡◌, refl, ◌||◌, [], ◌∷◌, some, Str, codes, ok, any, str_eq}
use covert.Prelude.Exec.{◌>>=◌}
use covert.Server.Tables.{Namespace, BackendType, system, kv}
use covert.Namespace.{find_by_path, descend}
use covert.Mount
use covert.Policies
use covert.Entity
use covert.Auth
use covert.Router
use covert.Router.{system_key}
use covert.Storage
use covert.Seal
use covert.Seal.{insert_all, insert_key_share, get_key_shares, open_with, clear_key_shares}
use covert.System.Opening.{
  root_path, generate_root_token, root_namespace, clear_routes, route_all, set_up, open_server,
  Server, opened, handle_seal, handle_unseal, after_sealing,
}
use covert.System.Opening.Routes.{has_route, mounts_key}
use covert.System.Opening.Reopened.{handle_seal-handle_unseal}
use covert.System.Opening.RootToken.{IsRoot, generate_root_token-IsRoot}
use covert.Examples.{store, root_ns}
use covert.Examples.Routing.{engines}
use covert.Examples.Seals.{plain, one_share}
use covert.Examples.Seals

root_is_found : find_by_path root_path store.namespaces ≡ some root_ns
unfolding find_by_path descend
root_is_found = refl

generate_root_token-IsRoot_example :
    ((generate_root_token (codes "s9") 5 store).0 ≡ ok (codes "s9"))
    × IsRoot (codes "s9") 5 root_ns (generate_root_token (codes "s9") 5 store).1
generate_root_token-IsRoot_example =
    generate_root_token-IsRoot (codes "s9") 5 store root_ns root_is_found

-- a server with a mount of the team
abbrev running : Server BackendType
running = record {
  sealing = Seals.opened;
  context = record { tables = store; router = (codes "m1", kv) ∷ (system_key, system) ∷ [] };
}

abbrev closed : Server BackendType
closed = (handle_seal root_ns running).1

abbrev reopened : Server BackendType
reopened =
    (handle_unseal one_share plain engines (ok tt) ((codes "a", codes "k") ∷ []) (codes "r9")
      (codes "s9") 5 closed).1

is_closed : handle_seal root_ns running ≡ (ok tt, closed)
unfolding handle_seal Seal.handle_seal Storage.seal clear_routes ◌>>=◌ Router.get_system_mount
    Router.clear_mounts Router.mount_system
is_closed = refl

is_reopened :
    handle_unseal one_share plain engines
      (ok tt)
      ((codes "a", codes "k") ∷ [])
      (codes "r9")
      (codes "s9")
      5
      closed
    ≡ (ok (opened (codes "s9")), reopened)
unfolding handle_seal Seal.handle_seal Storage.seal clear_routes ◌>>=◌ Router.get_system_mount
    Router.clear_mounts Router.mount_system handle_unseal Seal.handle_unseal insert_all
    insert_key_share get_key_shares open_with clear_key_shares Storage.unseal after_sealing
    open_server set_up root_namespace find_by_path descend route_all Mount.list generate_root_token
    Policies.create Entity.create Entity.attach_policy Auth.create
is_reopened = refl

handle_seal-handle_unseal_example :
    (root : Namespace) × (find_by_path root_path reopened.context.tables.namespaces ≡ some root)
    × (reopened.context.tables.mounts ≡ store.mounts)
    × ((key : Str)
        → has_route key reopened.context.router
          ≡ (str_eq system_key key || any (mounts_key root.id key) store.mounts))
handle_seal-handle_unseal_example =
    handle_seal-handle_unseal one_share plain engines (ok tt) root_ns ((codes "a", codes "k") ∷ [])
      (codes "r9") (codes "s9") 5 running closed reopened (codes "s9") is_closed is_reopened
