-- ===== src/System/Routes.antt =====
-- covert-server/src/system/mod.rs: the routes of the system's backend, with what guards each. The
-- handlers are told apart by their names; `dispatch` gives each its function, and `extension` is the
-- layer that attaches the context to a request.
pub mod Open
use covert.Prelude.{
  ◌≡◌, refl, Bool, true, false, List, [], ◌∷◌, Str, codes, any, all, ◌||◌, ◌&&◌, not, str_eq, In,
  all-In, ◌⊎◌, inl, inr, arith, Bool-cases, some, ap, sym, ◌∙◌, eq_of_str_eq,
}
use covert.Auth.{StorageState, uninitialized, sealed, unsealed}
use covert.Policy.Paths.{Operation, create, read, update, delete, revoke, renew}
use covert.Router.{Request, AuthPolicy, authenticated, unauthenticated}
use covert.Framework.{
  RouteConfig, default_route, Handler, Route, MethodRouter, on, layer_all, layer, state_eq,
  is_permitted,
}
use covert.Framework.Guarded.{IsAdmitted, HasRoute}

pub data SystemHandler : Type 0 where
  handle_unseal handle_seal handle_initialize handle_status : SystemHandler
  handle_mounts_list handle_mount handle_update_mount handle_mount_disable : SystemHandler
  handle_create_policy handle_list_policies handle_delete_policy : SystemHandler
  handle_token_revocation handle_token_renewal : SystemHandler
  handle_lease_revocation handle_lease_renew handle_lease_lookup : SystemHandler
  handle_lease_revocation_by_mount handle_list_leases : SystemHandler
  handle_entity_create handle_list_entities handle_attach_entity_policy : SystemHandler
  handle_remove_entity_policy handle_attach_entity_alias handle_remove_entity_alias : SystemHandler
  create_namespace_handler list_namespaces_handler delete_namespace_handler : SystemHandler

abbrev pub open_in : List StorageState → RouteConfig
open_in states = record { policy = unauthenticated; state = states }

module _ {S R : Type 0} (dispatch : SystemHandler → Handler S R)
    (extension : Handler S R → Handler S R) where
  abbrev pub one : Operation → SystemHandler → RouteConfig → MethodRouter S R
  one op handler config = on op (dispatch handler) config []

  -- a method that is chained to those before it
  abbrev pub chain : MethodRouter S R → Operation → SystemHandler → RouteConfig → MethodRouter S R
  chain routes op handler config = on op (dispatch handler) config routes

  -- the table that `new_system_backend` builds
  unfoldable pub system_routes : List (Str × MethodRouter S R)
  unfolding on
  system_routes =
      (
        codes "/unseal",
        chain (one create handle_unseal (open_in (sealed ∷ []))) update handle_unseal
            (open_in (sealed ∷ [])),
      )
      ∷ (
        codes "/seal",
        chain (one create handle_seal (open_in (unsealed ∷ []))) update handle_seal
            (open_in (unsealed ∷ [])),
      )
      ∷ (
        codes "/init",
        chain (one create handle_initialize (open_in (uninitialized ∷ []))) update handle_initialize
            (open_in (uninitialized ∷ [])),
      )
      ∷ (codes "/status", one read handle_status (open_in (uninitialized ∷ sealed ∷ unsealed ∷ [])))
      ∷ (codes "/mounts", one read handle_mounts_list default_route)
      ∷ (
        codes "/mounts/*path",
        chain
            (chain (one create handle_mount default_route) update handle_update_mount default_route)
            delete handle_mount_disable default_route,
      )
      ∷ (
        codes "/policies",
        chain
            (chain (one update handle_create_policy default_route) create handle_create_policy
              default_route)
            read handle_list_policies default_route,
      )
      ∷ (codes "/policies/*name", one delete handle_delete_policy default_route)
      ∷ (codes "/token/revoke", one revoke handle_token_revocation default_route)
      ∷ (codes "/token/renew", one renew handle_token_renewal default_route)
      ∷ (codes "/leases/revoke/*lease_id", one update handle_lease_revocation default_route)
      ∷ (codes "/leases/renew/*lease_id", one update handle_lease_renew default_route)
      ∷ (codes "/leases/lookup/*lease_id", one read handle_lease_lookup default_route)
      ∷ (
        codes "/leases/revoke-mount/*prefix",
        one update handle_lease_revocation_by_mount default_route,
      )
      ∷ (codes "/leases/lookup-mount/*prefix", one read handle_list_leases default_route)
      ∷ (
        codes "/entity",
        chain (one create handle_entity_create default_route) read handle_list_entities
            default_route,
      )
      ∷ (codes "/entity/policy", one update handle_attach_entity_policy default_route)
      ∷ (codes "/entity/policy/*name", one update handle_remove_entity_policy default_route)
      ∷ (codes "/entity/alias", one update handle_attach_entity_alias default_route)
      ∷ (codes "/entity/alias/*name", one update handle_remove_entity_alias default_route)
      ∷ (
        codes "/namespaces",
        chain (one create create_namespace_handler default_route) read list_namespaces_handler
            default_route,
      )
      ∷ (codes "/namespaces/*name", one delete delete_namespace_handler default_route)
      ∷ []

  -- `new_system_backend`, the routes with the layer
  unfoldable pub new_system_backend : List (Str × MethodRouter S R)
  unfolding system_routes layer_all layer
  new_system_backend = layer_all extension system_routes
