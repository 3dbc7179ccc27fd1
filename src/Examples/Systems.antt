-- ===== src/Examples/Systems.antt =====
-- The system's backend, at concrete inputs.
use covert.Prelude.{ℕ, ◌≢◌, refl, true, [], ◌∷◌, some, codes, ok, In, here, there}
use covert.Policy.Paths.{read}
use covert.Auth
use covert.Auth.{is_authorized, uninitialized, sealed, unsealed}
use covert.Router.{Request, unauthenticated}
use covert.Framework.{
  Handler, Route, MethodRouter, RouteConfig, call_route, layer, layer_all, on, Route,
}
use covert.Framework.Guarded.{IsAdmitted, HasRoute, has_route}
use covert.System.Routes.{
  SystemHandler, handle_status, one, open_in, system_routes, new_system_backend,
}
use covert.System.Routes.Open.{IsAllowed, new_system_backend-IsAllowed}
use covert.System.Tokens.{handle_token_revocation}
use covert.System.Tokens.Revoked.{IsIssuedIn, handle_token_revocation-unauthorized}
use covert.System.Entities.{handle_attach_entity_policy}
use covert.System.Entities.Attached.{IsAttached, handle_attach_entity_policy-IsAttached}
use covert.Examples.{store, team_ns}
use covert.Examples.Routing.{request}

abbrev answers : SystemHandler → Handler ℕ ℕ
answers handler req s = (ok s, s)

abbrev bare : Handler ℕ ℕ → Handler ℕ ℕ
bare h = h

abbrev status_config : RouteConfig
status_config = open_in (uninitialized ∷ sealed ∷ unsealed ∷ [])

abbrev status_routes : MethodRouter ℕ ℕ
status_routes = layer bare (one answers bare read handle_status status_config)

abbrev status_route : Route ℕ ℕ
status_route = record {
  handler = call_route (record { handler = answers handle_status; config = status_config });
  config = status_config;
}

abbrev asks_status : Request
asks_status = record request { storage_state = some sealed; auth_policy = some unauthenticated }

status_is_listed : In (codes "/status", status_routes) (new_system_backend answers bare)
unfolding new_system_backend system_routes layer_all
status_is_listed = there (there (there (here refl)))

status_has_route : HasRoute status_routes read status_route
unfolding layer on
status_has_route = has_route read (here refl) refl

status-IsAdmitted : IsAdmitted status_config asks_status
status-IsAdmitted = record {
  state = sealed;
  policy = unauthenticated;
  has_state = refl;
  state_listed = refl;
  has_policy = refl;
  permitted = refl;
}

new_system_backend-IsAllowed_example : IsAllowed (codes "/status") asks_status
new_system_backend-IsAllowed_example =
    new_system_backend-IsAllowed answers bare (codes "/status") status_routes read status_route
      asks_status status_is_listed status_has_route status-IsAdmitted

handle_attach_entity_policy-IsAttached_example :
    IsAttached []
      (codes "ann")
      (codes "readers" ∷ [])
      team_ns
      store
      (handle_attach_entity_policy [] (codes "ann") (codes "readers" ∷ []) team_ns store)
handle_attach_entity_policy-IsAttached_example =
    handle_attach_entity_policy-IsAttached [] (codes "ann") (codes "readers" ∷ []) team_ns store

abbrev asks : Auth.Request
asks = record {
  operation = read;
  path = codes "kv/a";
  namespace = codes "root" ∷ codes "team" ∷ [];
  token = some (codes "s1");
  storage_state = some unsealed;
}

of_the_team : IsIssuedIn (codes "s1") (codes "t") store
of_the_team k (here e) h = rw e refl
of_the_team k (there m) h = elim m [ ]

handle_token_revocation-unauthorized_example :
    is_authorized asks 20 (handle_token_revocation (codes "s1") team_ns store).1 ≢ ok true
handle_token_revocation-unauthorized_example =
    handle_token_revocation-unauthorized (codes "s1") team_ns store asks 20 of_the_team refl
