-- ===== src/Framework.antt =====
-- covert-framework/src: the routes of a backend, and what guards them. Matching a path against the
-- patterns (matchit) is a parameter. A backend runs in a task of its own; where that panics, the
-- caller's channel closes, which is answered as an internal error.
pub mod Guarded
use covert.Prelude.{
  ◌&&◌, Bool, true, false, List, [], ◌∷◌, ◌++◌, map, Option, none, some, Str, any, delete,
  starts_with, if◌then◌else◌, Result, ok, err, not,
}
use covert.Prelude.Exec.{Exec}
use covert.Auth.{StorageState, uninitialized, sealed, unsealed}
use covert.Policy.Paths.{Operation, create, read, update, revoke, renew, op_eq}
use covert.Policy.Paths
use covert.Router.{Request, AuthPolicy, authenticated, unauthenticated}
use covert.Server.Tables.{Error, internal_error, unauthorized, not_found, invalid_state, slash}

-- `RouteConfig`
pub record RouteConfig : Type 0 where
  pub policy : AuthPolicy
  pub state : List StorageState

-- `RouteConfig::default`
abbrev pub default_route : RouteConfig
default_route = record { policy = authenticated; state = unsealed ∷ [] }

-- `RouteConfig::unauthenticated`
abbrev pub unauthenticated_route : RouteConfig
unauthenticated_route = record default_route { policy = unauthenticated }

abbrev pub state_eq : StorageState → StorageState → Bool
state_eq uninitialized uninitialized = true
state_eq sealed sealed = true
state_eq unsealed unsealed = true
state_eq _ _ = false

-- the `match` on the route's policy
abbrev pub is_permitted : AuthPolicy → AuthPolicy → Bool
is_permitted authenticated authenticated = true
is_permitted authenticated unauthenticated = false
is_permitted unauthenticated given = true

abbrev pub prefixed : Str → Str
prefixed path = if starts_with path (slash ∷ []) then path else slash ∷ path

module _ (S R : Type 0) where
  abbrev pub Handler : Type 0
  Handler = Request → Exec S Error R

  -- `Route`
  pub record Route : Type 0 where
    pub handler : Handler
    pub config : RouteConfig

  -- `MethodRouter`
  abbrev pub MethodRouter : Type 0
  MethodRouter = List (Operation × Route)

module _ {S R : Type 0} where
  -- `Route::call`
  unfoldable pub call_route : Route S R → Handler S R
  call_route route req s = elim req.storage_state [
    | none ↦ (err internal_error, s)
    | some state ↦
        if not (any (state_eq state) route.config.state)
        then (err invalid_state, s)
        else elim req.auth_policy [
          | none ↦ (err unauthorized, s)
          | some policy ↦
              if is_permitted route.config.policy policy
              then route.handler req s
              else (err unauthorized, s)
        ]
  ]

  -- HashMap's `get` and `insert`
  abbrev pub get : Operation → MethodRouter S R → Option (Route S R)
  get op [] = none
  get op (e ∷ es) = if op_eq e.0 op then some e.1 else get op es

  -- `MethodRouter::on`, and the methods that chain a handler
  unfoldable pub on : Operation → Handler S R → RouteConfig → MethodRouter S R → MethodRouter S R
  on operation handler config routes =
      (operation, record { handler = handler; config = config })
      ∷ delete (λ e. op_eq e.0 operation) routes

  -- `MethodRouter::layer`: the route with its guard is the handler of a new route
  unfoldable pub layer : (Handler S R → Handler S R) → MethodRouter S R → MethodRouter S R
  unfolding call_route
  layer f routes =
      map (λ e. (e.0, record { handler = f (call_route e.1); config = e.1.config })) routes

  -- `MethodRouter::call`
  unfoldable pub call_method : MethodRouter S R → Handler S R
  unfolding call_route
  call_method routes req s = elim (get req.operation routes) [
    | some route ↦ call_route route req s
    | none ↦ (err not_found, s)
  ]

  -- `Router::layer`
  unfoldable pub layer_all :
      (Handler S R → Handler S R) → List (Str × MethodRouter S R) → List (Str × MethodRouter S R)
  unfolding layer
  layer_all f routes = map (λ e. (e.0, layer f e.1)) routes

  -- `Router::call`; `at` finds the routes for a path, with the parts that the pattern leaves open
  unfoldable pub call_router : (Str → Option (MethodRouter S R × List Str)) → Handler S R
  unfolding call_method
  call_router at req s = elim (at (prefixed req.path)) [
    | none ↦ (err not_found, s)
    | some (routes, params) ↦ call_method routes (record req { params = params }) s
  ]
