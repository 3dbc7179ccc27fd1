-- ===== src/System/Routes/Open.antt =====
-- covert-server/src/system/mod.rs: what the system's backend answers without authentication, or while
-- the store is closed.
use covert.Prelude.{
  ◌≡◌, refl, ap, ◌∙◌, Bool, true, false, Str, codes, all, ◌||◌, ◌&&◌, str_eq, In, all-In, any-In,
  ◌⊎◌, inl, inr, some, arith, Bool-cases,
}
use covert.Auth.{StorageState, uninitialized, sealed, unsealed}
use covert.Policy.Paths.{Operation}
use covert.Router.{Request, AuthPolicy, authenticated, unauthenticated}
use covert.Framework.{
  RouteConfig, Handler, Route, MethodRouter, on, layer_all, layer, state_eq, is_permitted,
}
use covert.Framework.Guarded.{IsAdmitted, HasRoute, has_route}
use covert.System.Routes.{SystemHandler, system_routes, new_system_backend}

-- The route may be used by anyone in that state of the store.
abbrev pub is_open_at : Str → StorageState → Bool
is_open_at pattern state =
    (str_eq pattern (codes "/unseal") && state_eq state sealed)
    || (str_eq pattern (codes "/seal") && state_eq state unsealed)
    || (str_eq pattern (codes "/init") && state_eq state uninitialized)
    || str_eq pattern (codes "/status")

abbrev is_authenticated : AuthPolicy → Bool
is_authenticated authenticated = true
is_authenticated unauthenticated = false

-- one state of a route is as the pattern allows
abbrev is_as_allowed : Str → RouteConfig → StorageState → Bool
is_as_allowed pattern config state =
    (is_authenticated config.policy && state_eq state unsealed) || is_open_at pattern state

state_eq-eq : (a b : StorageState) → state_eq a b ≡ true → a ≡ b
state_eq-eq uninitialized uninitialized h = refl
state_eq-eq sealed sealed h = refl
state_eq-eq unsealed unsealed h = refl
state_eq-eq uninitialized sealed h = absurd (cc)
state_eq-eq uninitialized unsealed h = absurd (cc)
state_eq-eq sealed uninitialized h = absurd (cc)
state_eq-eq sealed unsealed h = absurd (cc)
state_eq-eq unsealed uninitialized h = absurd (cc)
state_eq-eq unsealed sealed h = absurd (cc)

authenticated-policy :
    (asked given : AuthPolicy)
    → is_authenticated asked ≡ true
    → is_permitted asked given ≡ true
    → given ≡ authenticated
authenticated-policy authenticated authenticated h k = refl
authenticated-policy authenticated unauthenticated h k = absurd (cc)
authenticated-policy unauthenticated given h k = absurd (cc)

-- The request is authenticated and the store open, or the route is open to all in the store's state.
abbrev pub IsAllowed : Str → Request → Type 0
IsAllowed pattern req =
    ((req.auth_policy ≡ some authenticated) × (req.storage_state ≡ some unsealed))
    ⊎ ((state : StorageState) × (req.storage_state ≡ some state)
        × (is_open_at pattern state ≡ true))

module _ {S R : Type 0} (dispatch : SystemHandler → Handler S R)
    (extension : Handler S R → Handler S R) where
  all_as_allowed :
      all
        (λ e. all (λ r. all (is_as_allowed e.0 r.1.config) r.1.config.state) e.1)
        (new_system_backend dispatch extension)
      ≡ true
  unfolding new_system_backend system_routes layer_all layer on
  all_as_allowed = refl

  -- A request that a route of the system's backend admits is authenticated and the store is
  -- unsealed, or the route is `/unseal` in a sealed store, `/seal` in an unsealed one, `/init` in
  -- one without a file, or `/status`.
  pub new_system_backend-IsAllowed :
      (pattern : Str) (routes : MethodRouter S R) (op : Operation) (route : Route S R)
      (req : Request)
      → In (pattern, routes) (new_system_backend dispatch extension)
      → HasRoute routes op route
      → IsAdmitted route.config req
      → IsAllowed pattern req
  new_system_backend-IsAllowed pattern routes op route req i (has_route o j k) a =
      let in_table =
        all-In (λ e. all (λ r. all (is_as_allowed e.0 r.1.config) r.1.config.state) e.1)
          (new_system_backend dispatch extension) (pattern, routes) all_as_allowed i in
      let in_routes =
        all-In (λ r. all (is_as_allowed pattern r.1.config) r.1.config.state) routes (o, route)
          in_table j in
      let (state, l, same) = any-In (state_eq a.state) route.config.state a.state_listed in
      let allowed =
        all-In (is_as_allowed pattern route.config) route.config.state state in_routes l in
      let known : req.storage_state ≡ some state =
        a.has_state ∙ ap some (state_eq-eq a.state state same) in
      elim (Bool-cases (is_open_at pattern state)) [
        | inl e ↦ inr (state, known, e)
        | inr e ↦ inl (
          a.has_policy
              ∙ ap some (
                  authenticated-policy route.config.policy a.policy (ground (arith, allowed, e))
                    a.permitted),
          known ∙ ap some (state_eq-eq state unsealed (ground (arith, allowed, e))),
        )
      ]
