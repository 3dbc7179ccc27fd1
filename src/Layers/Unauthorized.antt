-- ===== src/Layers/Unauthorized.antt =====
-- covert-server/src/layer and covert-framework/src: what a request that is not authorised can do.
use covert.Prelude.{
  if◌then◌else◌, subst, ℕ, ◌≡◌, refl, sym, ap, ◌∙◌, true, false, List, Option, some, Str, ◌⊎◌, inl,
  inr, Bool-cases, Option-cases, Result-cases, Result, ok, err, arith,
}
use covert.Prelude.Exec.{◌>>=◌, bind-err}
use covert.Ttl.{Chrono, MountConfig}
use covert.Namespace.{find_by_path}
use covert.Auth.{StorageState, is_unsealed, is_authorized}
use covert.Router
use covert.Router.{
  Request, AuthPolicy, authenticated, unauthenticated, ResponseContext, resolve, as_seen,
}
use covert.Router.Dispatch.{route}
use covert.Expiration.Registration.{Response}
use covert.Framework.{Route, MethodRouter, prefixed, call_router, is_permitted}
use covert.Framework.Guarded.{IsAdmitted, HasRoute, call_router-Served}
use covert.Server.Tables.{Tables, Error, bad_request}
use covert.Layers.{
  as_read, storage_state_extension, namespace_extension, auth_service, lease_registration, serve,
}

abbrev pub Matcher : Type 0
Matcher = Str → Option (MethodRouter Tables Response × List Str)

-- The backend that the router finds for the request answers it by a route that is open to all.
pub record IsOpen (backends : List (Str × Matcher)) (req : Request) (t : Tables) : Type 0 where
  pub at : Matcher
  pub mount_path : Str
  pub config : MountConfig
  pub resolved : resolve backends req t ≡ ok (at, mount_path, config)
  pub routes : MethodRouter Tables Response
  pub params : List Str
  pub matched : at (prefixed (as_seen req mount_path config).path) ≡ some (routes, params)
  pub route : Route Tables Response
  pub has_route : HasRoute routes req.operation route
  pub open_to_all : route.config.policy ≡ unauthenticated

abbrev pub IsRefused : {A : Type 0} → Result Error A × Tables → Tables → Type 0
IsRefused r t = (e : Error) × (r ≡ (err e, t))

permitted-authenticated :
    (given : AuthPolicy) → is_permitted authenticated given ≡ true → given ≡ authenticated
permitted-authenticated authenticated h = refl
permitted-authenticated unauthenticated h = absurd (cc)

as_seen-auth_policy :
    (req : Request) (p : Str) (c : MountConfig)
    → ((as_seen req p c).auth_policy ≡ req.auth_policy)
      × ((as_seen req p c).operation ≡ req.operation)
unfolding Router.advance_path
as_seen-auth_policy req p c = ground (arith)

as_seen-path :
    (req : Request) (a : Option AuthPolicy) (p : Str) (c : MountConfig)
    → (as_seen req p c).path ≡ (as_seen (record req { auth_policy = a }) p c).path
unfolding Router.advance_path
as_seen-path req a p c = ground (arith)

module _ (backends : List (Str × Matcher)) where
  -- The route that has answered is open to all, or the request has been authenticated.
  admitted :
      (req : Request) (t : Tables) (p : Str) (c : MountConfig) (at : Matcher)
      (routes : MethodRouter Tables Response) (params : List Str) (route : Route Tables Response)
      → resolve backends req t ≡ ok (at, p, c)
      → at (prefixed (as_seen req p c).path) ≡ some (routes, params)
      → HasRoute routes (as_seen req p c).operation route
      → IsAdmitted route.config (as_seen req p c)
      → (req.auth_policy ≡ some authenticated) ⊎ IsOpen backends req t
  admitted req t p c at routes params route i m r a = by_policy route.config.policy refl
    where
      by_policy :
          (policy : AuthPolicy)
          → route.config.policy ≡ policy
          → (req.auth_policy ≡ some authenticated) ⊎ IsOpen backends req t
      by_policy unauthenticated e = inr (record {
        at = at;
        mount_path = p;
        config = c;
        resolved = i;
        routes = routes;
        params = params;
        matched = m;
        route = route;
        has_route = subst (λ o. HasRoute routes o route) (as_seen-auth_policy req p c).1 r;
        open_to_all = e;
      })
      by_policy authenticated e =
          let given = permitted-authenticated a.policy (rw e at a.permitted) in
          inl (sym (as_seen-auth_policy req p c).0 ∙ a.has_policy ∙ ap some given)

  routed :
      (req : Request) (t : Tables)
      → IsRefused (route call_router backends req t) t
        ⊎ ((req.auth_policy ≡ some authenticated) ⊎ IsOpen backends req t)
  unfolding route ◌>>=◌
  routed req t = elim (Result-cases (resolve backends req t)) [
    | inr (e, h) ↦ inl (e, rw h refl)
    | inl ((at, p, c), h) ↦ elim (call_router-Served at (as_seen req p c) t) [
      | inl (e, k) ↦ inl (e, rw (h, k) refl)
      | inr (routes, params, r, m, has, a, k) ↦
          inr (admitted req t p c at routes params r h m has a)
    ]
  ]

  module _ (chrono : Chrono) (revoke_params : Str → Str) (state : StorageState) (checked : ℕ)
      (lease_id token : Str) (now later : ℕ) where
    registered :
        (req : Request) (t : Tables)
        → IsRefused
            (lease_registration chrono revoke_params call_router backends lease_id token now later
              req t)
            t
          ⊎ ((req.auth_policy ≡ some authenticated) ⊎ IsOpen backends req t)
    unfolding lease_registration
    registered req t = elim (routed req t) [
      | inl (e, h) ↦ inl (e, bind-err (route call_router backends req) _ t t e h)
      | inr k ↦ inr k
    ]

    -- the request as the extensions of state and namespace leave it
    abbrev pub extended : Request → Tables → Request
    extended req t = record req {
      storage_state = some state;
      ns = if is_unsealed (some state) then find_by_path req.namespace t.namespaces else req.ns;
    }

    -- refused, authorised, or answered by a route that is open to all
    abbrev pub Outcome : {A : Type 0} → Request → Tables → Result Error A × Tables → Type 0
    Outcome req t r =
        IsRefused r t ⊎ ((is_authorized (as_read req) checked t ≡ ok true) ⊎ IsOpen backends req t)

    checked_first :
        (req : Request) (t : Tables)
        → Outcome req t (
            auth_service checked
              (lease_registration chrono revoke_params call_router backends lease_id token now
                later)
              req
              t)
    unfolding auth_service resolve
    checked_first req t = elim (Result-cases (is_authorized (as_read req) checked t)) [
      | inr (e, h) ↦ inl (e, rw (h, auth_service) refl)
      | inl (true, h) ↦ inr (inl h)
      | inl (false, h) ↦ elim (registered (record req { auth_policy = some unauthenticated }) t) [
        | inl (e, k) ↦ inl (e, rw (h, auth_service) k)
        | inr (inl k) ↦ absurd (ground (arith, k))
        | inr (inr o) ↦ inr (
            inr (record {
              at = o.at;
              mount_path = o.mount_path;
              config = o.config;
              resolved = o.resolved;
              routes = o.routes;
              params = o.params;
              matched =
                  ap (λ x. o.at (prefixed x))
                    (as_seen-path req (some unauthenticated) o.mount_path o.config)
                  ∙ o.matched;
              route = o.route;
              has_route = o.has_route;
              open_to_all = o.open_to_all;
            }))
      ]
    ]

    -- Where the backends answer by their tables of routes, a request that passes the layers is
    -- either refused, with nothing changed, or authorised, in the state and namespace that the
    -- layers attach to it, or the router finds a backend that has a route for its path and
    -- operation which is open to all.
    pub serve-Outcome :
        (req : Request) (t : Tables)
        → Outcome (extended req t) t (
            serve chrono revoke_params call_router backends state checked lease_id token now later
              req t)
    unfolding serve storage_state_extension namespace_extension
    serve-Outcome req t = elim (Bool-cases (is_unsealed (some state))) [
      | inr h ↦ rw (h, serve) (checked_first (record req { storage_state = some state }) t)
      | inl h ↦ elim (Option-cases (find_by_path req.namespace t.namespaces)) [
        | inl e ↦ inl (bad_request, rw (h, e) refl)
        | inr (ns, e) ↦
            rw (h, e, serve)
              (checked_first (record req { storage_state = some state; ns = some ns }) t)
      ]
    ]
