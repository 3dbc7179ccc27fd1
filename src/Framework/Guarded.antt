-- ===== src/Framework/Guarded.antt =====
-- covert-framework/src/method_router.rs and router.rs: when a handler runs.
use covert.Prelude.{
  ◌≡◌, refl, sym, ap, true, List, [], ◌∷◌, Option, some, Str, any, ◌⊎◌, inl, inr, In, here, there,
  Bool-cases, Option-cases, err, arith,
}
use covert.Auth.{StorageState}
use covert.Policy.Paths.{Operation, op_eq}
use covert.Router.{Request, AuthPolicy}
use covert.Server.Tables.{Error, internal_error, unauthorized, invalid_state, not_found}
use covert.Framework.{
  RouteConfig, Route, MethodRouter, Handler, state_eq, is_permitted, call_route, get, call_method,
  prefixed, call_router,
}

-- The request's storage state is one of the route's, and its policy is enough for the route.
pub record IsAdmitted (config : RouteConfig) (req : Request) : Type 0 where
  pub state : StorageState
  pub policy : AuthPolicy
  pub has_state : req.storage_state ≡ some state
  pub state_listed : any (state_eq state) config.state ≡ true
  pub has_policy : req.auth_policy ≡ some policy
  pub permitted : is_permitted config.policy policy ≡ true

module _ {S R : Type 0} where
  -- Either the request is refused and nothing has changed, or it is admitted and answered by `m`.
  abbrev pub Guards : RouteConfig → Handler S R → Handler S R → Request → S → Type 0
  Guards config run m req s =
      ((e : Error) × (run req s ≡ (err e, s))) ⊎ (IsAdmitted config req × (run req s ≡ m req s))

  pub call_route_lem :
      (route : Route S R) (req : Request) (s : S)
      → Guards route.config (call_route route) route.handler req s
  unfolding call_route
  call_route_lem route req s = elim (Option-cases req.storage_state) [
    | inl e ↦ inl (internal_error, rw e refl)
    | inr (state, e) ↦ elim (Bool-cases (any (state_eq state) route.config.state)) [
      | inr f ↦ inl (invalid_state, rw (e, f) refl)
      | inl f ↦ elim (Option-cases req.auth_policy) [
        | inl g ↦ inl (unauthorized, rw (e, f, g) refl)
        | inr (policy, g) ↦ elim (Bool-cases (is_permitted route.config.policy policy)) [
          | inr h ↦ inl (unauthorized, rw (e, f, g, h) refl)
          | inl h ↦ inr (
            record {
              state = state;
              policy = policy;
              has_state = e;
              state_listed = f;
              has_policy = g;
              permitted = h;
            },
            ground (arith, e, f, g, h),
          )
        ]
      ]
    ]
  ]

  -- a route of the table, for its operation
  pub data HasRoute (routes : MethodRouter S R) (op : Operation) (route : Route S R) : Type 0 where
    has_route :
        (o : Operation) → In (o, route) routes → op_eq o op ≡ true → HasRoute routes op route

  get-HasRoute :
      (op : Operation) (routes : MethodRouter S R) (route : Route S R)
      → get op routes ≡ some route
      → HasRoute routes op route
  get-HasRoute op [] route h = absurd (ground (arith, h))
  get-HasRoute op ((o, r) ∷ es) route h = elim (Bool-cases (op_eq o op)) [
    | inl e ↦
        let same : r ≡ route = ground (arith, rw e at h) in
        has_route o (here (ap (λ x. (o, x)) (sym same))) e
    | inr e ↦ elim (get-HasRoute op es route (rw e at h)) [
      | has_route o' i k ↦ has_route o' (there i) k
    ]
  ]

  -- Either refused, with nothing changed, or answered by the handler of a route that admits it.
  abbrev pub Served :
      (Str → Option (MethodRouter S R × List Str)) → Request → Handler S R → S → Type 0
  Served at req run s =
      ((e : Error) × (run req s ≡ (err e, s)))
      ⊎ ((routes : MethodRouter S R) × (params : List Str) × (route : Route S R) × (at
              (prefixed req.path)
            ≡ some (routes, params))
          × HasRoute routes req.operation route
          × IsAdmitted route.config req
          × (run req s ≡ route.handler (record req { params = params }) s))

  -- A request is either refused, with nothing changed, or answered by the handler of a route for
  -- its path and operation, whose states include that of the store and whose policy the request
  -- satisfies.
  pub call_router-Served :
      (at : Str → Option (MethodRouter S R × List Str)) (req : Request) (s : S)
      → Served at req (call_router at) s
  unfolding call_router call_method
  call_router-Served at req s = elim (Option-cases (at (prefixed req.path))) [
    | inl e ↦ inl (not_found, rw (e, call_router) refl)
    | inr ((routes, params), e) ↦ elim (Option-cases (get req.operation routes)) [
      | inl f ↦ inl (not_found, rw (e, f, call_router, call_method) refl)
      | inr (route, f) ↦ elim (call_route_lem route (record req { params = params }) s) [
        | inl (x, g) ↦ inl (x, rw (e, f, call_router, call_method) g)
        | inr (a, g) ↦ inr (
          routes,
          params,
          route,
          e,
          get-HasRoute req.operation routes route f,
          record {
            state = a.state;
            policy = a.policy;
            has_state = a.has_state;
            state_listed = a.state_listed;
            has_policy = a.has_policy;
            permitted = a.permitted;
          },
          rw (e, f, call_router, call_method) g,
        )
      ]
    ]
  ]
