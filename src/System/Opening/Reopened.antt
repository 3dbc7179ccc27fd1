-- ===== src/System/Opening/Reopened.antt =====
-- covert-server/src/system/unseal.rs and seal.rs: which mounts have a backend once the store has been
-- closed and opened again.
use covert.Prelude.{
  ℕ, ◌≡◌, refl, sym, ap, ◌∙◌, subst, List, [], ◌||◌, some, Str, any, str_eq, Result, ok, arith, inl,
  inr, Bool-cases, Option-cases,
}
use covert.Prelude.Exec.{
  Exec, Keeps, keeps_rules, bind-eq-ok, Yields, Yields-query, Yields-bind, ◌>>=◌, pure,
}
use covert.Server.Tables.{
  Tables, Namespace, MountEntry, BackendType, Error, internal_error, root_name,
}
use covert.Namespace
use covert.Namespace.{find_by_path, descend}
use covert.Mount
use covert.Policies
use covert.Policy.{Policy}
use covert.Entity
use covert.Auth
use covert.Router.{system_key}
use covert.Expiration.Revocation.{ignore}
use covert.Storage.{Cipher}
use covert.Seal
use covert.Seal.{Sharing, UnsealResponse, complete, in_progress}
use covert.System.{Context, Backends}
use covert.System.Opening.{
  root_path, new_root, generate_root_token, on_tables, root_namespace, clear_routes, route_all,
  set_up, open_server, Server, opened, handle_seal, handle_unseal, after_sealing, on_sealing,
  on_context,
}
use covert.System.Opening.Routes.{
  has_route, mounts_key, clear_routes-has_route, route_all-router, any-list,
}

-- The root namespace that has been made is found.
create-found :
    (id : Str) (t u : Tables) (a : Unit {0})
    → Namespace.create (new_root id) t ≡ (ok a, u)
    → (find_by_path root_path u.namespaces ≡ some (new_root id)) × (u.mounts ≡ t.mounts)
unfolding Namespace.create find_by_path descend
create-found id t u a h =
    elim (Bool-cases (
      any (Namespace.has_id id) t.namespaces
      || any (Namespace.same_place (new_root id)) t.namespaces)) [
        | inl e ↦ absurd (ground (arith, ap (λ r. r.0) (rw (e, Namespace.create) at h)))
        | inr e ↦
            let same = ap (λ r. r.1) (rw (e, Namespace.create) at h) in
            (
              ap (λ v. find_by_path root_path v.namespaces) (sym same),
              ap (λ v. v.mounts) (sym same),
            )
      ]

module _ {B : Type 0} where
  made-found :
      (id : Str) (s t u : Context B) (ns : Namespace) (a : Unit {0})
      → on_tables (Namespace.create (new_root id)) s ≡ (ok a, u)
      → pure {E = Error} (new_root id) u ≡ (ok ns, t)
      → (find_by_path root_path t.tables.namespaces ≡ some ns)
        × (t.tables.mounts ≡ s.tables.mounts)
        × (t.router ≡ s.router)
  unfolding ◌>>=◌
  made-found id s t u ns a e1 e2 =
      let (found, mounts) = create-found id s.tables u.tables a (ap (λ r. (r.0, r.1.tables)) e1) in
      let named : new_root id ≡ ns = ground (arith, ap (λ r. r.0) e2) in
      (
        ap (λ r. find_by_path root_path r.1.tables.namespaces) (sym e2) ∙ found ∙ ap some named,
        ap (λ r. r.1.tables.mounts) (sym e2) ∙ mounts,
        ap (λ r. r.1.router) (sym e2) ∙ ap (λ r. r.1.router) (sym e1),
      )

  root_namespace-found :
      (id : Str) (s t : Context B) (ns : Namespace)
      → root_namespace id s ≡ (ok ns, t)
      → (find_by_path root_path t.tables.namespaces ≡ some ns)
        × (t.tables.mounts ≡ s.tables.mounts)
        × (t.router ≡ s.router)
  unfolding root_namespace ◌>>=◌
  root_namespace-found id s t ns h =
      elim (Option-cases (find_by_path root_path s.tables.namespaces)) [
        | inr (n, e) ↦
            let same = rw (e, root_namespace) at h in
            let named : n ≡ ns = ground (arith, ap (λ r. r.0) same) in
            (
              ap (λ r. find_by_path root_path r.1.tables.namespaces) (sym same) ∙ e ∙ ap some named,
              ap (λ r. r.1.tables.mounts) (sym same),
              ap (λ r. r.1.router) (sym same),
            )
        | inl e ↦
            let made = rw (e, root_namespace) at h in
            let (a, u, e1, e2) =
              bind-eq-ok (on_tables (Namespace.create (new_root id))) (λ _. pure (new_root id)) s t
                ns made in
            made-found id s t u ns a e1 e2
      ]

-- The router has gained the mounts of the root namespace, which is found.
pub record IsReopened {B : Type 0} (before : List (Str × B)) (t : Tables) (u : Context B)
    : Type 0 where
  pub root_ns : Namespace
  pub found : find_by_path root_path u.tables.namespaces ≡ some root_ns
  pub mounts : u.tables.mounts ≡ t.mounts
  pub routed :
      (key : Str)
      → has_route key u.router ≡ (has_route key before || any (mounts_key root_ns.id key) t.mounts)

-- The token's steps leave the namespaces and the mounts as they are.
module _ (rows : List Namespace) (ms : List MountEntry) where
  abbrev Stays : Tables → Type 0
  Stays t = (t.namespaces ≡ rows) × (t.mounts ≡ ms)

  Keeps-ignore : {A : Type 0} (m : Exec Tables Error A) → Keeps Stays m → Keeps Stays (ignore m)
  Keeps-ignore m k = record { at = λ s h. k.at s h }

  Keeps-policy : (p : Policy) → Keeps Stays (Policies.create p)
  unfolding Policies.create
  Keeps-policy p = record { at = λ s h. ground (arith, h) }

  Keeps-entity : (e : covert.Server.Tables.Entity) → Keeps Stays (Entity.create e)
  unfolding Entity.create
  Keeps-entity e = record { at = λ s h. ground (arith, h) }

  Keeps-link : (name policy id : Str) → Keeps Stays (Entity.attach_policy name policy id)
  unfolding Entity.attach_policy
  Keeps-link name policy id = record { at = λ s h. ground (arith, h) }

  Keeps-token : (te : covert.Server.Tables.TokenEntry) → Keeps Stays (Auth.create te)
  unfolding Auth.create
  Keeps-token te = record { at = λ s h. ground (arith, h) }

  generate_root_token-Stays : (token : Str) (now : ℕ) → Keeps Stays (generate_root_token token now)
  unfolding generate_root_token
  generate_root_token-Stays token now =
      search (keeps_rules, Keeps-ignore, Keeps-policy, Keeps-entity, Keeps-link, Keeps-token) depth
        12

module _ {B : Type 0} (backends : Backends B) (migrated : Result Error (Unit {0})) where
  set_up-IsReopened :
      (id : Str) (s : Context B)
      → Yields (λ _ u. IsReopened s.router s.tables u) (set_up backends migrated id) s
  unfolding set_up
  set_up-IsReopened id s =
      Yields-query (λ _. migrated) _ s
        (λ _ _. Yields-bind (root_namespace id) _ s (λ ns t e1.
          Yields-query {E = Error} (λ t. ok (Mount.list ns.id t.tables))
            (route_all backends migrated ns.id) t
            (λ ms e2. record {
              at = λ a u e3.
                  let (found, mounts, router) = root_namespace-found id s t ns e1 in
                  let listed : Mount.list ns.id t.tables ≡ ms = ground (arith, e2) in
                  let routes = route_all-router backends migrated ns.id in
                  record {
                    root_ns = ns;
                    found =
                        ap (λ v. find_by_path root_path v.namespaces) (routes [] ms t u a e3).0
                        ∙ found;
                    mounts = ap (λ v. v.mounts) (routes [] ms t u a e3).0 ∙ mounts;
                    routed = λ key.
                        (routes key ms t u a e3).1
                        ∙ ap (λ r. has_route key r || any (λ m. str_eq m.id key) ms) router
                        ∙ ap (λ b. has_route key s.router || b)
                            (ap (any (λ m. str_eq m.id key)) (sym listed)
                              ∙ any-list ns.id key t.tables
                              ∙ ap (any (mounts_key ns.id key)) mounts);
                  };
            })))

  open_server-IsReopened :
      (id token : Str) (now : ℕ) (s : Context B)
      → Yields
          (λ _ u. IsReopened s.router s.tables u)
          (open_server backends migrated id token now)
          s
  unfolding open_server
  open_server-IsReopened id token now s =
      Yields-bind (set_up backends migrated id) (λ _. on_tables (generate_root_token token now)) s
        (λ a t e1. record {
          at = λ x u e2.
              let r = (set_up-IsReopened id s).at a t e1 in
              let kept =
                (generate_root_token-Stays t.tables.namespaces t.tables.mounts token now).at
                  t.tables (refl, refl) in
              let tables : (generate_root_token token now t.tables).1 ≡ u.tables =
                ap (λ p. p.1.tables) e2 in
              record {
                root_ns = r.root_ns;
                found =
                    ap (λ v. find_by_path root_path v.namespaces) (sym tables)
                    ∙ ap (find_by_path root_path) kept.0
                    ∙ r.found;
                mounts = ap (λ v. v.mounts) (sym tables) ∙ kept.1 ∙ r.mounts;
                routed = λ key. ap (λ p. has_route key p.1.router) (sym e2) ∙ r.routed key;
              };
        })

module _ {B : Type 0} (sharing : Sharing) (cipher : Cipher) (backends : Backends B)
    (migrated : Result Error (Unit {0})) where
  by_response :
      (r : UnsealResponse sharing) (id token : Str) (now : ℕ) (s u : Server B) (issued : Str)
      → after_sealing sharing cipher backends migrated id token now r s ≡ (ok (opened issued), u)
      → IsReopened s.context.router s.context.tables u.context
  unfolding after_sealing ◌>>=◌
  by_response (in_progress threshold total provided) id token now s u issued h =
      absurd (ground (arith, ap (λ p. p.0) h))
  by_response complete id token now s u issued h =
      let (x, w, e1, e2) =
        bind-eq-ok (on_context (open_server backends migrated id token now))
          (λ issued. pure (opened issued)) s u (opened issued) h in
      subst (IsReopened s.context.router s.context.tables) (ap (λ p. p.1.context) e2) (
        (open_server-IsReopened backends migrated id token now s.context).at x w.context
          (ap (λ p. (p.0, p.1.context)) e1))

  handle_unseal-IsReopened :
      (shares : List (Str × Str)) (id token : Str) (now : ℕ) (s u : Server B) (issued : Str)
      → handle_unseal sharing cipher backends migrated shares id token now s
        ≡ (ok (opened issued), u)
      → IsReopened s.context.router s.context.tables u.context
  unfolding handle_unseal
  handle_unseal-IsReopened shares id token now s u issued h =
      let (r, v, e1, e2) =
        bind-eq-ok (on_sealing (Seal.handle_unseal sharing cipher shares))
          (after_sealing sharing cipher backends migrated id token now) s u (opened issued) h in
      subst (λ (c : Context B). IsReopened c.router c.tables u.context)
        (sym (ap (λ p. p.1.context) e1)) (by_response r id token now v u issued e2)

  -- Once the store has been sealed and an unseal has completed, the mounts are those of before,
  -- and the router has a backend for exactly the system and the mounts of the root namespace.
  pub handle_seal-handle_unseal :
      (ns : Namespace) (shares : List (Str × Str)) (id token : Str) (now : ℕ) (s t u : Server B)
      (issued : Str)
      → handle_seal ns s ≡ (ok tt, t)
      → handle_unseal sharing cipher backends migrated shares id token now t
        ≡ (ok (opened issued), u)
      → (root_ns : Namespace) × (find_by_path root_path u.context.tables.namespaces ≡ some root_ns)
        × (u.context.tables.mounts ≡ s.context.tables.mounts)
        × ((key : Str)
            → has_route key u.context.router
              ≡ (str_eq system_key key || any (mounts_key root_ns.id key) s.context.tables.mounts))
  unfolding handle_seal
  handle_seal-handle_unseal ns shares id token now s t u issued h k =
      let (a, v, e1, e2) =
        bind-eq-ok (on_sealing (Seal.handle_seal ns)) (λ _. on_context clear_routes) s t tt h in
      let (tables, routes) =
        clear_routes-has_route v.context t.context tt (ap (λ p. (p.0, p.1.context)) e2) in
      let same : t.context.tables ≡ s.context.tables =
        tables ∙ ap (λ p. p.1.context.tables) (sym e1) in
      let r = handle_unseal-IsReopened shares id token now t u issued k in
      (
        r.root_ns,
        r.found,
        r.mounts ∙ ap (λ v. v.mounts) same,
        λ key.
            r.routed key
            ∙ ap (λ b. b || any (mounts_key r.root_ns.id key) t.context.tables.mounts) (routes key)
            ∙ ap (λ v. str_eq system_key key || any (mounts_key r.root_ns.id key) v.mounts) same,
      )
