-- ===== src/Expiration/Registration/Issued.antt =====
-- covert-server/src/layer/lease_registration.rs: what stands in the tables once a token is issued.
use covert.Prelude.{
  ℕ, ◌≤◌, ◌≡◌, refl, sym, ap, ◌∙◌, subst, Option, none, some, Str, arith, ok, ok_or, ok_or-ok, In,
  here, any, Result-cases, Bool-cases, inl, inr, str_eq, ◌&&◌,
}
use covert.Prelude.Exec.{Yields, Yields-query, Yields-bind, Yields-pure}
use covert.Ttl.{Chrono, calculate_ttl, calculate_ttl_value}
use covert.Auth
use covert.Lease
use covert.Entity.{get_entity_from_alias}
use covert.Router.{ResponseContext}
use covert.Server.Tables.{
  Tables, Namespace, Entity, TokenEntry, LeaseEntry, internal_error, bad_request,
}
use covert.Expiration.{new_lease, register}
use covert.Expiration.Registration.{
  granted, register_token, AuthResponse, Answer, auth_answer, new_token,
}

created-In :
    (te : TokenEntry) (t u : Tables) (a : Unit {0}) → Auth.create te t ≡ (ok a, u) → In te u.tokens
unfolding Auth.create
created-In te t u a h =
    elim (Bool-cases (
      any (λ e. str_eq te.entity_name e.name && str_eq te.namespace_id e.namespace_id)
        t.entities)) [
          | inl e ↦ subst (λ rows. In te rows) (ap (λ p. p.1.tokens) (rw e at h)) (here refl)
          | inr e ↦ absurd (ground (arith, ap (λ p. p.0) (rw e at h)))
        ]

registered-In :
    (le : LeaseEntry) (t u : Tables) (a : Unit {0})
    → register le t ≡ (ok a, u)
    → In le u.leases × (u.tokens ≡ t.tokens)
unfolding register Lease.create
registered-In le t u a h =
    elim (Bool-cases (
      any (λ m. str_eq m.namespace_id le.namespace_id && str_eq m.path le.issued_mount_path)
        t.mounts)) [
          | inl e ↦
              let k = rw e at h in
              (
                subst (λ rows. In le rows) (ap (λ p. p.1.leases) k) (here refl),
                sym (ap (λ p. p.1.tokens) k),
              )
          | inr e ↦ absurd (ground (arith, ap (λ p. p.0) (rw e at h)))
        ]

module _ (chrono : Chrono) (revoke_params : Str → Str) where
  granted_le :
      (now ttl : ℕ) (ctx : ResponseContext) (asked : Option ℕ)
      → granted chrono revoke_params now ctx asked ≡ ok ttl
      → ttl ≤ ctx.backend_config.max_lease_ttl
  granted_le now ttl ctx asked h =
      elim (Result-cases (calculate_ttl chrono now now ctx.backend_config asked)) [
        | inl (a, e) ↦
            let same : a ≡ ttl = ground (arith, rw e at h) in
            ground (
              arith,
              calculate_ttl_value chrono now now ctx.backend_config asked ttl (e ∙ ap ok same),
            )
        | inr (x, e) ↦ absurd (ground (arith, rw e at h))
      ]

  -- what a login leaves behind
  abbrev pub IsIssued :
      Namespace
      → ResponseContext
      → Str
      → Str
      → ℕ
      → ℕ
      → AuthResponse
      → Tables
      → Answer
      → Tables
      → Type 0
  IsIssued ns ctx lease_id token now later response t answer u =
      (entity : Entity) × (ttl : ℕ) × (answer ≡ auth_answer token lease_id ttl)
      × (get_entity_from_alias
            (record { name = response.alias; mount_path = ctx.backend_mount_path }) ns.id t
          ≡ some entity)
      × (ttl ≤ ctx.backend_config.max_lease_ttl)
      × In (new_token token entity.name later ttl ns.id) u.tokens
      × In
          (new_lease lease_id ctx.backend_mount_path none (revoke_params token) none
            (revoke_params token) now ttl ns.id)
          u.leases

  issued :
      (ns : Namespace) (ctx : ResponseContext) (lease_id token : Str) (now later : ℕ)
      (response : AuthResponse) (t : Tables)
      → Yields
          (IsIssued ns ctx lease_id token now later response t)
          (register_token chrono revoke_params (some ns) ctx lease_id token now later response)
          t
  unfolding register_token
  issued ns ctx lease_id token now later response t =
      Yields-query (λ _. ok_or (some ns) internal_error) _ t
        (λ n same.
          Yields-query
            (λ t.
              ok_or
                (get_entity_from_alias
                  (record { name = response.alias; mount_path = ctx.backend_mount_path }) n.id t)
                bad_request)
            _ t
            (λ entity known.
              Yields-query (λ _. granted chrono revoke_params now ctx response.ttl) _ t
                (λ ttl given.
                  Yields-bind (Auth.create (new_token token entity.name later ttl n.id)) _ t
                    (λ a v made.
                      Yields-bind
                        (register (
                          new_lease lease_id ctx.backend_mount_path none (revoke_params token) none
                            (revoke_params token) now ttl n.id))
                        _ v
                        (λ b w put.
                          let e : ns ≡ n = ground (arith, same) in
                          Yields-pure (auth_answer token lease_id ttl) w (
                            subst
                              (λ m.
                                IsIssued m ctx lease_id token now later response t
                                  (auth_answer token lease_id ttl) w)
                              (sym e)
                              (
                                entity,
                                ttl,
                                refl,
                                ok_or-ok _ bad_request entity known,
                                granted_le now ttl ctx response.ttl given,
                                subst (λ rows. In (new_token token entity.name later ttl n.id) rows)
                                    (sym (registered-In _ v w b put).1) (created-In _ t v a made),
                                (registered-In _ v w b put).0,
                              )))))))

  -- A login that is answered is that of an entity with this alias at this mount. Its token stands
  -- in the table under that entity, the lease of the token stands in the table of leases, and the
  -- time to live that both are given is at most the mount's maximum.
  pub register_token-IsIssued :
      (ns : Namespace) (ctx : ResponseContext) (lease_id token : Str) (now later : ℕ)
      (response : AuthResponse) (t u : Tables) (answer : Answer)
      → register_token chrono revoke_params (some ns) ctx lease_id token now later response t
        ≡ (ok answer, u)
      → IsIssued ns ctx lease_id token now later response t answer u
  register_token-IsIssued ns ctx lease_id token now later response t u answer h =
      (issued ns ctx lease_id token now later response t).at answer u h
