-- ===== src/Psql/Revocable.antt =====
-- backend/covert-psql/src: credentials, and what their lease holds to revoke them.
use covert.Prelude.{
  ℕ, ◌+◌, ◌≡◌, sym, ap, ◌∙◌, Option, none, some, none, Str, codes, ok, err, ok_or, ok_or-ok, split,
  arith, inl, inr, Bool-cases, Option-cases,
}
use covert.Prelude.Exec.{Yields, Yields-query, Yields-bind, Yields-pure, bind-ok, ◌>>=◌}
use covert.Ttl.{Chrono, MountConfig, calculate_ttl}
use covert.Psql.{
  ConnectionConfig, RoleEntry, Pool, Context, Postgres, CredsLease, get_role, pool, pool_by,
  execute_all, transaction, role_sql, username_of, secret_creds_revoke, generate_role_credentials,
  role_not_found, internal_error, reset_db, remove_connection,
}
use covert.Psql.Text.{replace}

module _ {P W : Type 0} (postgres : Postgres P W) where
  -- What a transaction that ends well has done.
  transaction-done :
      (p : Pool P) (sql : Str) (s u : Context P W) (a : Unit {0})
      → transaction postgres p sql s ≡ (ok a, u)
      → (execute_all postgres p.handle (split b';' sql) s.server ≡ some u.server)
        × (u.db ≡ s.db)
        × (u.roles ≡ s.roles)
  unfolding transaction
  transaction-done p sql s u a h = elim (Bool-cases (postgres.begins p.handle s.server)) [
    | inr e ↦ absurd (ground (arith, ap (λ r. r.0) (rw (e, transaction) at h)))
    | inl e ↦ elim (Option-cases (execute_all postgres p.handle (split b';' sql) s.server)) [
      | inl f ↦ absurd (ground (arith, ap (λ r. r.0) (rw (e, f, transaction) at h)))
      | inr (w, f) ↦ elim (Bool-cases (postgres.commits p.handle w)) [
        | inr g ↦ absurd (ground (arith, ap (λ r. r.0) (rw (e, f, g, transaction) at h)))
        | inl g ↦
            let same = ap (λ r. r.1) (rw (e, f, g, transaction) at h) in
            (
              f ∙ ap (λ (c : Context P W). some c.server) same,
              ap (λ c. c.db) (sym same),
              ap (λ c. c.roles) (sym same),
            )
      ]
    ]
  ]

open-pool : {P W : Type 0} (u : Context P W) (p : Pool P) → u.db ≡ some p → pool u ≡ (ok p, u)
unfolding pool ◌>>=◌
open-pool u p h = ap (λ d. pool_by d u.connection u) h

pool_by-open :
    {P W : Type 0} (d : Option (Pool P)) (c : Option ConnectionConfig) (s u : Context P W)
    (p : Pool P)
    → pool_by d c s ≡ (ok p, u)
    → (d ≡ some p) × (u ≡ s)
unfolding reset_db remove_connection ◌>>=◌
pool_by-open (some q) c s u p h = (ap some (ground (arith, ap (λ r. r.0) h)), sym (ap (λ r. r.1) h))
pool_by-open none (some c) s u p h = absurd (ground (arith, ap (λ r. r.0) h))
pool_by-open none none s u p h = absurd (ground (arith, ap (λ r. r.0) h))

pool-open :
    {P W : Type 0} (s u : Context P W) (p : Pool P) → pool s ≡ (ok p, u) → (s.db ≡ some p) × (u ≡ s)
unfolding pool
pool-open s u p h = pool_by-open s.db s.connection s u p h

module _ {P W : Type 0} (chrono : Chrono) (format : ℕ → Str) (postgres : Postgres P W) where
  -- The statements of the role were executed for the user of the lease, and revoking the lease's data
  -- executes those of its revocation for the same user.
  pub record IsRevocable (name password : Str) (now : ℕ) (s u : Context P W) (lease : CredsLease)
      : Type 0 where
    pub role : RoleEntry
    pub opened : Pool P
    pub known : get_role name s.roles ≡ some role
    pub open_before : s.db ≡ some opened
    pub made :
        execute_all postgres opened.handle
          (split b';' (role_sql role lease.creds.username password (format (now + lease.ttl))))
          s.server
        ≡ some u.server
    pub revokes :
        secret_creds_revoke postgres lease.role_info u
        ≡ transaction postgres opened
            (replace (codes "{{name}}") lease.creds.username role.revocation_sql)
            u

  revoke-transaction :
      (username name : Str) (role : RoleEntry) (p : Pool P) (u : Context P W)
      → get_role name u.roles ≡ some role
      → u.db ≡ some p
      → secret_creds_revoke postgres (record { username = username; role = name }) u
        ≡ transaction postgres p (replace (codes "{{name}}") username role.revocation_sql) u
  unfolding secret_creds_revoke ◌>>=◌
  revoke-transaction username name role p u h k = rw h (
      bind-ok pool
        (λ p. transaction postgres p (replace (codes "{{name}}") username role.revocation_sql)) u u
        p (open-pool u p k))

  generating :
      (config : MountConfig) (asked : Option ℕ) (name suffix password : Str) (now : ℕ)
      (s : Context P W)
      → Yields
          (λ lease u. IsRevocable name password now s u lease)
          (generate_role_credentials chrono format postgres config asked name suffix password now)
          s
  unfolding generate_role_credentials
  generating config asked name suffix password now s =
      Yields-query (λ s. ok_or (get_role name s.roles) role_not_found) _ s
        (λ role known.
          Yields-query (λ _. username_of name suffix) _ s
            (λ username _.
              Yields-query
                (λ _. elim (calculate_ttl chrono now now config asked) [
                  | ok t ↦ ok t
                  | err e ↦ err internal_error
                ])
                _ s
                (λ ttl _. Yields-bind pool _ s (λ p v e1.
                  Yields-bind
                    (transaction postgres p (role_sql role username password (format (now + ttl))))
                    _ v
                    (λ a u e2.
                      let found = ok_or-ok (get_role name s.roles) role_not_found role known in
                      let (is_open, same) = pool-open s v p e1 in
                      let (done, db, roles) =
                        transaction-done postgres p
                          (role_sql role username password (format (now + ttl))) v u a e2 in
                      Yields-pure
                        (record {
                          role_info = record { username = username; role = name };
                          creds = record { username = username; password = password };
                          ttl = ttl;
                        })
                        u
                        (record {
                          role = role;
                          opened = p;
                          known = found;
                          open_before = is_open;
                          made =
                              ap
                                (λ (c : Context P W).
                                  execute_all postgres p.handle
                                    (split b';'
                                      (role_sql role username password (format (now + ttl))))
                                    c.server)
                                (sym same)
                              ∙ done;
                          revokes =
                              revoke-transaction username name role p u
                                (ap (get_role name) (roles ∙ ap (λ c. c.roles) same) ∙ found)
                                (db ∙ ap (λ c. c.db) same ∙ is_open);
                        }))))))

  -- Credentials that are granted were made by the statements of their role, executed on the open
  -- pool for the user of the lease; revoking what the lease holds runs the statements of the
  -- role's revocation for the same user.
  pub generate_role_credentials-IsRevocable :
      (config : MountConfig) (asked : Option ℕ) (name suffix password : Str) (now : ℕ)
      (s u : Context P W) (lease : CredsLease)
      → generate_role_credentials chrono format postgres config asked name suffix password now s
        ≡ (ok lease, u)
      → IsRevocable name password now s u lease
  generate_role_credentials-IsRevocable config asked name suffix password now s u lease h =
      (generating config asked name suffix password now s).at lease u h
