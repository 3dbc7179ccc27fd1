-- ===== src/Psql/Connected.antt =====
-- backend/covert-psql/src/lib.rs: the pool and the stored configuration, over any requests.
use covert.Prelude.{
  ℕ, ◌≡◌, refl, ap, ◌∙◌, Bool, List, [], ◌∷◌, Option, none, some, Str, ok, split, arith, inl, inr,
  Bool-cases, Option-cases, Result-cases, any, if◌then◌else◌,
}
use covert.Prelude.Exec.{Keeps, keeps_rules, Keeps-pure, Keeps-raise, pure, ◌>>=◌}
use covert.Ttl.{Chrono, MountConfig}
use covert.Psql.{
  ConnectionConfig, RoleEntry, RoleInfo, Pool, Context, Postgres, create_role, set_connection,
  remove_connection, reset_db, pool, pool_by, path_role_create, pool_from_config, set_pool,
  verified, path_connection_write, transaction, secret_creds_revoke, generate_role_credentials,
  secret_creds_renew, missing_connection, execute_all, execute_one, is_role,
}

module _ {P W : Type 0} (postgres : Postgres P W) where
  -- An open pool was opened with the configuration that is stored.
  pub record IsConnected (s : Context P W) : Type 0 where
    pub stored :
        (p : Pool P)
        → s.db ≡ some p
        → (c : ConnectionConfig) × (w : W) × (s.connection ≡ some c)
          × (pool_from_config postgres c w ≡ ok p)

  closed-IsConnected : (s : Context P W) → s.db ≡ none → IsConnected s
  closed-IsConnected s h = record { stored = λ p e. absurd (ground (arith, h, e)) }

  Keeps-pool_by :
      (d : Option (Pool P)) (c : Option ConnectionConfig) → Keeps IsConnected (pool_by d c)
  unfolding reset_db remove_connection ◌>>=◌
  Keeps-pool_by (some p) c = Keeps-pure p
  Keeps-pool_by none (some c) = record {
    at = λ s h. closed-IsConnected (record s { db = none; connection = none }) refl;
  }
  Keeps-pool_by none none = Keeps-raise missing_connection

  Keeps-pool : Keeps IsConnected (pool {P = P} {W = W})
  unfolding pool
  Keeps-pool = record { at = λ s h. (Keeps-pool_by s.db s.connection).at s h }

  set_pool-IsConnected : (s : Context P W) → IsConnected (set_pool postgres s).1
  unfolding set_pool reset_db ◌>>=◌
  set_pool-IsConnected s = elim (Option-cases s.connection) [
    | inl e ↦ rw e (closed-IsConnected (record s { db = none; connection = none }) refl)
    | inr (c, e) ↦ elim (Result-cases (pool_from_config postgres c s.server)) [
      | inr (x, f) ↦
          rw (e, f) (closed-IsConnected (record s { db = none; connection = some c }) refl)
      | inl (p, f) ↦
          rw (e, f) (record { stored = λ q g. (c, s.server, refl, f ∙ ap ok (ground (arith, g))) })
    ]
  ]

  opened :
      (config : ConnectionConfig) (s : Context P W)
      → IsConnected ((set_pool postgres >>= λ _. pure config) s).1
  unfolding ◌>>=◌
  opened config s = elim (Result-cases (set_pool postgres s).0) [
    | inl (a, e) ↦ rw e (set_pool-IsConnected s)
    | inr (x, e) ↦ rw e (set_pool-IsConnected s)
  ]

  Keeps-write :
      (url : Str) (n : Option ℕ) (verify : Bool)
      → Keeps IsConnected (path_connection_write postgres url n verify)
  unfolding path_connection_write set_connection ◌>>=◌
  Keeps-write url n verify = record {
    at = λ s h.
        let config : ConnectionConfig = record {
          connection_url = url;
          max_open_connections = elim n [ none ↦ 2 | some m ↦ m ];
        } in
        elim (Result-cases (if verify then verified postgres config s.server else ok tt)) [
          | inr (x, e) ↦ rw e h
          | inl (a, e) ↦ rw e (opened config (record s { connection = some config }))
        ];
  }

  Keeps-transaction : (p : Pool P) (sql : Str) → Keeps IsConnected (transaction postgres p sql)
  unfolding transaction
  Keeps-transaction p sql = record {
    at = λ s h. elim (Bool-cases (postgres.begins p.handle s.server)) [
      | inr e ↦ rw e h
      | inl e ↦ elim (Option-cases (execute_all postgres p.handle (split b';' sql) s.server)) [
        | inl f ↦ rw (e, f) h
        | inr (w, f) ↦ elim (Bool-cases (postgres.commits p.handle w)) [
          | inr g ↦ rw (e, f, g) h
          | inl g ↦ rw (e, f, g) (record { stored = h.stored })
        ]
      ]
    ];
  }

  Keeps-create : (name : Str) (role : RoleEntry) → Keeps IsConnected (create_role name role)
  unfolding create_role
  Keeps-create name role = record {
    at = λ s h. elim (Bool-cases (any (is_role name) s.roles)) [
      | inl e ↦ rw e h
      | inr e ↦ rw e (record { stored = h.stored })
    ];
  }

  Keeps-execute : (p : Pool P) (sql : Str) → Keeps IsConnected (execute_one postgres p sql)
  unfolding execute_one
  Keeps-execute p sql = record {
    at = λ s h. elim (Option-cases (postgres.execute p.handle sql s.server)) [
      | inl e ↦ rw (e, execute_one) h
      | inr (w, e) ↦ rw (e, execute_one) (record { stored = h.stored })
    ];
  }

  ruleset psql_rules = (keeps_rules, Keeps-pool, Keeps-transaction, Keeps-create, Keeps-execute)

  Keeps-role : (name : Str) (role : RoleEntry) → Keeps IsConnected (path_role_create name role)
  unfolding path_role_create
  Keeps-role name role = search psql_rules depth 8

  Keeps-revoke : (info : RoleInfo) → Keeps IsConnected (secret_creds_revoke postgres info)
  unfolding secret_creds_revoke
  Keeps-revoke info = search psql_rules depth 10

  module _ (chrono : Chrono) (format : ℕ → Str) (from_str : Str → Option RoleInfo) where
    Keeps-generate :
        (config : MountConfig) (asked : Option ℕ) (name suffix password : Str) (now : ℕ)
        → Keeps IsConnected
            (generate_role_credentials chrono format postgres config asked name suffix password now)
    unfolding generate_role_credentials
    Keeps-generate config asked name suffix password now = search psql_rules depth 14

    Keeps-renew :
        (now ttl : ℕ) (data_text : Str)
        → Keeps IsConnected (secret_creds_renew chrono format postgres from_str now ttl data_text)
    unfolding secret_creds_renew
    Keeps-renew now ttl data_text = search psql_rules depth 14

    -- the requests
    pub data Call : Type 0 where
      writes : (url : Str) (max_open_connections : Option ℕ) (verify_connection : Bool) → Call
      makes : (name : Str) (role : RoleEntry) → Call
      generates :
          (config : MountConfig) (asked : Option ℕ) (name suffix password : Str) (now : ℕ) → Call
      revokes : (info : RoleInfo) → Call
      renews : (now ttl : ℕ) (data_text : Str) → Call

    abbrev pub after : Call → Context P W → Context P W
    after (writes url n verify) s = (path_connection_write postgres url n verify s).1
    after (makes name role) s = (path_role_create name role s).1
    after (generates config asked name suffix password now) s =
        (generate_role_credentials chrono format postgres config asked name suffix password now s).1
    after (revokes info) s = (secret_creds_revoke postgres info s).1
    after (renews now ttl data_text) s =
        (secret_creds_renew chrono format postgres from_str now ttl data_text s).1

    abbrev pub after_all : List Call → Context P W → Context P W
    after_all [] s = s
    after_all (c ∷ cs) s = after_all cs (after c s)

    after-IsConnected : (c : Call) (s : Context P W) → IsConnected s → IsConnected (after c s)
    after-IsConnected (writes url n verify) s h = (Keeps-write url n verify).at s h
    after-IsConnected (makes name role) s h = (Keeps-role name role).at s h
    after-IsConnected (generates config asked name suffix password now) s h =
        (Keeps-generate config asked name suffix password now).at s h
    after-IsConnected (revokes info) s h = (Keeps-revoke info).at s h
    after-IsConnected (renews now ttl data_text) s h = (Keeps-renew now ttl data_text).at s h

    -- Over any sequence of requests, failing or not, an open pool remains one that was opened with
    -- the configuration that is stored.
    pub after_calls-IsConnected :
        (cs : List Call) (s : Context P W) → IsConnected s → IsConnected (after_all cs s)
    after_calls-IsConnected [] s h = h
    after_calls-IsConnected (c ∷ cs) s h =
        after_calls-IsConnected cs (after c s) (after-IsConnected c s h)
