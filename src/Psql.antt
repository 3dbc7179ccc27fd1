-- ===== src/Psql.antt =====
-- backend/covert-psql/src: the PostgreSQL engine: the connection to a server, roles, and credentials
-- that are created, renewed and revoked on it. The server is a parameter, with its state; so are the
-- format of a time and the reading of a lease's data from its JSON text. A panic is an internal error.
pub mod Text
pub mod Connected
pub mod Revocable
use covert.Prelude.{
  ℕ, ◌+◌, Bool, true, false, List, [], ◌∷◌, ◌++◌, Option, none, some, Str, codes, any, first,
  select, split, str_eq, starts_with, if◌then◌else◌, ltb, leb, Result, ok, err, ok_or, ◌||◌, not,
  ◌==◌,
}
use covert.Prelude.Exec.{Exec, pure, raise, query, ◌>>=◌, ◌>>◌}
use covert.Ttl.{Chrono, MountConfig, calculate_ttl}
use covert.Psql.Text.{replace, byte_len, slice_to}

-- error.rs, `ErrorType`
pub data Error : Type 0 where
  storage bad_request invalid_connection_string role_not_found missing_connection : Error
  internal_error : Error

-- covert-types/src/psql.rs
pub record ConnectionConfig : Type 0 where
  pub connection_url : Str
  pub max_open_connections : ℕ

pub record RoleCredentials : Type 0 where
  pub username : Str
  pub password : Str

-- path_roles.rs, with the name that is its key in the table ROLES
pub record RoleEntry : Type 0 where
  pub sql : Str
  pub revocation_sql : Str

-- path_role_create.rs, `RoleInfo`
pub record RoleInfo : Type 0 where
  pub username : Str
  pub role : Str

-- An open pool knows the url that it was opened with.
pub record Pool (P : Type 0) : Type 0 where
  pub url : Str
  pub handle : P

-- the pool, the two tables and the server
pub record Context (P W : Type 0) : Type 0 where
  pub db : Option (Pool P)
  pub connection : Option ConnectionConfig
  pub roles : List (Str × RoleEntry)
  pub server : W

-- the server: opening a pool, a ping on one of its connections, and a transaction's start, its
-- statements and its end
pub record Postgres (P W : Type 0) : Type 0 where
  pub connect : Str → ℕ → W → Option P
  pub acquires : P → W → Bool
  pub pings : P → W → Bool
  pub begins : P → W → Bool
  pub execute : P → Str → W → Option W
  pub commits : P → W → Bool

-- the url of `pool_from_config`
abbrev pub with_timezone : Str → Str
with_timezone url =
    if starts_with url (codes "postgres://") || starts_with url (codes "postgresql://")
    then (if any (λ c. c == b'?') url
        then url ++ codes "&timezone=utc"
        else url ++ codes "?timezone=utc")
    else url ++ codes " timezone=utc"

abbrev pub is_role : Str → Str × RoleEntry → Bool
is_role name e = str_eq e.0 name

-- `RoleStore::get`
unfoldable pub get_role : Str → List (Str × RoleEntry) → Option RoleEntry
get_role name roles = elim (first (select (is_role name) roles)) [ none ↦ none | some e ↦ some e.1 ]

-- the sql of `create_psql_role`
abbrev pub role_sql : RoleEntry → Str → Str → Str → Str
role_sql role username password expiration =
    replace (codes "{{expiration}}") expiration
      (replace (codes "{{password}}") password (replace (codes "{{name}}") username role.sql))

module _ {P W : Type 0} where
  -- `RoleStore::create`
  unfoldable pub create_role : Str → RoleEntry → Exec (Context P W) Error Bool
  create_role name role s =
      if any (is_role name) s.roles
      then (err storage, s)
      else (ok true, record s { roles = (name, role) ∷ s.roles })

  -- `ConnectionStore::set` and `ConnectionStore::remove`
  unfoldable pub set_connection : ConnectionConfig → Exec (Context P W) Error (Unit {0})
  set_connection config s = (ok tt, record s { connection = some config })

  unfoldable pub remove_connection : Exec (Context P W) Error (Unit {0})
  remove_connection s = (ok tt, record s { connection = none })

  -- `reset_db`
  unfoldable pub reset_db : Exec (Context P W) Error (Unit {0})
  reset_db s = (ok tt, record s { db = none })

  -- `pool`
  abbrev pub pool_by : Option (Pool P) → Option ConnectionConfig → Exec (Context P W) Error (Pool P)
  pool_by (some p) connection = pure p
  pool_by none (some c) = reset_db >> remove_connection >> raise missing_connection
  pool_by none none = raise missing_connection

  unfoldable pub pool : Exec (Context P W) Error (Pool P)
  unfolding ◌>>=◌
  pool s = pool_by s.db s.connection s

  -- `path_connection_read`
  unfoldable pub path_connection_read : Context P W → Option ConnectionConfig
  path_connection_read s = s.connection

  -- `path_role_create`
  unfoldable pub path_role_create : Str → RoleEntry → Exec (Context P W) Error RoleEntry
  unfolding ◌>>=◌
  path_role_create name role = create_role name role >> pure role

module _ {P W : Type 0} (postgres : Postgres P W) where
  open postgres use {connect, acquires, pings, begins, execute, commits}

  -- `pool_from_config`
  unfoldable pub pool_from_config : ConnectionConfig → W → Result Error (Pool P)
  pool_from_config config w =
      elim (connect (with_timezone config.connection_url) config.max_open_connections w) [
        | none ↦ err invalid_connection_string
        | some p ↦ ok (record { url = config.connection_url; handle = p })
      ]

  -- `set_pool`
  unfoldable pub set_pool : Exec (Context P W) Error (Unit {0})
  unfolding ◌>>=◌
  set_pool = do
    done ← reset_db
    config ← query (λ s. ok_or s.connection missing_connection)
    p ← query (λ s. pool_from_config config s.server)
    λ s. (ok tt, record s { db = some p })

  -- what `new_psql_backend` does to the context, whether the pool can be opened or not
  unfoldable pub recovered : Context P W → Context P W
  unfolding set_pool
  recovered s = (set_pool s).1

  abbrev pub verified : ConnectionConfig → W → Result Error (Unit {0})
  verified config w = elim (pool_from_config config w) [
    | err e ↦ err e
    | ok p ↦
        if not (acquires p.handle w)
        then err storage
        else if pings p.handle w
        then ok tt
        else err invalid_connection_string
  ]

  -- `path_connection_write`
  unfoldable pub path_connection_write :
      Str → Option ℕ → Bool → Exec (Context P W) Error ConnectionConfig
  unfolding ◌>>=◌
  path_connection_write url max_open_connections verify_connection =
      let config : ConnectionConfig = record {
        connection_url = url;
        max_open_connections = elim max_open_connections [ none ↦ 2 | some n ↦ n ];
      } in
      do
        checked ← query (λ s. if verify_connection then verified config s.server else ok tt)
        stored ← set_connection config
        opened ← set_pool
        pure config

  -- the statements of a transaction
  abbrev pub execute_all : P → List Str → W → Option W
  execute_all p [] w = some w
  execute_all p (q ∷ qs) w = elim (execute p q w) [ none ↦ none | some v ↦ execute_all p qs v ]

  -- a transaction of the statements between the semicolons, which is dropped where one fails
  unfoldable pub transaction : Pool P → Str → Exec (Context P W) Error (Unit {0})
  transaction p sql s =
      if begins p.handle s.server
      then elim (execute_all p.handle (split b';' sql) s.server) [
        | none ↦ (err storage, s)
        | some w ↦ if commits p.handle w then (ok tt, record s { server = w }) else (err storage, s)
      ]
      else (err storage, s)

  -- a statement outside of a transaction
  unfoldable pub execute_one : Pool P → Str → Exec (Context P W) Error (Unit {0})
  execute_one p sql s = elim (execute p.handle sql s.server) [
    | none ↦ (err storage, s)
    | some w ↦ (ok tt, record s { server = w })
  ]

  -- `secret_creds_revoke`
  unfoldable pub secret_creds_revoke : RoleInfo → Exec (Context P W) Error (Unit {0})
  unfolding ◌>>=◌
  secret_creds_revoke body = do
    role ← query (λ s. ok_or (get_role body.role s.roles) role_not_found)
    p ← pool
    transaction p (replace (codes "{{name}}") body.username role.revocation_sql)

-- the user's name: 63 bytes are meant, and 64 are kept
abbrev pub username_of : Str → Str → Result Error Str
username_of name suffix =
    let username = name ++ codes "-" ++ suffix in
    if ltb 63 (byte_len username) then ok_or (slice_to 64 username) internal_error else ok username

-- the lease's answer, whose data of renewal and revocation are the same
pub record CredsLease : Type 0 where
  pub role_info : RoleInfo
  pub creds : RoleCredentials
  pub ttl : ℕ

module _ {P W : Type 0} (chrono : Chrono) (format : ℕ → Str) (postgres : Postgres P W) where
  -- `generate_role_credentials`; suffix, password and the reading of the clock are drawn
  unfoldable pub generate_role_credentials :
      MountConfig → Option ℕ → Str → Str → Str → ℕ → Exec (Context P W) Error CredsLease
  unfolding ◌>>=◌
  generate_role_credentials config asked name suffix password now = do
    role ← query (λ s. ok_or (get_role name s.roles) role_not_found)
    username ← query (λ _. username_of name suffix)
    ttl ← query (λ _. elim (calculate_ttl chrono now now config asked) [
      | ok t ↦ ok t
      | err e ↦ err internal_error
    ])
    p ← pool
    made ← transaction postgres p (role_sql role username password (format (now + ttl)))
    pure (record {
      role_info = record { username = username; role = name };
      creds = record { username = username; password = password };
      ttl = ttl;
    })

  -- `secret_creds_renew`
  unfoldable pub secret_creds_renew :
      (Str → Option RoleInfo) → ℕ → ℕ → Str → Exec (Context P W) Error ℕ
  unfolding ◌>>=◌
  secret_creds_renew from_str now body_ttl body_data = do
    info ← query (λ _. ok_or (from_str body_data) bad_request)
    role ← query (λ s. ok_or (get_role info.role s.roles) role_not_found)
    ttl ← query (λ _. ok_or (chrono.from_std body_ttl) internal_error)
    p ← pool
    altered ← execute_one postgres p (
        codes "ALTER ROLE \""
        ++ (info.username ++ (codes "\" VALID UNTIL '" ++ (format (now + ttl) ++ codes "'"))))
    pure body_ttl
