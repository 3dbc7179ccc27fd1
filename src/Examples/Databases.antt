-- ===== src/Examples/Databases.antt =====
-- The PostgreSQL engine, at concrete inputs. The server is the list of the statements that it was
-- given.
use covert.Prelude.{ℕ, ◌≡◌, refl, true, List, [], ◌∷◌, none, some, Str, codes, ok, arith}
use covert.Prelude.Exec.{◌>>=◌}
use covert.Ttl.{calculate_ttl}
use covert.Psql.{
  Context, Pool, Postgres, RoleEntry, ConnectionConfig, CredsLease, get_role, pool, transaction,
  generate_role_credentials,
}
use covert.Psql.Connected.{IsConnected, Call, writes, generates, after_all, after_calls-IsConnected}
use covert.Psql.Revocable.{IsRevocable, generate_role_credentials-IsRevocable}
use covert.Examples.{config}
use covert.Examples.Leases.{all_fit}

abbrev records : Postgres (Unit {0}) (List Str)
records = record {
  connect = λ url n w. some tt;
  acquires = λ p w. true;
  pings = λ p w. true;
  begins = λ p w. true;
  execute = λ p sql w. some (sql ∷ w);
  commits = λ p w. true;
}

abbrev shown : ℕ → Str
shown t = codes "soon"

abbrev reader : RoleEntry
reader = record {
  sql = codes "CREATE {{name}} {{password}} {{expiration}}";
  revocation_sql = codes "DROP {{name}}";
}

abbrev open_pool : Pool (Unit {0})
open_pool = record { url = codes "postgres://db"; handle = tt }

abbrev stored : ConnectionConfig
stored = record { connection_url = codes "postgres://db"; max_open_connections = 2 }

abbrev context : Context (Unit {0}) (List Str)
context = record {
  db = some open_pool;
  connection = some stored;
  roles = (codes "reader", reader) ∷ [];
  server = [];
}

abbrev closed : Context (Unit {0}) (List Str)
closed = record context { db = none; connection = none }

abbrev calls : List (Call records all_fit shown (λ s. none))
calls =
    writes (codes "postgres://db") none true
    ∷ generates config none (codes "reader") (codes "x") (codes "pw") 5
    ∷ []

closed-IsConnected : IsConnected records closed
closed-IsConnected = record { stored = λ p e. absurd (ground (arith, e)) }

after_calls-IsConnected_example :
    IsConnected records (after_all records all_fit shown (λ s. none) calls closed)
after_calls-IsConnected_example =
    after_calls-IsConnected records all_fit shown (λ s. none) calls closed closed-IsConnected

abbrev granted : CredsLease
granted = record {
  role_info = record { username = codes "reader-x"; role = codes "reader" };
  creds = record { username = codes "reader-x"; password = codes "pw" };
  ttl = 30;
}

abbrev used : Context (Unit {0}) (List Str)
used = record context { server = codes "CREATE reader-x pw soon" ∷ [] }

is_granted :
    generate_role_credentials all_fit shown records config none
      (codes "reader")
      (codes "x")
      (codes "pw")
      5
      context
    ≡ (ok granted, used)
unfolding generate_role_credentials get_role calculate_ttl pool transaction ◌>>=◌
is_granted = refl

generate_role_credentials-IsRevocable_example :
    IsRevocable all_fit shown records (codes "reader") (codes "pw") 5 context used granted
generate_role_credentials-IsRevocable_example =
    generate_role_credentials-IsRevocable all_fit shown records config none (codes "reader")
      (codes "x") (codes "pw") 5 context used granted is_granted
