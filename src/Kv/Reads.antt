-- ===== src/Kv/Reads.antt =====
-- backend/covert-kv/src: what a read shows after other requests.
use covert.Prelude.{ℕ, ◌≡◌, false, Str, Option, some, arith, ok, inl, inr, Option-cases}
use covert.Prelude.Exec.{◌>>=◌}
use covert.Kv.Data.{Secret, Db, Crates}
use covert.Kv.Secrets.{get}
use covert.Kv.Handlers.{read_secret, ReadSecretResponse}

-- A read shows content only of a row of the table that is neither deleted nor destroyed.
pub read_secret-live :
    (crates : Crates) (key : Str) (version : Option ℕ) (db : Db) (r : ReadSecretResponse crates)
    (j : crates.Json)
    → (read_secret crates key version db).0 ≡ ok r
    → r.content ≡ some j
    → (s : Secret) × (get key r.metadata.version db ≡ some s)
      × (s.deleted ≡ false)
      × (s.destroyed ≡ false)
unfolding read_secret ◌>>=◌
read_secret-live crates key version db r j h k =
    elim (Option-cases (get key r.metadata.version db)) [
      | inl e ↦ absurd (ground arith)
      | inr (s, e) ↦ (s, e, ground arith, ground arith)
    ]
