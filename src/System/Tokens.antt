-- ===== src/System/Tokens.antt =====
-- covert-server/src/system/token.rs: revoking and renewing a token, which the expiration manager asks
-- for. The token of a revocation is in the JSON body of the request, and that of a renewal in the JSON
-- text of its data: `token_of` reads it.
pub mod Revoked
use covert.Prelude.{ℕ, ◌+◌, Option, none, some, Str, ok_or, ok}
use covert.Prelude.Exec.{Exec, pure, query, ◌>>=◌}
use covert.Ttl.{Chrono}
use covert.Auth
use covert.Server.Tables.{Tables, Namespace, Error, internal_error}

-- `handle_token_revocation`; whether there was such a token is not looked at
unfoldable pub handle_token_revocation : Str → Namespace → Exec Tables Error (Unit {0})
unfolding ◌>>=◌
handle_token_revocation token ns = do removed ← Auth.remove token ns.id; pure tt

-- `handle_token_renewal`
module _ (chrono : Chrono) (token_of : Str → Option Str) where
  unfoldable pub handle_token_renewal : ℕ → ℕ → Str → Namespace → Exec Tables Error ℕ
  unfolding ◌>>=◌
  handle_token_renewal now body_ttl body_data ns = do
    token ← query (λ _. ok_or (token_of body_data) internal_error)
    ttl ← query (λ _. ok_or (chrono.from_std body_ttl) internal_error)
    renewed ← Auth.renew token ns.id (now + ttl)
    pure body_ttl
