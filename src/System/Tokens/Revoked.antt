-- ===== src/System/Tokens/Revoked.antt =====
-- covert-server/src/system/token.rs and layer/auth_service.rs: what a revoked token authorises.
use covert.Prelude.{
  ℕ, ◌≡◌, ◌≢◌, ap, ◌∙◌, true, some, Str, str_eq, str_eq_refl, ok, arith, In, delete-In,
}
use covert.Prelude.Exec.{◌>>=◌}
use covert.Auth
use covert.Auth.{Request, is_authorized, is_token}
use covert.Auth.Grants.{is_authorized_sound}
use covert.Server.Tables.{Tables, Namespace, TokenEntry}
use covert.System.Tokens.{handle_token_revocation}

-- The token of this text, if it is in the table, is one of the namespace.
abbrev pub IsIssuedIn : Str → Str → Tables → Type 0
IsIssuedIn id namespace_id t =
    (k : TokenEntry) → In k t.tokens → k.id ≡ id → k.namespace_id ≡ namespace_id

-- Once a token has been revoked in the only namespace that it was issued in, no request with it is
-- authorised.
pub handle_token_revocation-unauthorized :
    (token : Str) (ns : Namespace) (t : Tables) (req : Request) (now : ℕ)
    → IsIssuedIn token ns.id t
    → req.token ≡ some token
    → is_authorized req now (handle_token_revocation token ns t).1 ≢ ok true
unfolding handle_token_revocation Auth.remove ◌>>=◌
handle_token_revocation-unauthorized token ns t req now issued has h =
    let (id, p, _, known, g, _) =
      is_authorized_sound (handle_token_revocation token ns t).1 req now h in
    let named : g.token.id ≡ token = g.token_id ∙ ground (arith, known, has) in
    let (i, other) = delete-In (is_token token ns.id) t.tokens g.token g.token_row in
    let placed : g.token.namespace_id ≡ ns.id = issued g.token i named in
    let same : is_token token ns.id g.token ≡ true = ground (
      arith,
      ap (λ s. str_eq s token) named ∙ str_eq_refl token,
      ap (λ s. str_eq s ns.id) placed ∙ str_eq_refl ns.id,
    ) in
    absurd (ground (arith, same, other))
