-- ===== src/Auth/Isolation.antt =====
-- covert-server/src/layer/auth_service.rs: which namespaces a token reaches.
use covert.Prelude.{
  ℕ, ◌≡◌, sym, ap, ◌∙◌, true, false, [], ◌∷◌, ◌++◌, some, Str, length, if◌then◌else◌, ok,
  Bool-cases, inl, inr, In, starts_with, ends_with, rest_of_starts_with, ends_with-append,
  ends_with-append_other, drop_last, drop_last-append, drop_last-append_cons, append_assoc,
}
use covert.Policy.Paths.{star}
use covert.Policy.Matching.{Matches, prefix, exact}
use covert.Namespace.{get_full_path}
use covert.Server.Tables.{Tables, TokenEntry, slash}
use covert.Auth.{is_authorized, Request, request_path}
use covert.Auth.Grants.{is_authorized_sound}

with_slash :
    (path : Str)
    → (rest : Str) × ((if starts_with path (slash ∷ []) then [] else slash ∷ []) ++ path
        ≡ slash ∷ rest)
with_slash path = elim (Bool-cases (starts_with path (slash ∷ []))) [
  | inl h ↦ let (r, e) = rest_of_starts_with path (slash ∷ []) h in (r, rw h e)
  | inr h ↦ (path, rw h)
]

below_prefix :
    (p rest path : Str) → Matches (p ++ slash ∷ rest) path → (r : Str) × (path ≡ p ++ slash ∷ r)
below_prefix p rest path (exact _ e) = (rest, e)
below_prefix p [] path (prefix q r e f) =
    let h : false ≡ true =
      sym (ends_with-append_other p slash star)
      ∙ ap (λ (x : Str). ends_with x star) e
      ∙ ends_with-append q star in
    absurd (cc)
below_prefix p (c ∷ rest) path (prefix q r e f) =
    let cut : q ≡ p ++ slash ∷ drop_last (c ∷ rest) =
      sym (drop_last-append q star)
      ∙ ap drop_last (sym e)
      ∙ drop_last-append_cons p (c ∷ rest) slash in
    (
      drop_last (c ∷ rest) ++ r,
      f ∙ ap (λ (x : Str). x ++ r) cut ∙ append_assoc p (slash ∷ drop_last (c ∷ rest)) r,
    )

-- The path of an authorised request, with its namespace in front, lies below the full path of the
-- namespace that the token was issued in.
pub is_authorized-within :
    (t : Tables) (req : Request) (now : ℕ)
    → is_authorized req now t ≡ ok true
    → (token : TokenEntry) × (p : Str) × (rest : Str) × In token t.tokens
      × (req.token ≡ some token.id)
      × (get_full_path (length t.namespaces) token.namespace_id t.namespaces ≡ some p)
      × (request_path req ≡ p ++ slash ∷ rest)
is_authorized-within t req now h =
    let (id, policy, _, given, grants, allows) = is_authorized_sound t req now h in
    let (e1, e2, e3) = grants.same_namespace in
    let (rest, e) = with_slash allows.rule.path in
    let (r, below) =
      below_prefix allows.prefix rest (request_path req)
        (rw (ap (λ (x : Str). allows.prefix ++ x) e) at allows.matches) in
    (
      grants.token,
      allows.prefix,
      r,
      grants.token_row,
      given ∙ ap some (sym grants.token_id),
      ap (λ n. get_full_path (length t.namespaces) n t.namespaces) (e1 ∙ e2 ∙ e3)
          ∙ allows.prefix_path,
      below,
    )
