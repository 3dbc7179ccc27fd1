-- ===== src/Auth.antt =====
-- covert-server/src/repos/token.rs and layer/auth_service.rs: tokens, and what they authorise.
pub mod Grants
pub mod Isolation
use covert.Prelude.{
  ℕ, ◌&&◌, ◌||◌, Bool, true, false, List, [], ◌∷◌, ◌++◌, map, Option, none, some, Str, codes,
  length, any, first, select, delete, update, count, flat_map, join, str_eq, starts_with,
  if◌then◌else◌, ltb, Result, ok, err, ◌==◌, ◌>>=◌,
}
use covert.Prelude.Exec.{Exec}
use covert.Policy.{Policy}
use covert.Policy
use covert.Policy.Paths.{Operation, PathPolicy}
use covert.Namespace.{get_full_path}
use covert.Server.Tables.{
  Tables, Entity, EntityPolicyRow, TokenEntry, Error, bad_request, internal_error,
  foreign_key_violation, slash,
}

-- T.expires_at IS NULL OR T.expires_at > now
abbrev pub is_alive : ℕ → TokenEntry → Bool
is_alive now token = elim token.expires_at [ none ↦ true | some t ↦ ltb now t ]

-- `TokenRepo::lookup_policies`: the joins, from the token to the policies of its entity
unfoldable pub lookup_policies : Str → ℕ → Tables → List Policy
lookup_policies id now t =
    flat_map
      (λ token.
        flat_map
          (λ entity.
            flat_map
              (λ link.
                select
                  (λ p. str_eq link.policy_name p.name && str_eq link.namespace_id p.namespace_id)
                  t.policies)
              (select
                (λ link.
                  str_eq entity.name link.entity_name
                  && str_eq entity.namespace_id link.namespace_id)
                t.entity_policies))
          (select
            (λ entity.
              str_eq token.entity_name entity.name && str_eq token.namespace_id entity.namespace_id)
            t.entities))
      (select (λ token. str_eq token.id id && is_alive now token) t.tokens)

-- `TokenRepo::create`, with the foreign key on the entity
unfoldable pub create : TokenEntry → Exec Tables Error (Unit {0})
create te t =
    if any (λ e. str_eq te.entity_name e.name && str_eq te.namespace_id e.namespace_id) t.entities
    then (ok tt, record t { tokens = te ∷ t.tokens })
    else (err foreign_key_violation, t)

abbrev pub is_token : Str → Str → TokenEntry → Bool
is_token id namespace_id token = str_eq token.id id && str_eq token.namespace_id namespace_id

-- `TokenRepo::remove`
unfoldable pub remove : Str → Str → Exec Tables Error Bool
remove id namespace_id t = (
  ok (count (is_token id namespace_id) t.tokens == 1),
  record t { tokens = delete (is_token id namespace_id) t.tokens },
)

-- `TokenRepo::renew`
unfoldable pub renew : Str → Str → ℕ → Exec Tables Error Bool
renew id namespace_id expires_at t = (
  ok (count (is_token id namespace_id) t.tokens == 1),
  record t {
    tokens =
        update (is_token id namespace_id) (λ token. record token { expires_at = some expires_at })
          t.tokens;
  },
)

-- covert-types/src/state.rs
pub data StorageState : Type 0 where
  uninitialized sealed unsealed : StorageState

abbrev pub is_unsealed : Option StorageState → Bool
is_unsealed (some unsealed) = true
is_unsealed _ = false

-- covert-types/src/request.rs, the fields of `Request` that the layers read; `storage_state` is the
-- extension of that type
pub record Request : Type 0 where
  pub operation : Operation
  pub path : Str
  pub namespace : List Str
  pub token : Option Str
  pub storage_state : Option StorageState

-- covert-types/src/token.rs, `Token::from_str`
unfoldable pub token_from_str : Str → Result Error Str
token_from_str s = if starts_with s (codes "s") then ok s else err bad_request

-- the path of a rule under the namespace that its policy was created in
abbrev pub attach_prefix : Str → PathPolicy → PathPolicy
attach_prefix prefix p = record p {
  path = prefix ++ ((if starts_with p.path (slash ∷ []) then [] else slash ∷ []) ++ p.path);
}

abbrev pub policy_allows : Str → Str → Str → Operation → Policy → Bool
policy_allows namespace_id prefix path operation policy =
    if str_eq policy.namespace_id namespace_id
    then Policy.is_authorized (record policy { paths = map (attach_prefix prefix) policy.paths })
        path (operation ∷ [])
    else false

abbrev pub request_path : Request → Str
request_path req = join slash req.namespace ++ slash ∷ req.path

-- the full path of a namespace; the rows bound the climb, which ends in a forest of that size
abbrev pub full_path : Str → Tables → Result Error Str
full_path id t = elim (get_full_path (length t.namespaces) id t.namespaces) [
  | none ↦ err internal_error
  | some path ↦ ok path
]

abbrev pub check_policies : Request → Tables → List Policy → Result Error Bool
check_policies req t [] = ok false
check_policies req t (p ∷ policies) = do
  prefix ← full_path p.namespace_id t
  ok (any (policy_allows p.namespace_id prefix (request_path req) req.operation) (p ∷ policies))

abbrev pub check_token : Request → ℕ → Tables → Option Str → Result Error Bool
check_token req now t none = ok false
check_token req now t (some s) = do
  token ← token_from_str s
  check_policies req t (lookup_policies token now t)

-- `is_authorized`
unfoldable pub is_authorized : Request → ℕ → Tables → Result Error Bool
is_authorized req now t =
    if is_unsealed req.storage_state then check_token req now t req.token else ok false
