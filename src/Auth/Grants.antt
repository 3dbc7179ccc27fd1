-- ===== src/Auth/Grants.antt =====
-- covert-server/src/layer/auth_service.rs: what an authorised request has.
use covert.Prelude.{
  ◌<◌, ◌⊎◌, none, ℕ, ◌≡◌, refl, ap, ◌∙◌, true, ◌&&◌, List, [], ◌∷◌, map, some, Str, length, any,
  select, arith, ok, inl, inr, Option-cases, str_eq, eq_of_str_eq, In, here, there, flat_map-In,
  any-In, select-In,
}
use covert.Policy.{Policy}
use covert.Policy
use covert.Policy.Paths
use covert.Policy.Paths.{PathPolicy}
use covert.Policy.Matching.{Matches, path_is_authorized_iff}
use covert.Namespace.{get_full_path}
use covert.Server.Tables.{Tables, Entity, EntityPolicyRow, TokenEntry}
use covert.Auth.{
  lookup_policies, is_alive, is_authorized, Request, request_path, attach_prefix, policy_allows,
  check_policies, token_from_str, is_unsealed,
}

-- a token that never expires, or has not yet
abbrev pub IsLive : ℕ → TokenEntry → Type 0
IsLive now token = (token.expires_at ≡ none) ⊎ ((e : ℕ) × (token.expires_at ≡ some e) × (now < e))

is_alive-IsLive : (now : ℕ) (token : TokenEntry) → is_alive now token ≡ true → IsLive now token
is_alive-IsLive now token h = elim (Option-cases token.expires_at) [
  | inl e ↦ inl e
  | inr (t, e) ↦ inr (t, e, ground (arith, rw e at h))
]

-- A live token whose entity has the policy, all in one namespace.
pub record Grants (t : Tables) (now : ℕ) (id : Str) (p : Policy) : Type 0 where
  pub token : TokenEntry
  pub entity : Entity
  pub link : EntityPolicyRow
  pub token_row : In token t.tokens
  pub token_id : token.id ≡ id
  pub alive : IsLive now token
  pub entity_row : In entity t.entities
  pub entity_name : token.entity_name ≡ entity.name
  pub link_row : In link t.entity_policies
  pub link_entity : entity.name ≡ link.entity_name
  pub policy_row : In p t.policies
  pub policy_name : link.policy_name ≡ p.name
  pub same_namespace :
      (token.namespace_id ≡ entity.namespace_id)
      × (entity.namespace_id ≡ link.namespace_id)
      × (link.namespace_id ≡ p.namespace_id)

two_eq : (a b c d : Str) → (str_eq a b && str_eq c d) ≡ true → (a ≡ b) × (c ≡ d)
two_eq a b c d h = (eq_of_str_eq a b (ground arith), eq_of_str_eq c d (ground arith))

pub lookup_policies-Grants :
    (t : Tables) (now : ℕ) (id : Str) (p : Policy)
    → In p (lookup_policies id now t)
    → Grants t now id p
unfolding lookup_policies
lookup_policies-Grants t now id p m =
    let (token, i, m1) =
      flat_map-In _ (select (λ token. str_eq token.id id && is_alive now token) t.tokens) p m in
    let (entity, j, m2) =
      flat_map-In _
        (select
          (λ entity.
            str_eq token.entity_name entity.name && str_eq token.namespace_id entity.namespace_id)
          t.entities)
        p m1 in
    let (link, k, m3) =
      flat_map-In _
        (select
          (λ link.
            str_eq entity.name link.entity_name && str_eq entity.namespace_id link.namespace_id)
          t.entity_policies)
        p m2 in
    let (token_row, a) = select-In _ t.tokens token i in
    let (entity_row, b) = select-In _ t.entities entity j in
    let (link_row, c) = select-In _ t.entity_policies link k in
    let (policy_row, d) =
      select-In (λ q. str_eq link.policy_name q.name && str_eq link.namespace_id q.namespace_id)
        t.policies p m3 in
    let (e1, e2) = two_eq _ _ _ _ b in
    let (e3, e4) = two_eq _ _ _ _ c in
    let (e5, e6) = two_eq _ _ _ _ d in
    record {
      token = token;
      entity = entity;
      link = link;
      token_row = token_row;
      token_id = eq_of_str_eq token.id id (ground arith);
      alive = is_alive-IsLive now token (ground arith);
      entity_row = entity_row;
      entity_name = e1;
      link_row = link_row;
      link_entity = e3;
      policy_row = policy_row;
      policy_name = e5;
      same_namespace = (e2, e4, e6);
    }

-- The rule of a policy that lets the request through, under the path of the policy's namespace.
pub record Allows (t : Tables) (req : Request) (p : Policy) : Type 0 where
  pub rule : PathPolicy
  pub prefix : Str
  pub rule_in : In rule p.paths
  pub prefix_path : get_full_path (length t.namespaces) p.namespace_id t.namespaces ≡ some prefix
  pub matches : Matches (attach_prefix prefix rule).path (request_path req)
  pub operation : In req.operation rule.operations

map-In :
    (f : PathPolicy → PathPolicy) (l : List PathPolicy) (b : PathPolicy)
    → In b (map f l)
    → (a : PathPolicy) × In a l × (b ≡ f a)
map-In f [] b m = elim m [ ]
map-In f (x ∷ l) b (here e) = (x, here refl, e)
map-In f (x ∷ l) b (there m) = let (a, i, e) = map-In f l b m in (a, there i, e)

policy_allows-Allows :
    (t : Tables) (req : Request) (p : Policy) (ns prefix : Str)
    → get_full_path (length t.namespaces) ns t.namespaces ≡ some prefix
    → policy_allows ns prefix (request_path req) req.operation p ≡ true
    → Allows t req p
unfolding Policy.is_authorized
policy_allows-Allows t req p ns prefix found h =
    let same : p.namespace_id ≡ ns = eq_of_str_eq p.namespace_id ns (ground arith) in
    let some_rule : any (λ r. Paths.is_authorized r (request_path req) (req.operation ∷ []))
          (map (attach_prefix prefix) p.paths)
        ≡ true =
      ground arith in
    let (r, i, k) = any-In _ (map (attach_prefix prefix) p.paths) some_rule in
    let (rule, j, e) = map-In (attach_prefix prefix) p.paths r i in
    let (m, o) = (path_is_authorized_iff r (request_path req) (req.operation ∷ [])).0 k in
    record {
      rule = rule;
      prefix = prefix;
      rule_in = j;
      prefix_path = ap (λ n. get_full_path (length t.namespaces) n t.namespaces) same ∙ found;
      matches = rw (ap (λ (x : PathPolicy). x.path) e) at m;
      operation = rw (ap (λ (x : PathPolicy). x.operations) e) at (o req.operation (here refl));
    }

check_policies_sound :
    (t : Tables) (req : Request) (ps : List Policy)
    → check_policies req t ps ≡ ok true
    → (p : Policy) × In p ps × Allows t req p
check_policies_sound t req [] h = absurd (cc)
check_policies_sound t req (p ∷ ps) h =
    elim (Option-cases (get_full_path (length t.namespaces) p.namespace_id t.namespaces)) [
      | inl e ↦ absurd (ground arith)
      | inr (prefix, e) ↦
          let passed : any (policy_allows p.namespace_id prefix (request_path req) req.operation)
                (p ∷ ps)
              ≡ true =
            ground arith in
          let (q, i, k) =
            any-In (policy_allows p.namespace_id prefix (request_path req) req.operation) (p ∷ ps)
              passed in
          (q, i, policy_allows-Allows t req q p.namespace_id prefix e k)
    ]

-- A request is authorised only in an unsealed store and with a live token, whose entity has a
-- policy with a rule that matches the request's path below the policy's own namespace and lists
-- its operation.
pub is_authorized_sound :
    (t : Tables) (req : Request) (now : ℕ)
    → is_authorized req now t ≡ ok true
    → (id : Str) × (p : Policy) × (is_unsealed req.storage_state ≡ true)
      × (req.token ≡ some id)
      × Grants t now id p
      × Allows t req p
unfolding is_authorized token_from_str
is_authorized_sound t req now h = elim (Option-cases req.token) [
  | inl e ↦ absurd (ground arith)
  | inr (id, e) ↦
      let (p, i, a) = check_policies_sound t req (lookup_policies id now t) (ground arith) in
      (id, p, ground arith, e, lookup_policies-Grants t now id p i, a)
]
