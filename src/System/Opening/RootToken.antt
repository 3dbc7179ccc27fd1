-- ===== src/System/Opening/RootToken.antt =====
-- covert-server/src/system/unseal.rs, `generate_root_token`: what stands in the tables after it.
use covert.Prelude.{
  ℕ, ◌≡◌, refl, ap, ◌∙◌, true, List, ◌&&◌, some, Str, any, select, str_eq, str_eq_refl, ok, arith,
  inl, inr, Bool-cases, In, here, In-any, any-In, str_eq_iff, first-In, select-In,
}
use covert.Prelude.Exec.{◌>>=◌}
use covert.Server.Tables.{Tables, Namespace, Entity, root_name}
use covert.Namespace.{find_by_path, descend}
use covert.Policies
use covert.Policies.{is_policy}
use covert.Entity
use covert.Entity.{is_entity, is_link}
use covert.Entity.Links.{attach_policy-link, attach_policy-rest}
use covert.Auth
use covert.System.Opening.{root_path, root_policy, root_entity, root_token, generate_root_token}

-- The token stands in the table without an expiry, for the root's entity, which has the root's policy.
pub record IsRoot (token : Str) (now : ℕ) (ns : Namespace) (t : Tables) : Type 0 where
  pub issued : In (root_token token now ns.id) t.tokens
  pub has_entity : any (is_entity root_name ns.id) t.entities ≡ true
  pub has_policy : any (is_policy root_name ns.id) t.policies ≡ true
  pub linked : any (is_link root_name root_name ns.id) t.entity_policies ≡ true

root-In :
    (rows : List Namespace) (ns : Namespace) → find_by_path root_path rows ≡ some ns → In ns rows
unfolding find_by_path descend
root-In rows ns h = (select-In _ rows ns (first-In (select _ rows) ns h)).0

create-policy :
    (id : Str) (t : Tables)
    → any (λ ns. str_eq ns.id id) t.namespaces ≡ true
    → any (is_policy root_name id) (Policies.create (root_policy id) t).1.policies ≡ true
unfolding Policies.create
create-policy id t h = elim (Bool-cases (any (is_policy root_name id) t.policies)) [
  | inl e ↦ rw e e
  | inr e ↦ rw (e, h, str_eq_refl id) refl
]

create-entity :
    (id : Str) (t : Tables)
    → any (λ ns. str_eq ns.id id) t.namespaces ≡ true
    → any (is_entity root_name id) (Entity.create (root_entity id) t).1.entities ≡ true
unfolding Entity.create
create-entity id t h = elim (Bool-cases (any (is_entity root_name id) t.entities)) [
  | inl e ↦ rw e e
  | inr e ↦ rw (e, h, str_eq_refl id) refl
]

create_policy-rest :
    (id : Str) (t : Tables) → (Policies.create (root_policy id) t).1.namespaces ≡ t.namespaces
unfolding Policies.create
create_policy-rest id t = ground arith

create_entity-rest :
    (id : Str) (t : Tables) → (Entity.create (root_entity id) t).1.policies ≡ t.policies
unfolding Entity.create
create_entity-rest id t = ground arith

token-entity :
    (id : Str) (es : List Entity)
    → any (is_entity root_name id) es ≡ true
    → any (λ e. str_eq root_name e.name && str_eq id e.namespace_id) es ≡ true
token-entity id es h =
    let (e, i, k) = any-In (is_entity root_name id) es h in
    In-any (λ e. str_eq root_name e.name && str_eq id e.namespace_id) es e i
      (ground (
        arith,
        k,
        str_eq_iff e.name root_name,
        str_eq_iff root_name e.name,
        str_eq_iff e.namespace_id id,
        str_eq_iff id e.namespace_id,
      ))

module _ (token : Str) (now : ℕ) (t : Tables) (ns : Namespace) where
  -- the tables when the policy, the entity and their link are there
  abbrev with_policy : Tables
  with_policy = (Policies.create (root_policy ns.id) t).1

  abbrev with_entity : Tables
  with_entity = (Entity.create (root_entity ns.id) with_policy).1

  abbrev with_link : Tables
  with_link = (Entity.attach_policy root_name root_name ns.id with_entity).1

  with_link-has :
      find_by_path root_path t.namespaces ≡ some ns
      → (any (is_entity root_name ns.id) with_link.entities ≡ true)
        × (any (is_policy root_name ns.id) with_link.policies ≡ true)
        × (any (is_link root_name root_name ns.id) with_link.entity_policies ≡ true)
  with_link-has found =
      let there_is : any (λ n. str_eq n.id ns.id) t.namespaces ≡ true =
        In-any (λ n. str_eq n.id ns.id) t.namespaces ns (root-In t.namespaces ns found)
          (str_eq_refl ns.id) in
      let policy : any (is_policy root_name ns.id) with_entity.policies ≡ true =
        ap (any (is_policy root_name ns.id)) (create_entity-rest ns.id with_policy)
        ∙ create-policy ns.id t there_is in
      let entity : any (is_entity root_name ns.id) with_entity.entities ≡ true =
        create-entity ns.id with_policy
          (ap (any (λ n. str_eq n.id ns.id)) (create_policy-rest ns.id t) ∙ there_is) in
      let (same_policies, same_entities) =
        attach_policy-rest root_name root_name ns.id with_entity in
      (
        ap (any (is_entity root_name ns.id)) same_entities ∙ entity,
        ap (any (is_policy root_name ns.id)) same_policies ∙ policy,
        attach_policy-link root_name root_name ns.id with_entity entity policy,
      )

  -- Where there is a root namespace, generating a root token succeeds, whatever its other steps
  -- answer: the token stands in the table without an expiry, for an entity `root` that is there
  -- and has a policy `root` that is there.
  pub generate_root_token-IsRoot :
      find_by_path root_path t.namespaces ≡ some ns
      → ((generate_root_token token now t).0 ≡ ok token)
        × IsRoot token now ns (generate_root_token token now t).1
  unfolding generate_root_token Auth.create ◌>>=◌
  generate_root_token-IsRoot found =
      let (entity, policy, link) = with_link-has found in
      let known = token-entity ns.id with_link.entities entity in
      rw (found, known)
        (
          refl,
          record { issued = here refl; has_entity = entity; has_policy = policy; linked = link },
        )
