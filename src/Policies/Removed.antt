-- ===== src/Policies/Removed.antt =====
-- covert-server/src/repos/policy.rs and layer/auth_service.rs: what a removed policy still grants.
use covert.Prelude.{◌≡◌, refl, sym, ◌∙◌, true, false, Str, ℕ, delete, any, arith, delete-In}
use covert.Policy.{Policy}
use covert.Server.Tables.{Tables}
use covert.Auth.Grants.{Grants}
use covert.Policies.{create, remove, is_policy, is_link_of}

create-links :
    (policy : Policy) (t : Tables) → (create policy t).1.entity_policies ≡ t.entity_policies
unfolding create
create-links policy t = ground (arith)

remove-links :
    (policy : Policy) (t : Tables)
    → any (is_policy policy.name policy.namespace_id) t.policies ≡ true
    → (remove policy.name policy.namespace_id t).1.entity_policies
      ≡ delete (is_link_of policy.name policy.namespace_id) t.entity_policies
unfolding remove
remove-links policy t h = rw h refl

-- Once a policy of the table has been removed, no token is granted it, also not after a policy of
-- the same name and namespace has been created.
pub remove-Grants :
    (policy : Policy) (t : Tables) (now : ℕ) (id : Str) (p : Policy)
    → any (is_policy policy.name policy.namespace_id) t.policies ≡ true
    → Grants (create policy (remove policy.name policy.namespace_id t).1).1 now id p
    → is_policy policy.name policy.namespace_id p ≡ false
remove-Grants policy t now id p present g =
    let removed = (remove policy.name policy.namespace_id t).1 in
    let links = create-links policy removed ∙ remove-links policy t present in
    let (i, e) =
      delete-In (is_link_of policy.name policy.namespace_id) t.entity_policies g.link
        (rw links at g.link_row) in
    let (a, b, c) = g.same_namespace in rw (sym g.policy_name, sym c) e
