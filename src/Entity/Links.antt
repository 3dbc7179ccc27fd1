-- ===== src/Entity/Links.antt =====
-- covert-server/src/repos/entity.rs, `attach_policy`: the links between entities and policies.
use covert.Prelude.{◌≡◌, refl, Bool, true, Str, any, str_eq_refl, arith, inl, inr, Bool-cases}
use covert.Server.Tables.{Tables, EntityPolicyRow}
use covert.Policies.{is_policy}
use covert.Entity.{is_entity, is_link, attach_policy}

-- The link is there afterwards, whether it was before or not.
pub attach_policy-link :
    (name policy id : Str) (t : Tables)
    → any (is_entity name id) t.entities ≡ true
    → any (is_policy policy id) t.policies ≡ true
    → any (is_link name policy id) (attach_policy name policy id t).1.entity_policies ≡ true
unfolding attach_policy
attach_policy-link name policy id t h k =
    elim (Bool-cases (any (is_link name policy id) t.entity_policies)) [
      | inl e ↦ rw e e
      | inr e ↦ rw (e, h, k, str_eq_refl name, str_eq_refl policy, str_eq_refl id) refl
    ]

pub attach_policy-rest :
    (name policy id : Str) (t : Tables)
    → ((attach_policy name policy id t).1.policies ≡ t.policies)
      × ((attach_policy name policy id t).1.entities ≡ t.entities)
unfolding attach_policy
attach_policy-rest name policy id t = ground arith

pub attach_policy-keeps :
    (name policy id : Str) (t : Tables) (p : EntityPolicyRow → Bool)
    → any p t.entity_policies ≡ true
    → any p (attach_policy name policy id t).1.entity_policies ≡ true
unfolding attach_policy
attach_policy-keeps name policy id t p h = ground (arith, h)
