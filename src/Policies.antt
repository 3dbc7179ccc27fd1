-- ===== src/Policies.antt =====
-- covert-server/src/repos/policy.rs: the table of policies. A row keeps its rules as read, so that
-- their JSON text, which only `create` writes, always parses.
pub mod Removed
use covert.Prelude.{
  ◌&&◌, not, Bool, List, [], ◌∷◌, Option, none, some, Str, any, first, select, delete, count,
  is_empty, str_eq, if◌then◌else◌, ok, err, ◌==◌,
}
use covert.Prelude.Exec.{Exec}
use covert.Policy.{Policy}
use covert.Server.Tables.{
  Tables, EntityPolicyRow, Error, storage, foreign_key_violation, unique_constraint_violation,
  holds_char, slash, space,
}

abbrev pub is_policy : Str → Str → Policy → Bool
is_policy name namespace_id p = str_eq p.name name && str_eq p.namespace_id namespace_id

-- `lookup`
unfoldable pub lookup : Str → Str → List Policy → Option Policy
lookup name namespace_id policies = first (select (is_policy name namespace_id) policies)

-- `batch_lookup`, which passes over the names that are not found
unfoldable pub batch_lookup : List Str → Str → List Policy → List Policy
unfolding lookup
batch_lookup [] namespace_id policies = []
batch_lookup (name ∷ names) namespace_id policies =
    let rest = batch_lookup names namespace_id policies in
    elim (lookup name namespace_id policies) [ none ↦ rest | some p ↦ p ∷ rest ]

-- `list`
unfoldable pub list : Str → List Policy → List Policy
list namespace_id policies = select (λ p. str_eq p.namespace_id namespace_id) policies

-- the CHECK constraint VALID_NAME
abbrev pub is_valid_policy_name : Str → Bool
is_valid_policy_name name =
    not (is_empty name) && not (holds_char space name) && not (holds_char slash name)

-- `create`
unfoldable pub create : Policy → Exec Tables Error (Unit {0})
create policy t =
    if not (is_valid_policy_name policy.name)
    then (err storage, t)
    else if any (is_policy policy.name policy.namespace_id) t.policies
    then (err unique_constraint_violation, t)
    else if not (any (λ ns. str_eq ns.id policy.namespace_id) t.namespaces)
    then (err foreign_key_violation, t)
    else (ok tt, record t { policies = policy ∷ t.policies })

-- the foreign key FK_POLICY, on which a deletion cascades
abbrev pub is_link_of : Str → Str → EntityPolicyRow → Bool
is_link_of name namespace_id l = str_eq l.policy_name name && str_eq l.namespace_id namespace_id

-- `remove`
unfoldable pub remove : Str → Str → Exec Tables Error Bool
remove name namespace_id t = (
  ok (count (is_policy name namespace_id) t.policies == 1),
  record t {
    policies = delete (is_policy name namespace_id) t.policies;
    entity_policies =
        if any (is_policy name namespace_id) t.policies
        then delete (is_link_of name namespace_id) t.entity_policies
        else t.entity_policies;
  },
)
