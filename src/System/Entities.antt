-- ===== src/System/Entities.antt =====
-- covert-server/src/system/entity.rs: the handlers for entities, their policies and aliases. A NULL of
-- the database is read as `null`. What was attached is logged and not answered.
pub mod Attached
use covert.Prelude.{
  Bool, true, false, List, [], ◌∷◌, Option, none, some, Str, length, if◌then◌else◌, not, Result, ok,
  err, ok_or, ◌==◌,
}
use covert.Prelude.Exec.{Exec, pure, raise, query, ◌>>=◌, ◌>>◌}
use covert.Server.Tables.{Tables, Namespace, Entity, Error, internal_error, not_found}
use covert.Policies.{batch_lookup}
use covert.Entity
use covert.Entity.{
  EntityAlias, EntityWithPolicyAndAlias, attach_policy, attach_alias, remove_policy, remove_alias,
}
use covert.Expiration.Revocation.{ignore}

-- `handle_entity_create`
unfoldable pub handle_entity_create : Str → Namespace → Exec Tables Error EntityWithPolicyAndAlias
unfolding ◌>>=◌
handle_entity_create name ns = do
  created ← Entity.create (record { name = name; namespace_id = ns.id })
  pure (record { name = name; policies = []; aliases = [] })

-- the loops of the two handlers that attach: a failure is passed over
unfoldable pub attach_policies : Str → List Str → Str → Exec Tables Error (Unit {0})
unfolding ◌>>=◌
attach_policies name [] namespace_id = pure tt
attach_policies name (policy ∷ policies) namespace_id =
    ignore (attach_policy name policy namespace_id) >> attach_policies name policies namespace_id

unfoldable pub attach_aliases : Str → List EntityAlias → Str → Exec Tables Error (Unit {0})
unfolding ◌>>=◌
attach_aliases name [] namespace_id = pure tt
attach_aliases name (alias ∷ aliases) namespace_id =
    ignore (attach_alias name alias namespace_id) >> attach_aliases name aliases namespace_id

module _ (null : Str) where
  -- `lookup_entity`
  unfoldable pub lookup_entity : Str → Str → Exec Tables Error EntityWithPolicyAndAlias
  lookup_entity name namespace_id =
      query (λ t. ok_or (Entity.lookup null name namespace_id t) internal_error)

  -- `handle_attach_entity_policy`
  unfoldable pub handle_attach_entity_policy :
      Str → List Str → Namespace → Exec Tables Error EntityWithPolicyAndAlias
  unfolding ◌>>=◌
  handle_attach_entity_policy name policy_names ns = do
    found ← query (λ t. ok (batch_lookup policy_names ns.id t.policies))
    if not (length found == length policy_names)
        then raise not_found
        else attach_policies name policy_names ns.id >> lookup_entity name ns.id

  -- `handle_attach_entity_alias`
  unfoldable pub handle_attach_entity_alias :
      Str → List EntityAlias → Namespace → Exec Tables Error EntityWithPolicyAndAlias
  unfolding ◌>>=◌
  handle_attach_entity_alias name aliases ns =
      attach_aliases name aliases ns.id >> lookup_entity name ns.id

  -- `handle_remove_entity_policy`
  unfoldable pub handle_remove_entity_policy :
      Str → Str → Namespace → Exec Tables Error EntityWithPolicyAndAlias
  unfolding ◌>>=◌
  handle_remove_entity_policy name policy_name ns = do
    removed ← remove_policy name policy_name ns.id
    if removed then lookup_entity name ns.id else raise not_found

  -- `handle_remove_entity_alias`
  unfoldable pub handle_remove_entity_alias :
      Str → EntityAlias → Namespace → Exec Tables Error EntityWithPolicyAndAlias
  unfolding ◌>>=◌
  handle_remove_entity_alias name alias ns = do
    removed ← remove_alias name alias ns.id
    if removed then lookup_entity name ns.id else raise not_found

  -- `handle_list_entities`
  unfoldable pub handle_list_entities : Namespace → Tables → List EntityWithPolicyAndAlias
  handle_list_entities ns t = Entity.list null ns.id t
