-- ===== src/Entity.antt =====
-- covert-server/src/repos/entity.rs: entities, their aliases and their policies.
pub mod Links
use covert.Prelude.{
  ◌&&◌, ◌||◌, not, Bool, List, [], ◌∷◌, ◌++◌, str_leb, map, Option, none, some, Str, any, first,
  flat_map, select, delete, count, is_empty, str_eq, if◌then◌else◌, ok, err, ◌==◌,
}
use covert.Prelude.Exec.{Exec}
use covert.Policy.{Policy}
use covert.Server.Tables.{
  Tables, Entity, AliasRow, EntityPolicyRow, Error, storage, foreign_key_violation,
  unique_constraint_violation, holds_char, slash, space,
}

-- covert-types/src/entity.rs, `EntityAlias`
pub record EntityAlias : Type 0 where
  pub name : Str
  pub mount_path : Str

-- the CHECK constraints VALID_NAME and VALID_ALIAS_NAME
abbrev pub is_valid_name : Str → Bool
is_valid_name name =
    not (is_empty name) && not (holds_char space name) && not (holds_char slash name)

abbrev pub is_entity : Str → Str → Entity → Bool
is_entity name namespace_id e = str_eq e.name name && str_eq e.namespace_id namespace_id

-- `create`
unfoldable pub create : Entity → Exec Tables Error (Unit {0})
create entity t =
    if not (is_valid_name entity.name)
    then (err storage, t)
    else if any (is_entity entity.name entity.namespace_id) t.entities
    then (err unique_constraint_violation, t)
    else if not (any (λ ns. str_eq ns.id entity.namespace_id) t.namespaces)
    then (err foreign_key_violation, t)
    else (ok tt, record t { entities = entity ∷ t.entities })

-- PRIMARY KEY(namespace_id, entity_name, mount_path)
abbrev pub same_alias : Str → EntityAlias → Str → AliasRow → Bool
same_alias name alias namespace_id a =
    str_eq a.entity_name name
    && str_eq a.mount_path alias.mount_path
    && str_eq a.namespace_id namespace_id

-- `attach_alias`
unfoldable pub attach_alias : Str → EntityAlias → Str → Exec Tables Error (Unit {0})
attach_alias name alias namespace_id t =
    if not (is_valid_name alias.name)
    then (err storage, t)
    else if any (same_alias name alias namespace_id) t.entity_aliases
    then (err unique_constraint_violation, t)
    else if not (any (is_entity name namespace_id) t.entities)
        || not (
            any (λ m. str_eq m.path alias.mount_path && str_eq m.namespace_id namespace_id)
              t.mounts)
    then (err foreign_key_violation, t)
    else (
      ok tt,
      record t {
        entity_aliases =
            record {
              name = alias.name;
              mount_path = alias.mount_path;
              entity_name = name;
              namespace_id = namespace_id;
            }
            ∷ t.entity_aliases;
      },
    )

abbrev pub is_link : Str → Str → Str → EntityPolicyRow → Bool
is_link name policy namespace_id l =
    str_eq l.entity_name name && str_eq l.policy_name policy && str_eq l.namespace_id namespace_id

-- `attach_policy`
unfoldable pub attach_policy : Str → Str → Str → Exec Tables Error (Unit {0})
attach_policy name policy namespace_id t =
    if any (is_link name policy namespace_id) t.entity_policies
    then (err unique_constraint_violation, t)
    else if not (any (is_entity name namespace_id) t.entities)
        || not (any (λ p. str_eq p.name policy && str_eq p.namespace_id namespace_id) t.policies)
    then (err foreign_key_violation, t)
    else (
      ok tt,
      record t {
        entity_policies =
            record { entity_name = name; policy_name = policy; namespace_id = namespace_id }
            ∷ t.entity_policies;
      },
    )

-- `remove_policy`
unfoldable pub remove_policy : Str → Str → Str → Exec Tables Error Bool
remove_policy name policy namespace_id t = (
  ok (count (is_link name policy namespace_id) t.entity_policies == 1),
  record t { entity_policies = delete (is_link name policy namespace_id) t.entity_policies },
)

abbrev pub is_alias : Str → EntityAlias → Str → AliasRow → Bool
is_alias name alias namespace_id a =
    str_eq a.name alias.name && same_alias name alias namespace_id a

-- `remove_alias`
unfoldable pub remove_alias : Str → EntityAlias → Str → Exec Tables Error Bool
remove_alias name alias namespace_id t = (
  ok (count (is_alias name alias namespace_id) t.entity_aliases == 1),
  record t { entity_aliases = delete (is_alias name alias namespace_id) t.entity_aliases },
)

abbrev pub is_known : EntityAlias → Str → AliasRow → Bool
is_known alias namespace_id a =
    str_eq a.name alias.name
    && str_eq a.mount_path alias.mount_path
    && str_eq a.namespace_id namespace_id

-- `get_entity_from_alias`
unfoldable pub get_entity_from_alias : EntityAlias → Str → Tables → Option Entity
get_entity_from_alias alias namespace_id t = first (
    flat_map (λ a. select (is_entity a.entity_name a.namespace_id) t.entities)
      (select (is_known alias namespace_id) t.entity_aliases))

-- `EntityWithPolicyAndAlias`, and the raw row of the joins; a NULL is read as `null`
pub record EntityWithPolicyAndAlias : Type 0 where
  pub name : Str
  pub policies : List Str
  pub aliases : List EntityAlias

pub record EntityWithPolicyAndAliasRaw : Type 0 where
  pub name : Str
  pub policy_name : Str
  pub alias_name : Str
  pub alias_mount_path : Str

-- LEFT JOIN: the rows that match, or one NULL
abbrev pub or_null : {A : Type 0} → List A → List (Option A)
or_null [] = none ∷ []
or_null (x ∷ xs) = map some (x ∷ xs)

-- the policies that a row of ENTITY_POLICIES joins, by their names
abbrev pub linked_policies : Entity → Tables → List (Option Str)
linked_policies e t =
    flat_map
      (λ l. or_null (
        map (λ (p : Policy). p.name)
          (select (λ p. str_eq l.policy_name p.name && str_eq l.namespace_id p.namespace_id)
            t.policies)))
      (select (λ l. str_eq l.entity_name e.name && str_eq l.namespace_id e.namespace_id)
        t.entity_policies)

abbrev pub or_none : {A : Type 0} → List (Option A) → List (Option A)
or_none [] = none ∷ []
or_none (x ∷ xs) = x ∷ xs

abbrev pub joined_policies : Entity → Tables → List (Option Str)
joined_policies e t = or_none (linked_policies e t)

abbrev pub joined_aliases : Entity → Tables → List (Option AliasRow)
joined_aliases e t = or_null (
    select (λ a. str_eq a.entity_name e.name && str_eq a.namespace_id e.namespace_id)
      t.entity_aliases)

module _ (null : Str) where
  abbrev pub raw_row : Entity → Option Str → Option AliasRow → EntityWithPolicyAndAliasRaw
  raw_row e policy alias = record {
    name = e.name;
    policy_name = elim policy [ none ↦ null | some p ↦ p ];
    alias_name = elim alias [ none ↦ null | some a ↦ a.name ];
    alias_mount_path = elim alias [ none ↦ null | some a ↦ a.mount_path ];
  }

  -- the joins of one entity
  abbrev pub join_rows : Entity → Tables → List EntityWithPolicyAndAliasRaw
  join_rows e t =
      flat_map (λ policy. map (raw_row e policy) (joined_aliases e t)) (joined_policies e t)

  abbrev pub policies_of : List EntityWithPolicyAndAliasRaw → List Str
  policies_of rows =
      map (λ (e : EntityWithPolicyAndAliasRaw). e.policy_name)
        (select (λ e. not (is_empty e.policy_name)) rows)

  abbrev pub aliases_of : List EntityWithPolicyAndAliasRaw → List EntityAlias
  aliases_of rows =
      map
        (λ (e : EntityWithPolicyAndAliasRaw). record {
          name = e.alias_name;
          mount_path = e.alias_mount_path;
        })
        (select (λ e. not (is_empty e.alias_name)) rows)

  abbrev pub grouped : List EntityWithPolicyAndAliasRaw → Option EntityWithPolicyAndAlias
  grouped [] = none
  grouped (e ∷ rows) =
      some (record {
        name = e.name;
        policies = policies_of (e ∷ rows);
        aliases = aliases_of (e ∷ rows);
      })

  -- `lookup`
  unfoldable pub lookup : Str → Str → Tables → Option EntityWithPolicyAndAlias
  lookup name namespace_id t =
      grouped (flat_map (λ e. join_rows e t) (select (is_entity name namespace_id) t.entities))

  -- HashMap's `entry`, with what a row adds
  abbrev pub added :
      EntityWithPolicyAndAliasRaw → EntityWithPolicyAndAlias → EntityWithPolicyAndAlias
  added row e = record e {
    policies = e.policies ++ policies_of (row ∷ []);
    aliases = e.aliases ++ aliases_of (row ∷ []);
  }

  abbrev pub put_row :
      EntityWithPolicyAndAliasRaw → List EntityWithPolicyAndAlias → List EntityWithPolicyAndAlias
  put_row row [] = added row (record { name = row.name; policies = []; aliases = [] }) ∷ []
  put_row row (e ∷ es) =
      let rest = put_row row es in if str_eq e.name row.name then added row e ∷ es else e ∷ rest

  abbrev pub group_rows :
      List EntityWithPolicyAndAliasRaw
      → List EntityWithPolicyAndAlias
      → List EntityWithPolicyAndAlias
  group_rows [] es = es
  group_rows (row ∷ rows) es = group_rows rows (put_row row es)

  -- `sorted_by_key`
  abbrev pub insert_entity :
      EntityWithPolicyAndAlias → List EntityWithPolicyAndAlias → List EntityWithPolicyAndAlias
  insert_entity e [] = e ∷ []
  insert_entity e (x ∷ xs) =
      let rest = insert_entity e xs in if str_leb e.name x.name then e ∷ x ∷ xs else x ∷ rest

  abbrev pub sort_entities : List EntityWithPolicyAndAlias → List EntityWithPolicyAndAlias
  sort_entities [] = []
  sort_entities (e ∷ es) = insert_entity e (sort_entities es)

  -- `list`
  unfoldable pub list : Str → Tables → List EntityWithPolicyAndAlias
  list namespace_id t = sort_entities (
      group_rows
        (flat_map (λ e. join_rows e t)
          (select (λ e. str_eq e.namespace_id namespace_id) t.entities))
        [])
