-- ===== src/Namespace.antt =====
-- covert-server/src/repos/namespace.rs: the tree of namespaces.
pub mod Forest
pub mod Chains
pub mod Ranks
pub mod Paths
use covert.Prelude.{
  ℕ, zero, suc, ◌&&◌, ◌||◌, not, Bool, true, false, List, [], ◌∷◌, ◌++◌, map, reverse, Option, none,
  some, Str, any, first, flat_map, select, delete, join, str_eq, is_empty, if◌then◌else◌, Result,
  ok, err, ◌==◌, count,
}
use covert.Prelude.Exec.{Exec}
use covert.Server.Tables.{
  Namespace, Tables, Error, storage, foreign_key_violation, unique_constraint_violation, holds_char,
  is_lower_text, slash, space, root_name,
}

abbrev pub opt_eq : Option Str → Option Str → Bool
opt_eq none none = true
opt_eq (some a) (some b) = str_eq a b
opt_eq _ _ = false

abbrev pub is_none : Option Str → Bool
is_none none = true
is_none (some a) = false

abbrev pub has_id : Str → Namespace → Bool
has_id id ns = str_eq ns.id id

-- UNIQUE(parent_namespace_id, "name"), for a child, and the index of the one root
abbrev pub same_place : Namespace → Namespace → Bool
same_place a b = opt_eq a.parent_namespace_id b.parent_namespace_id && str_eq a.name b.name

-- the CHECK constraints HAS_PARENT and VALID_NAME
abbrev pub is_valid : Namespace → Bool
is_valid ns =
    (if is_none ns.parent_namespace_id
      then str_eq ns.name root_name
      else not (str_eq ns.name root_name))
    && is_lower_text ns.name
    && not (is_empty ns.name)
    && not (holds_char space ns.name)
    && not (holds_char slash ns.name)

-- the foreign key on the parent
abbrev pub parent_exists : Option Str → List Namespace → Bool
parent_exists none rows = true
parent_exists (some p) rows = any (has_id p) rows

-- `create`. Of the violations of uniqueness, only that of a primary key has an error of its own.
unfoldable pub create : Namespace → Exec Tables Error (Unit {0})
create ns t =
    if not (is_valid ns)
    then (err storage, t)
    else if any (has_id ns.id) t.namespaces || any (same_place ns) t.namespaces
    then (err (if any (has_id ns.id) t.namespaces then unique_constraint_violation else storage), t)
    else if not (parent_exists ns.parent_namespace_id t.namespaces)
    then (err foreign_key_violation, t)
    else (ok tt, record t { namespaces = ns ∷ t.namespaces })

-- `lookup`
unfoldable pub lookup : Str → List Namespace → Option Namespace
lookup id rows = first (select (has_id id) rows)

-- the rows that ON DELETE RESTRICT looks for: child namespaces and mounts
abbrev pub is_referenced : Str → Tables → Bool
is_referenced id t =
    any (λ ns. opt_eq ns.parent_namespace_id (some id)) t.namespaces
    || any (λ m. str_eq m.namespace_id id) t.mounts

abbrev pub is_deletable : Str → Namespace → Bool
is_deletable id ns = has_id id ns && not (is_none ns.parent_namespace_id)

-- `delete`: it leaves the root alone. ON DELETE RESTRICT does not fail by the code of a foreign
-- key. Rows of the namespace in the other tables go with it (ON DELETE CASCADE).
unfoldable pub delete_by_id : Str → Exec Tables Error Bool
delete_by_id id t =
    if not (any (is_deletable id) t.namespaces)
    then (ok false, t)
    else if is_referenced id t
    then (err storage, t)
    else (
      ok (count (is_deletable id) t.namespaces == 1),
      record t {
        namespaces = delete (is_deletable id) t.namespaces;
        entities = delete (λ e. str_eq e.namespace_id id) t.entities;
        policies = delete (λ p. str_eq p.namespace_id id) t.policies;
        entity_aliases = delete (λ a. str_eq a.namespace_id id) t.entity_aliases;
        entity_policies = delete (λ p. str_eq p.namespace_id id) t.entity_policies;
        tokens = delete (λ k. str_eq k.namespace_id id) t.tokens;
      },
    )

-- NSi.parent_namespace_id = NSj.id AND NSi.name = $i
abbrev pub is_child : Namespace → Str → Namespace → Bool
is_child parent name ns = opt_eq ns.parent_namespace_id (some parent.id) && str_eq ns.name name

-- one INNER JOIN for each further name of the path
unfoldable pub descend : List Namespace → List Str → List Namespace → List Namespace
descend rows [] level = level
descend rows (name ∷ names) level =
    descend rows names (flat_map (λ parent. select (is_child parent name) rows) level)

-- `find_by_path`: the first name is bound, and no condition of the query reads it
unfoldable pub find_by_path : List Str → List Namespace → Option Namespace
find_by_path [] rows = none
find_by_path (name ∷ names) rows =
    first (descend rows names (select (λ ns. is_none ns.parent_namespace_id) rows))

-- the loop of `find_parents`, with fuel: `none` means that the fuel ran out
unfoldable pub climb : ℕ → List Namespace → Option Str → List Namespace → Option (List Namespace)
climb fuel rows none parents = some parents
climb zero rows (some id) parents = none
climb (suc fuel) rows (some id) parents = elim (lookup id rows) [
  | none ↦ some parents
  | some ns ↦ climb fuel rows ns.parent_namespace_id (parents ++ ns ∷ [])
]

-- `find_parents`
unfoldable pub find_parents : ℕ → Str → List Namespace → Option (List Namespace)
find_parents fuel id rows = elim (lookup id rows) [
  | none ↦ some []
  | some ns ↦ climb fuel rows ns.parent_namespace_id (ns ∷ [])
]

-- `get_full_path`
unfoldable pub get_full_path : ℕ → Str → List Namespace → Option Str
get_full_path fuel id rows = elim (find_parents fuel id rows) [
  | none ↦ none
  | some parents ↦ some (join slash (map (λ ns. ns.name) (reverse parents)))
]

-- `list`; its ORDER BY decides nothing that is modelled, and the order is the table's
unfoldable pub list : Str → List Namespace → List Namespace
list id rows = select (λ ns. opt_eq ns.parent_namespace_id (some id)) rows
