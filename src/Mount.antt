-- ===== src/Mount.antt =====
-- covert-server/src/repos/mount.rs: the statements on the table MOUNTS.
pub mod Prefix
use covert.Prelude.{
  ℕ, ◌+◌, ◌-◌, ◌*◌, ◌^◌, ◌&&◌, ◌||◌, not, Bool, true, false, List, [], ◌∷◌, ◌++◌, Option, none,
  some, Str, any, first, select, delete, update, count, length, is_empty, min, str_eq,
  if◌then◌else◌, ltb, leb, Result, ok, err, ◌==◌,
}
use Prim.Native.Nat.{◌/◌}
use covert.Prelude.Exec.{Exec}
use covert.Ttl.{MountConfig}
use covert.Lease.Like.{like, percent}
use covert.Server.Tables.{
  Tables, MountEntry, Namespace, Error, storage, not_found, foreign_key_violation,
  unique_constraint_violation, holds_char, is_lower_text, space,
}

-- A duration is kept as its whole milliseconds in an i64, and read back from them.
abbrev pub in_table : ℕ → ℕ
in_table d = min (d / 1_000_000) (2 ^ 63 - 1) * 1_000_000

abbrev pub config_in_table : MountConfig → MountConfig
config_in_table c = record {
  default_lease_ttl = in_table c.default_lease_ttl;
  max_lease_ttl = in_table c.max_lease_ttl;
}

-- WHERE path = ? AND namespace_id = ?
abbrev pub is_mount : Str → Str → MountEntry → Bool
is_mount path namespace_id m = str_eq m.path path && str_eq m.namespace_id namespace_id

-- the CHECK constraint VALID_PATH
abbrev pub is_valid_path : Str → Bool
is_valid_path path = is_lower_text path && not (is_empty path) && not (holds_char space path)

-- `create`. Of the violations of uniqueness, only that of a primary key has an error of its own.
unfoldable pub create : MountEntry → Exec Tables Error (Unit {0})
create m t =
    if not (is_valid_path m.path)
    then (err storage, t)
    else if any (λ n. str_eq n.id m.id || is_mount m.path m.namespace_id n) t.mounts
    then (
      err (if any (λ n. str_eq n.id m.id) t.mounts then unique_constraint_violation else storage),
      t,
    )
    else if not (any (λ ns. str_eq ns.id m.namespace_id) t.namespaces)
    then (err foreign_key_violation, t)
    else (ok tt, record t { mounts = record m { config = config_in_table m.config } ∷ t.mounts })

-- `set_config`
unfoldable pub set_config : Str → Str → MountConfig → Exec Tables Error (Unit {0})
set_config path namespace_id config t = (
  if count (is_mount path namespace_id) t.mounts == 1 then ok tt else err not_found,
  record t {
    mounts =
        update (is_mount path namespace_id) (λ m. record m { config = config_in_table config })
          t.mounts;
  },
)

-- `list`; its ORDER BY decides nothing that is modelled, and the order is the table's
unfoldable pub list : Str → Tables → List MountEntry
list namespace_id t = select (λ m. str_eq m.namespace_id namespace_id) t.mounts

-- `get_by_path`
unfoldable pub get_by_path : Str → Str → Tables → Option MountEntry
get_by_path path namespace_id t = first (select (is_mount path namespace_id) t.mounts)

-- WHERE namespace_id = ? AND ? LIKE (path || '%')
abbrev pub is_prefix : Str → Str → MountEntry → Bool
is_prefix path namespace_id m =
    str_eq m.namespace_id namespace_id && like (m.path ++ percent ∷ []) path

-- ORDER BY length(path) DESC LIMIT 1
abbrev pub longer : MountEntry → Option MountEntry → MountEntry
longer m none = m
longer m (some n) = if ltb (length m.path) (length n.path) then n else m

abbrev pub longest : List MountEntry → Option MountEntry
longest [] = none
longest (m ∷ ms) = some (longer m (longest ms))

-- `longest_prefix`
unfoldable pub longest_prefix : Str → Str → Tables → Option MountEntry
longest_prefix path namespace_id t = longest (select (is_prefix path namespace_id) t.mounts)

-- a lease of the mount: ON DELETE RESTRICT
abbrev pub has_lease : Str → Str → Tables → Bool
has_lease path namespace_id t =
    any (λ le. str_eq le.issued_mount_path path && str_eq le.namespace_id namespace_id) t.leases

-- `remove_by_path`. A lease of the mount stops it (ON DELETE RESTRICT, which does not fail by the
-- code of a foreign key). The aliases of the mount go with it (ON DELETE CASCADE).
unfoldable pub remove_by_path : Str → Str → Exec Tables Error Bool
remove_by_path path namespace_id t =
    if any (is_mount path namespace_id) t.mounts && has_lease path namespace_id t
    then (err storage, t)
    else (
      ok (count (is_mount path namespace_id) t.mounts == 1),
      record t {
        mounts = delete (is_mount path namespace_id) t.mounts;
        entity_aliases =
            if any (is_mount path namespace_id) t.mounts
            then delete (λ a. str_eq a.mount_path path && str_eq a.namespace_id namespace_id)
                t.entity_aliases
            else t.entity_aliases;
      },
    )
