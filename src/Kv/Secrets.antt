-- ===== src/Kv/Secrets.antt =====
-- backend/covert-kv/src/store/secrets.rs: the statements on the table SECRETS.
use covert.Prelude.{
  ℕ, ◌+◌, ◌∷◌, [], Bool, true, false, ◌&&◌, ◌||◌, not, List, Option, none, some, Str, str_eq, leb,
  ◌==◌, if◌then◌else◌, any, first, select, delete, update, count, Result, ok, err,
}
use Prim.Native.Nat.{max, min}
use covert.Prelude.Exec.{Exec}
use covert.Kv.Data.{Secret, Db, ErrorType, storage, SecretMetadata}

-- WHERE key = $1
abbrev pub has_key : Str → Secret → Bool
has_key key s = str_eq s.key key

-- WHERE key = $1 AND version = $2
abbrev pub has_version : Str → ℕ → Secret → Bool
has_version key version s = has_key key s && s.version == version

-- MAX(version)
abbrev pub max_version : List Secret → ℕ
max_version [] = 0
max_version (s ∷ r) = max s.version (max_version r)

-- MIN(version), over a row and the others
abbrev pub min_version : Secret → List Secret → ℕ
min_version s [] = s.version
min_version s (t ∷ r) = min s.version (min_version t r)

-- `get`: the key and the version are the primary key, so there is one row at most
unfoldable pub get : Str → ℕ → Db → Option Secret
get key version db = first (select (has_version key version) db.secrets)

-- an aggregate gives a row also where no row is taken, with NULL in its columns
unfoldable pub metadata_row :
    Result ErrorType ℕ → List Secret → Result ErrorType (Option SecretMetadata)
metadata_row (ok n) [] = ok (some (record { max_version = n; min_version = n }))
metadata_row (err e) [] = err e
metadata_row null_u32 (s ∷ r) =
    ok (some (record { max_version = max_version (s ∷ r); min_version = min_version s r }))

-- `version_metadata`
unfoldable pub version_metadata :
    Result ErrorType ℕ → Str → Db → Result ErrorType (Option SecretMetadata)
unfolding metadata_row
version_metadata null_u32 key db = metadata_row null_u32 (select (has_key key) db.secrets)

-- The loop that `soft_delete`, `recover` and `hard_delete` share: one UPDATE for each version, and
-- the versions for which it did not change exactly one row.
abbrev pub update_versions :
    (ℕ → Secret → Bool) → (Secret → Secret) → List ℕ → Exec Db ErrorType (List ℕ)
update_versions test set [] db = (ok [], db)
update_versions test set (version ∷ versions) db =
    let (r, db') =
      update_versions test set versions
        (record db { secrets = update (test version) set db.secrets }) in
    (
      elim r [
        | ok missed ↦ ok (if count (test version) db.secrets == 1 then missed else version ∷ missed)
        | err e ↦ err e
      ],
      db',
    )

abbrev pub soft_deleted : Secret → Secret
soft_deleted s = record s { deleted = true }

abbrev pub recovered : Secret → Secret
recovered s = record s { deleted = false }

abbrev pub hard_deleted : Secret → Secret
hard_deleted s = record s { destroyed = true; deleted = true; value = none }

-- `soft_delete`
unfoldable pub soft_delete : Str → List ℕ → Exec Db ErrorType (List ℕ)
soft_delete key versions = update_versions (has_version key) soft_deleted versions

-- WHERE key = $1 AND version = $2 AND destroyed = FALSE
abbrev pub is_recoverable : Str → ℕ → Secret → Bool
is_recoverable key version s = has_version key version s && not s.destroyed

-- `recover`
unfoldable pub recover : Str → List ℕ → Exec Db ErrorType (List ℕ)
recover key versions = update_versions (is_recoverable key) recovered versions

-- `hard_delete`
unfoldable pub hard_delete : Str → List ℕ → Exec Db ErrorType (List ℕ)
hard_delete key versions = update_versions (has_version key) hard_deleted versions

abbrev pub is_some {ℓ} : {A : Type ℓ} → Option A → Bool
is_some none = false
is_some (some a) = true

-- CONSTRAINT destroyed_secret
abbrev pub destroyed_secret : Secret → Bool
destroyed_secret s = (not s.destroyed && is_some s.value) || (s.destroyed && not (is_some s.value))

-- `insert`: the primary key and the constraint are checked by the table
unfoldable pub insert : Secret → Exec Db ErrorType Bool
insert secret db =
    if any (has_version secret.key secret.version) db.secrets || not (destroyed_secret secret)
    then (err storage, db)
    else (ok true, record db { secrets = secret ∷ db.secrets })

-- WHERE key = $1 AND version <= (SELECT MAX(version) ...) - $2. SQLite's integers have a sign, so
-- the test is that of `version + $2 <= MAX(version)`.
abbrev pub is_old : Str → ℕ → List Secret → Secret → Bool
is_old key max_versions rows s =
    has_key key s && leb (s.version + max_versions) (max_version (select (has_key key) rows))

-- `prune_old_versions`
unfoldable pub prune_old_versions : Str → ℕ → Db → Db
prune_old_versions key max_versions db = record db {
  secrets = delete (is_old key max_versions db.secrets) db.secrets;
}
