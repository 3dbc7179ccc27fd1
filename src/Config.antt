-- ===== src/Config.antt =====
-- covert-server/src/config.rs and recovery.rs: where the files of the server are, the test of the
-- configuration, and restoring a backup. The file system and the replication tool are parameters.
use covert.Prelude.{
  ℕ, Bool, true, false, [], ◌∷◌, ◌++◌, Option, none, some, Str, codes, starts_with, ends_with, not,
  ◌&&◌, ◌||◌, ltb, if◌then◌else◌, Result, ok, err,
}
use covert.Server.Tables.{slash}

pub record ReplicationConfig : Type 0 where
  pub access_key_id : Str
  pub secret_access_key : Str
  pub bucket_url : Str

pub record Config : Type 0 where
  pub port : ℕ
  pub replication : Option ReplicationConfig
  pub storage_path : Str

abbrev pub contains : Str → Str → Bool
contains [] t = starts_with [] t
contains (c ∷ s) t = starts_with (c ∷ s) t || contains s t

-- `format!("{}{maybe_slash}{}", ...)`
abbrev pub file_in : Str → Str → Str
file_in directory name =
    directory ++ ((if ends_with directory slash then [] else slash ∷ []) ++ name)

-- `Config::using_inmemory_storage`
unfoldable pub using_inmemory_storage : Config → Bool
using_inmemory_storage self = contains self.storage_path (codes ":memory:")

-- `Config::seal_storage_path`
unfoldable pub seal_storage_path : Config → Str
seal_storage_path self =
    if using_inmemory_storage self
    then self.storage_path
    else file_in self.storage_path (codes "seal.db")

-- `Config::encrypted_storage_path`
unfoldable pub encrypted_storage_path : Config → Str
encrypted_storage_path self =
    if using_inmemory_storage self
    then self.storage_path
    else file_in self.storage_path (codes "covert.db")

-- `ReplicationConfig::seal_bucket_url`
unfoldable pub seal_bucket_url : ReplicationConfig → Str
seal_bucket_url self = file_in self.bucket_url (codes "seal.db")

-- `ReplicationConfig::encrypted_bucket_url`
unfoldable pub encrypted_bucket_url : ReplicationConfig → Str
encrypted_bucket_url self = file_in self.bucket_url (codes "covert.db")

-- the messages of the errors
pub data Failure : Type 0 where
  not_supported_inmemory litestream_not_found directory_not_created not_a_directory : Failure
  lookup_failed recover_failed : Failure

-- What the program asks of the machine, with its state: whether `litestream version` succeeds, what
-- the file system holds, the number of lines of `litestream snapshots` if it succeeds, and whether
-- `litestream restore` does.
pub record Machine (H : Type 0) : Type 0 where
  pub version : H → Bool
  pub exists : Str → H → Bool
  pub is_dir : Str → H → Bool
  pub create_dir : Str → H → Bool × H
  pub rename : Str → Str → H → H
  pub snapshots : ReplicationConfig → Str → H → Option ℕ
  pub restore : ReplicationConfig → Str → Str → H → Bool × H

module _ {H : Type 0} (machine : Machine H) where
  open machine use {version, exists, is_dir, create_dir, rename, snapshots, restore}

  abbrev pub is_some_replication : Option ReplicationConfig → Bool
  is_some_replication none = false
  is_some_replication (some r) = true

  -- the storage of `Config::sanitize`
  abbrev pub sanitize_storage : Str → H → Result Failure (Unit {0}) × H
  sanitize_storage path h =
      let made = if exists path h then (true, h) else create_dir path h in
      if not made.0
      then (err directory_not_created, made.1)
      else if not (is_dir path made.1)
      then (err not_a_directory, made.1)
      else (ok tt, made.1)

  -- `Config::sanitize`
  unfoldable pub sanitize : Config → H → Result Failure (Unit {0}) × H
  sanitize self h =
      if is_some_replication self.replication && using_inmemory_storage self
      then (err not_supported_inmemory, h)
      else if is_some_replication self.replication && not (version h)
      then (err litestream_not_found, h)
      else if using_inmemory_storage self
      then (ok tt, h)
      else sanitize_storage self.storage_path h

  -- `has_backup`
  unfoldable pub has_backup : ReplicationConfig → Str → H → Result Failure Bool
  has_backup replication bucket_url h = elim (snapshots replication bucket_url h) [
    | some lines ↦ ok (ltb 1 lines)
    | none ↦ err lookup_failed
  ]

  -- `recover`
  unfoldable pub recover : ReplicationConfig → Str → Str → H → Result Failure (Unit {0}) × H
  recover replication output_path bucket_url h = elim (has_backup replication bucket_url h) [
    | err e ↦ (err e, h)
    | ok found ↦
        if not found || exists output_path h
        then (ok tt, h)
        else (let restored = restore replication output_path bucket_url h in
            (if restored.0 then ok tt else err recover_failed, restored.1))
  ]

  -- a snapshot that was fetched, but not opened, is put in place
  abbrev pub keep_snapshot : Str → Result Failure (Unit {0}) → H → H
  keep_snapshot path (ok _) h = h
  keep_snapshot path (err e) h =
      let tmp = path ++ codes ".tmp" in if exists tmp h then rename tmp path h else h

  -- `recover_encrypted_storage_snapshot`
  unfoldable pub recover_encrypted_storage_snapshot : Config → ReplicationConfig → H → H
  recover_encrypted_storage_snapshot config replication h =
      let path = encrypted_storage_path config in
      let r = recover replication path (encrypted_bucket_url replication) h in
      keep_snapshot path r.0 r.1
