-- ===== src/Storage.antt =====
-- covert-storage/src/encrypted_pool.rs and storage.rs: the states of the encrypted database. The file
-- is known by the key that it is encrypted under. SQLCipher's test of a key is a parameter, and a
-- creation that fails leaves no file.
pub mod States
use covert.Prelude.{◌≡◌, Bool, true, false, Option, none, some, Str, Result, ok, err, if◌then◌else◌}
use covert.Prelude.Exec.{Exec}
use covert.Auth.{StorageState, uninitialized, sealed, unsealed}

-- the two variants of `EncryptedPoolError`
pub data EncryptedPoolError : Type 0 where
  invalid_state : StorageState → EncryptedPoolError
  transition : (from to : StorageState) → EncryptedPoolError

pub record EncryptedPool : Type 0 where
  pub state : StorageState
  pub file : Option Str

-- `Path::exists`
abbrev pub exists : Option Str → Bool
exists none = false
exists (some key) = true

-- `EncryptedPool::new`
unfoldable pub new : Option Str → EncryptedPool
new file = record { state = if exists file then sealed else uninitialized; file = file }

-- What SQLCipher does: whether a new file can be made, and whether a key opens a file; it opens with
-- no other key than the file's.
pub record Cipher : Type 0 where
  pub creates : Str → Bool
  pub opens : Str → Str → Bool
  pub opens-key : (file_key key : Str) → opens file_key key ≡ true → key ≡ file_key

module _ (cipher : Cipher) where
  open cipher use {creates, opens}

  -- `Storage::<Uninitialized>::initialize`, with the master key that is drawn
  abbrev pub initialize_storage :
      Str → EncryptedPool → Result EncryptedPoolError (Option Str) × EncryptedPool
  initialize_storage master_key pool =
      if exists pool.file
      then (ok none, record pool { state = sealed })
      else if creates master_key
      then (ok (some master_key), record { state = sealed; file = some master_key })
      else (err (transition uninitialized sealed), pool)

  -- `EncryptedPool::initialize`
  unfoldable pub initialize : Str → Exec EncryptedPool EncryptedPoolError (Option Str)
  initialize master_key pool = elim pool.state [
    | uninitialized ↦ initialize_storage master_key pool
    | sealed ↦ (err (invalid_state sealed), pool)
    | unsealed ↦ (err (invalid_state unsealed), pool)
  ]

  abbrev pub fits : Option Str → Str → Bool
  fits none key = false
  fits (some file_key) key = opens file_key key

  -- `EncryptedPool::unseal`
  unfoldable pub unseal : Str → Exec EncryptedPool EncryptedPoolError (Unit {0})
  unseal master_key pool = elim pool.state [
    | uninitialized ↦ (err (invalid_state uninitialized), pool)
    | sealed ↦
        if fits pool.file master_key
        then (ok tt, record pool { state = unsealed })
        else (err (transition sealed unsealed), pool)
    | unsealed ↦ (err (invalid_state unsealed), pool)
  ]

-- `EncryptedPool::seal`
unfoldable pub seal : Exec EncryptedPool EncryptedPoolError (Unit {0})
seal pool = elim pool.state [
  | uninitialized ↦ (err (invalid_state uninitialized), pool)
  | sealed ↦ (err (invalid_state sealed), pool)
  | unsealed ↦ (ok tt, record pool { state = sealed })
]
