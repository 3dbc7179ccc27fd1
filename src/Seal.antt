-- ===== src/Seal.antt =====
-- covert-server/src/repos/seal.rs and system/{initialize,unseal,seal}.rs: the master key, its shares
-- and the handlers that open and close the store. The sharing of the key (sharks), the cipher of the
-- stored shares (AES-GCM) and the encoding of shares (hex, UTF-8) are parameters. Of `unseal` the
-- opening of the pool is here; what follows it is in System/Opening.
pub mod Initialized
pub mod Opened
pub mod Shares
pub mod Given
pub mod Stored
pub mod Dealt
use covert.Prelude.{
  ℕ, ◌||◌, not, Bool, true, false, List, [], ◌∷◌, ◌++◌, map, Option, none, some, Str, any, str_eq,
  length, take, if◌then◌else◌, ltb, leb, ◌==◌, Result, ok, err, ok_or,
}
use covert.Prelude.Exec.{Exec, pure, raise, query, modify, ◌>>=◌, ◌>>◌}
use covert.Server.Tables.{
  Error, storage, internal_error, bad_data, unique_constraint_violation, invalid_initialize_params,
  state_transition, Namespace, seal_in_non_root_namespace,
}
use covert.Storage.{EncryptedPool, Cipher, EncryptedPoolError}
use covert.Storage

-- `SealConfig`, whose fields are `u8`
pub record SealConfig : Type 0 where
  pub threshold : ℕ
  pub shares : ℕ

-- `KeyShare`
pub record KeyShare : Type 0 where
  pub key : Str
  pub nonce : Str

-- the tables of migrations/unecrypted and the encrypted pool
pub record Sealing : Type 0 where
  pub config : Option SealConfig
  pub key_shares : List KeyShare
  pub pool : EncryptedPool

-- `set_config`; the lock lets the table hold one row
unfoldable pub set_config : SealConfig → Exec Sealing Error (Unit {0})
set_config config s = elim s.config [
  | none ↦ (ok tt, record s { config = some config })
  | some old ↦ (err unique_constraint_violation, s)
]

-- `clear_key_shares`
unfoldable pub clear_key_shares : Exec Sealing Error ℕ
clear_key_shares s = (ok (length s.key_shares), record s { key_shares = [] })

-- the AES-GCM cipher of the process, with nonce and text, and the shares of a key
pub record Sharing : Type 0 where
  pub encrypt : Str → Str → Option Str
  pub decrypt : Str → Str → Option Str
  pub dealt : ℕ → Str → ℕ → List Str
  pub recover : ℕ → List Str → Option Str

abbrev pub on_pool : {A : Type 0} → Exec EncryptedPool EncryptedPoolError A → Exec Sealing Error A
on_pool m s = elim (m s.pool).0 [
  | ok a ↦ (ok a, record s { pool = (m s.pool).1 })
  | err e ↦ (err state_transition, record s { pool = (m s.pool).1 })
]

module _ (sharing : Sharing) where
  open sharing use {encrypt, decrypt, dealt, recover}

  abbrev pub same_row : KeyShare → KeyShare → Bool
  same_row a b = str_eq a.nonce b.nonce || str_eq a.key b.key

  -- `insert_key_share`, with the nonce that is drawn. The nonce is the primary key, and only its
  -- violation has an error of its own.
  unfoldable pub insert_key_share : Str → Str → Exec Sealing Error (Unit {0})
  insert_key_share nonce key s = elim (encrypt nonce key) [
    | none ↦ (err internal_error, s)
    | some sealed_key ↦
        let row : KeyShare = record { key = sealed_key; nonce = nonce } in
        if any (same_row row) s.key_shares
        then (
          err (
              if any (λ r. str_eq nonce r.nonce) s.key_shares
              then unique_constraint_violation
              else storage),
          s,
        )
        else (ok tt, record s { key_shares = s.key_shares ++ row ∷ [] })
  ]

  -- the loop of `get_key_shares`: each text once, and `none` at the first row that does not decrypt
  abbrev pub decrypted : List KeyShare → List Str → Option (List Str)
  decrypted [] keys = some keys
  decrypted (row ∷ rows) keys = elim (decrypt row.nonce row.key) [
    | none ↦ none
    | some key ↦ decrypted rows (if any (λ k. str_eq k key) keys then keys else keys ++ key ∷ [])
  ]

  -- `get_key_shares`; a text that is not UTF-8, which the caller refuses in the same way, is `none` of
  -- `decrypt`
  unfoldable pub get_key_shares : Exec Sealing Error (List Str)
  get_key_shares s = elim (decrypted s.key_shares []) [
    | none ↦ (err bad_data, record s { key_shares = [] })
    | some keys ↦ (ok keys, s)
  ]

  -- methods/system: the answers of the two handlers
  pub data InitializeResponse : Type 0 where
    new_key_shares : List Str → InitializeResponse
    existing_key : InitializeResponse

  pub data UnsealResponse : Type 0 where
    in_progress : (threshold key_shares_total key_shares_provided : ℕ) → UnsealResponse
    complete : UnsealResponse

  module _ (cipher : Cipher) where
    abbrev pub deal : SealConfig → Option Str → InitializeResponse
    deal body none = existing_key
    deal body (some master_key) = new_key_shares (dealt body.threshold master_key body.shares)

    -- `handle_initialize`
    unfoldable pub handle_initialize : SealConfig → Str → Exec Sealing Error InitializeResponse
    unfolding ◌>>=◌
    handle_initialize body master_key =
        if body.threshold == 0 || ltb body.shares body.threshold
        then raise invalid_initialize_params
        else do
          set ← set_config body
          made ← on_pool (Storage.initialize cipher master_key)
          pure (deal body made)

    -- one insertion for each share; the nonces are drawn by the caller
    unfoldable pub insert_all : List (Str × Str) → Exec Sealing Error (Unit {0})
    unfolding ◌>>=◌
    insert_all [] = pure tt
    insert_all ((nonce, key) ∷ shares) = insert_key_share nonce key >> insert_all shares

    unfoldable pub open_with : Option Str → Exec Sealing Error UnsealResponse
    unfolding ◌>>=◌
    open_with none = clear_key_shares >> raise bad_data
    open_with (some master_key) = do
      cleared ← clear_key_shares
      opened ← on_pool (Storage.unseal cipher master_key)
      cleared_again ← clear_key_shares
      pure complete

    -- `handle_unseal`
    unfoldable pub handle_unseal : List (Str × Str) → Exec Sealing Error UnsealResponse
    unfolding ◌>>=◌
    handle_unseal shares = do
      config ← query (λ s. ok_or s.config internal_error)
      inserted ← insert_all shares
      keys ← get_key_shares
      if ltb (length keys) config.threshold
          then pure (in_progress config.threshold config.shares (length keys))
          else open_with (recover config.threshold keys)

-- the pool's part of `handle_seal`
unfoldable pub handle_seal : Namespace → Exec Sealing Error (Unit {0})
handle_seal ns s = elim ns.parent_namespace_id [
  | some p ↦ (err seal_in_non_root_namespace, s)
  | none ↦ on_pool Storage.seal s
]
