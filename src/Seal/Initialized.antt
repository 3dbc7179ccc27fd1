-- ===== src/Seal/Initialized.antt =====
-- covert-server/src/system/initialize.rs: initializing a second time.
use covert.Prelude.{
  ◌≡◌, refl, Bool, false, none, some, Str, err, inl, inr, Result-cases, ◌||◌, ltb, ◌==◌,
}
use covert.Prelude.Exec.{◌>>=◌}
use covert.Server.Tables.{unique_constraint_violation}
use covert.Storage
use covert.Storage.{Cipher, exists}
use covert.Seal.{SealConfig, Sealing, Sharing, set_config, handle_initialize}

module _ (sharing : Sharing) (cipher : Cipher) where
  abbrev pub is_refused : SealConfig → Bool
  is_refused body = body.threshold == 0 || ltb body.shares body.threshold

  second :
      (body : SealConfig) (key : Str) (s : Sealing) (config : SealConfig)
      → is_refused body ≡ false
      → s.config ≡ some config
      → handle_initialize sharing cipher body key s ≡ (err unique_constraint_violation, s)
  unfolding handle_initialize set_config ◌>>=◌
  second body key s config r e = rw (r, e) refl

  configured :
      (body : SealConfig) (key : Str) (s : Sealing)
      → is_refused body ≡ false
      → s.config ≡ none
      → (handle_initialize sharing cipher body key s).1.config ≡ some body
  unfolding handle_initialize set_config ◌>>=◌ Storage.initialize
  configured body key s r e = elim (Result-cases (Storage.initialize cipher key s.pool).0) [
    | inl (a, k) ↦ rw (r, e, k) refl
    | inr (x, k) ↦ rw (r, e, k) refl
  ]

  -- Without a configuration, an attempt to initialize with parameters that are accepted, also one
  -- that fails in the pool, makes any second such attempt fail on the unique row of the
  -- configuration and change nothing.
  pub initialize_once :
      (body body' : SealConfig) (key key' : Str) (s : Sealing)
      → is_refused body ≡ false
      → is_refused body' ≡ false
      → s.config ≡ none
      → (handle_initialize sharing cipher body' key'
          (handle_initialize sharing cipher body key s).1)
        ≡ (err unique_constraint_violation, (handle_initialize sharing cipher body key s).1)
  initialize_once body body' key key' s r r' e =
      second body' key' (handle_initialize sharing cipher body key s).1 body r'
        (configured body key s r e)
