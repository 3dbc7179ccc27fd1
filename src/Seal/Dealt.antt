-- ===== src/Seal/Dealt.antt =====
-- covert-server/src/system: the key shares that initialize.rs hands out, given to unseal.rs in any
-- number of calls.
use covert.Prelude.{
  suc, ◌≡◌, ◌≤◌, ◌<◌, refl, sym, ap, ◌∙◌, subst, true, false, List, [], ◌∷◌, ◌++◌, map, some, none,
  Str, All, In, length, length-append, ok, arith, ltb,
}
use mathlib.Core.List.{append_assoc, append-nil}
use covert.Prelude.Exec.{pure, ◌>>=◌}
use covert.Auth.{sealed, unsealed}
use covert.Storage
use covert.Storage.{Cipher, EncryptedPool}
use covert.Seal.Initialized.{is_refused}
use covert.Seal.{
  SealConfig, Sealing, Sharing, clear_key_shares, open_with, handle_initialize, handle_unseal,
  new_key_shares, complete, set_config, on_pool, deal,
}
use covert.Seal.Given.{all_of, Given, share_of}
use covert.Seal.Stored.{
  IsSound, IsFresh, holding, prefix-IsFresh, insert_all-holding, get_key_shares-holding,
}

abbrev closed : Str → EncryptedPool
closed key = record { state = sealed; file = some key }

-- the server before it is initialized
abbrev pub blank : Sealing
blank = record { config = none; key_shares = []; pool = Storage.new none }

module _ (sharing : Sharing) (cipher : Cipher) where
  -- one call of `handle_unseal` after the other
  unfoldable pub unseal_each : List (List Given) → Sealing → Sealing
  unseal_each [] s = s
  unseal_each (b ∷ bs) s = unseal_each bs (handle_unseal sharing cipher b s).1

module _ (sharing : Sharing) (cipher : Cipher) (sound : IsSound sharing cipher) where
  length-shares : (l : List Given) → length (map share_of l) ≡ length l
  length-shares [] = refl
  length-shares (x ∷ l) = ap suc (length-shares l)

  waits :
      (config : SealConfig) (pool : EncryptedPool) (l m : List Given)
      → IsFresh sharing cipher sound (l ++ m)
      → length (l ++ m) < config.threshold
      → (handle_unseal sharing cipher m (holding sharing cipher sound config pool l)).1
        ≡ holding sharing cipher sound config pool (l ++ m)
  unfolding handle_unseal ◌>>=◌
  waits config pool l m f few =
      let less : ltb (length (map share_of (l ++ m))) config.threshold ≡ true =
        ground (arith, few, length-shares (l ++ m)) in
      rw
        (
          insert_all-holding sharing cipher sound config pool l m f,
          get_key_shares-holding sharing cipher sound config pool (l ++ m) f,
          less,
        )
        refl

  opens_pool :
      (key : Str)
      → cipher.creates key ≡ true
      → Storage.unseal cipher key (closed key)
        ≡ (ok tt, record { state = unsealed; file = some key })
  unfolding Storage.unseal
  opens_pool key made = rw (Storage.unseal, sound.opens_own key made) refl

  opens_with :
      (config : SealConfig) (key : Str) (l : List Given)
      → cipher.creates key ≡ true
      → open_with sharing cipher (some key) (holding sharing cipher sound config (closed key) l) ≡ (
        ok complete,
        holding sharing cipher sound config (record { state = unsealed; file = some key }) [],
      )
  unfolding open_with clear_key_shares ◌>>=◌
  opens_with config key l made =
      ap
        (λ r.
          (clear_key_shares
              >>= (λ _. on_pool (λ _. r) >>= (λ _. clear_key_shares >>= (λ _. pure complete))))
            (holding sharing cipher sound config (closed key) l))
        (opens_pool key made)

  completes :
      (config : SealConfig) (key : Str) (l m : List Given)
      → cipher.creates key ≡ true
      → 1 ≤ config.threshold
      → IsFresh sharing cipher sound (l ++ m)
      → All (λ k. In k (sharing.dealt config.threshold key config.shares)) (map share_of (l ++ m))
      → config.threshold ≤ length (l ++ m)
      → handle_unseal sharing cipher m (holding sharing cipher sound config (closed key) l) ≡ (
        ok complete,
        holding sharing cipher sound config (record { state = unsealed; file = some key }) [],
      )
  unfolding handle_unseal ◌>>=◌
  completes config key l m made positive f among many =
      let enough : ltb (length (map share_of (l ++ m))) config.threshold ≡ false =
        ground (arith, many, length-shares (l ++ m)) in
      let recovered =
        sound.recovers config.threshold config.shares key (map share_of (l ++ m)) positive
          (omega (arith, many, length-shares (l ++ m))) f.shares among in
      rw
        (
          insert_all-holding sharing cipher sound config (closed key) l m f,
          get_key_shares-holding sharing cipher sound config (closed key) (l ++ m) f,
          enough,
          recovered,
        )
        (opens_with config key (l ++ m) made)

  all_wait :
      (config : SealConfig) (pool : EncryptedPool) (l : List Given) (bs : List (List Given))
      → IsFresh sharing cipher sound (l ++ all_of bs)
      → length (l ++ all_of bs) < config.threshold
      → unseal_each sharing cipher bs (holding sharing cipher sound config pool l)
        ≡ holding sharing cipher sound config pool (l ++ all_of bs)
  unfolding unseal_each
  all_wait config pool l [] f few =
      ap (holding sharing cipher sound config pool) (sym (append-nil l))
  all_wait config pool l (b ∷ bs) f few =
      let same : (l ++ b) ++ all_of bs ≡ l ++ (b ++ all_of bs) = append_assoc l b (all_of bs) in
      let fresh : IsFresh sharing cipher sound ((l ++ b) ++ all_of bs) =
        subst (IsFresh sharing cipher sound) (sym same) f in
      let fewer : length ((l ++ b) ++ all_of bs) < config.threshold =
        subst (λ k. length k < config.threshold) (sym same) few in
      let now : length (l ++ b) < config.threshold =
        omega (arith, fewer, length-append (l ++ b) (all_of bs)) in
      ap (unseal_each sharing cipher bs)
        (waits config pool l b (prefix-IsFresh sharing cipher sound (l ++ b) (all_of bs) fresh) now)
      ∙ all_wait config pool (l ++ b) bs fresh fewer
      ∙ ap (holding sharing cipher sound config pool) same

  makes_pool :
      (key : Str)
      → cipher.creates key ≡ true
      → Storage.initialize cipher key (Storage.new none) ≡ (ok (some key), closed key)
  unfolding Storage.initialize Storage.new
  makes_pool key made = rw (Storage.initialize, made) refl

  initializes :
      (body : SealConfig) (key : Str)
      → is_refused sharing cipher body ≡ false
      → cipher.creates key ≡ true
      → handle_initialize sharing cipher body key blank ≡ (
        ok (new_key_shares (sharing.dealt body.threshold key body.shares)),
        holding sharing cipher sound body (closed key) [],
      )
  unfolding handle_initialize set_config ◌>>=◌
  initializes body key accepted made = rw accepted (
      ap
        (λ r.
          (set_config body
              >>= (λ _. on_pool (λ _. r) >>= (λ made. pure (deal sharing cipher body made))))
            blank)
        (makes_pool key made))

  -- On a server that was never initialized, initializing with parameters that are accepted hands
  -- out shares of the key; and calls that give some of these shares, all different, too few before
  -- the last call and as many as the threshold with it, end with the store open and no share left.
  -- The key can make the database, nonces and encrypted shares are all different, and the ciphers
  -- and the sharing are sound: what was encrypted is decrypted again, a key opens the file that it
  -- made, and is recovered from as many different shares of it as the threshold.
  pub handle_initialize-handle_unseal :
      (body : SealConfig) (key : Str) (batches : List (List Given)) (last : List Given)
      → is_refused sharing cipher body ≡ false
      → cipher.creates key ≡ true
      → IsFresh sharing cipher sound (all_of batches ++ last)
      → All
          (λ k. In k (sharing.dealt body.threshold key body.shares))
          (map share_of (all_of batches ++ last))
      → length (all_of batches) < body.threshold
      → body.threshold ≤ length (all_of batches ++ last)
      → let s : Sealing = (handle_initialize sharing cipher body key blank).1 in
        let u = handle_unseal sharing cipher last (unseal_each sharing cipher batches s) in
        ((handle_initialize sharing cipher body key blank).0
          ≡ ok (new_key_shares (sharing.dealt body.threshold key body.shares)))
        × (u.0 ≡ ok complete)
        × (u.1.pool.state ≡ unsealed)
        × (u.1.key_shares ≡ [])
  handle_initialize-handle_unseal body key batches last accepted made f among few many =
      let first = initializes body key accepted made in
      let before : unseal_each sharing cipher batches
            (handle_initialize sharing cipher body key blank).1
          ≡ holding sharing cipher sound body (closed key) (all_of batches) =
        ap (λ r. unseal_each sharing cipher batches r.1) first
        ∙ all_wait body (closed key) [] batches
            (prefix-IsFresh sharing cipher sound (all_of batches) last f) few in
      let end =
        ap (handle_unseal sharing cipher last) before
        ∙ completes body key (all_of batches) last made (ground (arith, accepted)) f among many in
      (
        ap (λ r. r.0) first,
        ap (λ r. r.0) end,
        ap (λ r. r.1.pool.state) end,
        ap (λ r. r.1.key_shares) end,
      )
