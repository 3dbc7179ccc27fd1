-- ===== src/Seal/Stored.antt =====
-- covert-server/src/repos/seal.rs: storing shares that are all different, and reading them.
use covert.Prelude.{
  ℕ, ◌≡◌, ◌≤◌, refl, sym, ap, ◌∙◌, subst, true, false, List, [], ◌∷◌, ◌++◌, map, some, Str, any,
  All, In, length, ok, arith, str_eq,
}
use mathlib.Core.List.{append-nil}
use covert.Prelude.Exec.{◌>>=◌}
use covert.Storage.{Cipher, EncryptedPool}
use covert.Seal.Shares.{IsDistinct}
use covert.Seal.{
  SealConfig, KeyShare, Sealing, Sharing, same_row, insert_key_share, insert_all, decrypted,
  get_key_shares,
}
use covert.Seal.Given.{
  Given, nonce_of, share_of, prefix-IsDistinct, earlier, earlier_flipped, map-snoc, moved,
}

-- What the program relies on. A share that is encrypted is decrypted again (AES-GCM), a key opens
-- the file that it was made with (SQLCipher), and a key is recovered from as many of its shares as
-- the threshold, all different (Shamir's scheme).
pub record IsSound (sharing : Sharing) (cipher : Cipher) : Type 0 where
  pub text : Str → Str → Str
  pub encrypts : (nonce key : Str) → sharing.encrypt nonce key ≡ some (text nonce key)
  pub decrypts : (nonce key : Str) → sharing.decrypt nonce (text nonce key) ≡ some key
  pub opens_own : (key : Str) → cipher.creates key ≡ true → cipher.opens key key ≡ true
  pub recovers :
      (threshold shares : ℕ) (key : Str) (keys : List Str)
      → 1 ≤ threshold
      → threshold ≤ length keys
      → IsDistinct keys
      → All (λ k. In k (sharing.dealt threshold key shares)) keys
      → sharing.recover threshold keys ≡ some key

module _ (sharing : Sharing) (cipher : Cipher) (sound : IsSound sharing cipher) where
  open sound use {text}

  abbrev pub text_of : Given → Str
  text_of g = text g.0 g.1

  abbrev pub row_of : Given → KeyShare
  row_of g = record { key = text g.0 g.1; nonce = g.0 }

  -- Nonces, shares and encrypted shares are all different.
  pub record IsFresh (l : List Given) : Type 0 where
    pub nonces : IsDistinct (map nonce_of l)
    pub shares : IsDistinct (map share_of l)
    pub texts : IsDistinct (map text_of l)

  pub prefix-IsFresh : (l m : List Given) → IsFresh (l ++ m) → IsFresh l
  prefix-IsFresh l m f = record {
    nonces = prefix-IsDistinct nonce_of l m f.nonces;
    shares = prefix-IsDistinct share_of l m f.shares;
    texts = prefix-IsDistinct text_of l m f.texts;
  }

  not_taken :
      (x : Given) (l : List Given)
      → any (λ y. str_eq x.0 y.0) l ≡ false
      → any (λ y. str_eq (text_of x) (text_of y)) l ≡ false
      → any (same_row sharing (row_of x)) (map row_of l) ≡ false
  not_taken x [] n c = refl
  not_taken x (y ∷ l) n c = ground (arith, n, c, not_taken x l)

  -- a store with this configuration, these shares and this pool
  abbrev pub holding : SealConfig → EncryptedPool → List Given → Sealing
  holding config pool l = record { config = some config; key_shares = map row_of l; pool = pool }

  insert_one :
      (config : SealConfig) (pool : EncryptedPool) (l m : List Given) (x : Given)
      → IsFresh (l ++ x ∷ m)
      → insert_key_share sharing x.0 x.1 (holding config pool l)
        ≡ (ok tt, holding config pool (l ++ x ∷ []))
  unfolding insert_key_share
  insert_one config pool l m x f =
      let free = not_taken x l (earlier nonce_of x l m f.nonces) (earlier text_of x l m f.texts) in
      rw (insert_key_share, sound.encrypts x.0 x.1, free)
        (ap (λ rows. (ok tt, record { config = some config; key_shares = rows; pool = pool }))
          (map-snoc row_of l x))

  pub insert_all-holding :
      (config : SealConfig) (pool : EncryptedPool) (l m : List Given)
      → IsFresh (l ++ m)
      → insert_all sharing cipher m (holding config pool l) ≡ (ok tt, holding config pool (l ++ m))
  unfolding insert_all ◌>>=◌
  insert_all-holding config pool l [] f =
      ap (λ k. (ok tt, holding config pool k)) (sym (append-nil l))
  insert_all-holding config pool l (x ∷ m) f = rw (insert_one config pool l m x f) (
      insert_all-holding config pool (l ++ x ∷ []) m (subst IsFresh (sym (moved l m x)) f)
      ∙ ap (λ k. (ok tt, holding config pool k)) (moved l m x))

  decrypted-rows :
      (l m : List Given)
      → IsDistinct (map share_of (l ++ m))
      → decrypted sharing (map row_of m) (map share_of l) ≡ some (map share_of (l ++ m))
  decrypted-rows l [] d = ap (λ k. some (map share_of k)) (sym (append-nil l))
  decrypted-rows l (x ∷ m) d =
      rw (sound.decrypts x.0 x.1, earlier_flipped share_of x l m d, map-snoc share_of l x)
        (decrypted-rows (l ++ x ∷ []) m
            (subst (λ k. IsDistinct (map share_of k)) (sym (moved l m x)) d)
          ∙ ap (λ k. some (map share_of k)) (moved l m x))

  pub get_key_shares-holding :
      (config : SealConfig) (pool : EncryptedPool) (l : List Given)
      → IsFresh l
      → get_key_shares sharing (holding config pool l)
        ≡ (ok (map share_of l), holding config pool l)
  unfolding get_key_shares
  get_key_shares-holding config pool l f = rw (get_key_shares, decrypted-rows [] l f.shares) refl
