-- ===== src/Seal/Opened.antt =====
-- covert-server/src/system/unseal.rs: what it takes to open the store.
use covert.Prelude.{
  ℕ, ◌≡◌, ◌≢◌, ◌≤◌, ◌⊎◌, refl, sym, ap, ◌∙◌, true, List, [], ◌∷◌, Option, none, some, Str, arith,
  ok, err, ok_or, ok_or-ok, if◌then◌else◌, Bool-cases, Option-cases, inl, inr, ltb, length,
}
use covert.Prelude.Exec.{
  pure, Keeps, Keeps-bind, keeps_rules, Yields, Yields-query, Yields-bind, Yields-pure, ◌>>=◌,
}
use covert.Auth.{StorageState, uninitialized, sealed, unsealed}
use covert.Server.Tables.{Error, internal_error}
use covert.Storage
use covert.Storage.{Cipher, EncryptedPool, EncryptedPoolError, fits}
use covert.Seal.Shares.{IsDistinct, get_key_shares-IsDistinct}
use covert.Seal.{
  SealConfig, Sealing, Sharing, clear_key_shares, insert_key_share, insert_all, get_key_shares,
  open_with, handle_unseal, on_pool, UnsealResponse, complete, in_progress,
}

module _ (sharing : Sharing) (cipher : Cipher) where
  insert_one-pool :
      (nonce key : Str) (p : EncryptedPool)
      → Keeps (λ s. s.pool ≡ p) (insert_key_share sharing nonce key)
  unfolding insert_key_share
  insert_one-pool nonce key p = record { at = λ s h. ground (arith, h) }

  insert_all-pool :
      (shares : List (Str × Str)) (p : EncryptedPool)
      → Keeps (λ s. s.pool ≡ p) (insert_all sharing cipher shares)
  unfolding insert_all
  insert_all-pool [] p = search keeps_rules
  insert_all-pool ((nonce, key) ∷ shares) p =
      Keeps-bind (insert_key_share sharing nonce key) (λ _. insert_all sharing cipher shares)
        (insert_one-pool nonce key p) (λ _. insert_all-pool shares p)

  get_key_shares-pool : (p : EncryptedPool) → Keeps (λ s. s.pool ≡ p) (get_key_shares sharing)
  unfolding get_key_shares
  get_key_shares-pool p = record { at = λ s h. ground (arith, h) }

  -- The pool was sealed, a key that fits its file was recovered from enough shares, all different, and the pool is
  -- unsealed, with no share left in the table.
  abbrev pub IsOpened : Sealing → Sealing → Type 0
  IsOpened s u =
      (config : SealConfig) × (keys : List Str) × (key : Str) × (s.config ≡ some config)
      × (config.threshold ≤ length keys)
      × IsDistinct keys
      × (sharing.recover config.threshold keys ≡ some key)
      × (s.pool.state ≡ sealed)
      × (fits cipher s.pool.file key ≡ true)
      × (u.pool.state ≡ unsealed)
      × (u.key_shares ≡ [])

  -- the pool's answer to a key
  unseal_answer :
      (key : Str) (pool : EncryptedPool)
      → ((e : EncryptedPoolError) × (Storage.unseal cipher key pool ≡ (err e, pool)))
        ⊎ ((pool.state ≡ sealed)
            × (fits cipher pool.file key ≡ true)
            × (Storage.unseal cipher key pool ≡ (ok tt, record pool { state = unsealed })))
  unfolding Storage.unseal
  unseal_answer key pool = at_state pool.state pool.file
    where
      at_state :
          (st : StorageState) (f : Option Str)
          → let p : EncryptedPool = record { state = st; file = f } in
            ((e : EncryptedPoolError) × (Storage.unseal cipher key p ≡ (err e, p)))
            ⊎ ((st ≡ sealed)
                × (fits cipher f key ≡ true)
                × (Storage.unseal cipher key p ≡ (ok tt, record p { state = unsealed })))
      at_state uninitialized f = inl (_, refl)
      at_state unsealed f = inl (_, refl)
      at_state sealed f = elim (Bool-cases (fits cipher f key)) [
        | inl e ↦ inr (refl, e, rw e refl)
        | inr e ↦ inl (Storage.transition sealed unsealed, rw e refl)
      ]

  unsealed_pool :
      (key : Str) (v w : Sealing) (a : Unit {0})
      → on_pool (Storage.unseal cipher key) v ≡ (ok a, w)
      → (v.pool.state ≡ sealed) × (fits cipher v.pool.file key ≡ true) × (w.pool.state ≡ unsealed)
  unsealed_pool key v w a h = elim (unseal_answer key v.pool) [
    | inl (x, k) ↦ absurd (ground (arith, ap (λ p. p.0) (rw (k, on_pool) at h)))
    | inr (e, f, k) ↦
        (e, f, sym (ap (λ p. p.1.pool.state) (rw (k, on_pool) at h)) ∙ ap (λ p. p.1.state) k)
  ]

  cleared :
      (s t : Sealing) (n : ℕ)
      → clear_key_shares s ≡ (ok n, t)
      → (t.pool ≡ s.pool) × (t.key_shares ≡ [])
  unfolding clear_key_shares
  cleared s t n h = (sym (ap (λ p. p.1.pool) h), sym (ap (λ p. p.1.key_shares) h))

  opening :
      (key : Str) (s : Sealing)
      → Yields
          (λ (r : UnsealResponse sharing) u.
            (s.pool.state ≡ sealed)
            × (fits cipher s.pool.file key ≡ true)
            × (u.pool.state ≡ unsealed)
            × (u.key_shares ≡ []))
          (open_with sharing cipher (some key))
          s
  unfolding open_with
  opening key s = Yields-bind clear_key_shares _ s (λ n v e1.
      Yields-bind (on_pool (Storage.unseal cipher key)) _ v (λ a w e2.
        Yields-bind clear_key_shares _ w (λ m x e3.
          let (same, _) = cleared s v n e1 in
          let (same', empty) = cleared w x m e3 in
          let (st, f, now) = unsealed_pool key v w a e2 in
          Yields-pure complete x (
            ap (λ p. p.state) (sym same) ∙ st,
            ap (λ p. fits cipher p.file key) (sym same) ∙ f,
            ap (λ p. p.state) same' ∙ now,
            empty,
          ))))

  not_opened :
      (s u : Sealing) (r : UnsealResponse sharing) → open_with sharing cipher none s ≡ (ok r, u) → ⊥
  unfolding open_with clear_key_shares ◌>>=◌
  not_opened s u r h = absurd (ground (arith, ap (λ p. p.0) h))

  waiting :
      (r : UnsealResponse sharing) (t u : Sealing)
      → r ≢ complete
      → pure {E = Error} r t ≡ (ok complete, u)
      → ⊥
  waiting r t u n h = (Yields-pure {E = Error} {Q = λ a v. a ≢ complete} r t n).at complete u h refl

  answered :
      (config : SealConfig) (keys : List Str) (s t u : Sealing)
      → s.config ≡ some config
      → t.pool ≡ s.pool
      → IsDistinct keys
      → (if ltb (length keys) config.threshold
            then pure {E = Error} (in_progress config.threshold config.shares (length keys))
            else open_with sharing cipher (sharing.recover config.threshold keys))
          t
        ≡ (ok complete, u)
      → IsOpened s u
  answered config keys s t u c same d h = elim (Bool-cases (ltb (length keys) config.threshold)) [
    | inl e ↦ absurd (
        waiting (in_progress config.threshold config.shares (length keys)) t u
          (λ x. absurd (ground (arith, x))) (rw e at h))
    | inr e ↦ elim (Option-cases (sharing.recover config.threshold keys)) [
      | inl n ↦ absurd (not_opened t u complete (rw (e, n) at h))
      | inr (key, k) ↦
          let (a, b, x, y) = (opening key t).at complete u (rw (e, k) at h) in
          (
            config,
            keys,
            key,
            c,
            ground (arith, e),
            d,
            k,
            ap (λ p. p.state) (sym same) ∙ a,
            ap (λ p. fits cipher p.file key) (sym same) ∙ b,
            x,
            y,
          )
    ]
  ]

  kept_pool :
      (shares : List (Str × Str)) (s t v : Sealing) (a : Unit {0}) (keys : List Str)
      → insert_all sharing cipher shares s ≡ (ok a, t)
      → get_key_shares sharing t ≡ (ok keys, v)
      → v.pool ≡ s.pool
  kept_pool shares s t v a keys e1 e2 =
      sym (ap (λ p. p.1.pool) e2)
      ∙ (get_key_shares-pool s.pool).at t
          (sym (ap (λ p. p.1.pool) e1) ∙ (insert_all-pool shares s.pool).at s refl)

  unsealing :
      (shares : List (Str × Str)) (s : Sealing)
      → Yields (λ r u. r ≡ complete → IsOpened s u) (handle_unseal sharing cipher shares) s
  unfolding handle_unseal
  unsealing shares s =
      Yields-query (λ s. ok_or s.config internal_error) _ s
        (λ config c. Yields-bind (insert_all sharing cipher shares) _ s (λ a t e1.
          Yields-bind (get_key_shares sharing) _ t (λ keys v e2. record {
            at = λ r u h done.
                answered config keys s v u (ok_or-ok s.config internal_error config c)
                  (kept_pool shares s t v a keys e1 e2)
                  (get_key_shares-IsDistinct sharing t v keys e2) (h ∙ ap (λ x. (ok x, u)) done);
          })))

  -- An unseal that completes has found the pool sealed, and recovered, from at least as many
  -- different shares as the threshold, a key that fits the pool's file; it leaves the pool
  -- unsealed and no share.
  pub handle_unseal-IsOpened :
      (shares : List (Str × Str)) (s u : Sealing)
      → handle_unseal sharing cipher shares s ≡ (ok complete, u)
      → IsOpened s u
  handle_unseal-IsOpened shares s u h = (unsealing shares s).at complete u h refl
