-- ===== src/Storage/States.antt =====
-- covert-storage/src/encrypted_pool.rs: the state machine of the pool over any sequence of calls.
use covert.Prelude.{
  ◌≡◌, ◌≢◌, refl, sym, ap, ◌∙◌, true, List, [], ◌∷◌, In, here, there, Option, none, some, Str,
  arith, ◌⊎◌, inl, inr, Bool-cases,
}
use covert.Auth.{StorageState, uninitialized, sealed, unsealed}
use covert.Storage.{Cipher, EncryptedPool, exists, fits, initialize, unseal, seal}

-- The pool is uninitialized exactly as long as there is no file.
abbrev pub IsConsistent : StorageState → Option Str → Type 0
IsConsistent uninitialized none = Unit {0}
IsConsistent uninitialized (some key) = ⊥
IsConsistent sealed none = ⊥
IsConsistent sealed (some key) = Unit {0}
IsConsistent unsealed none = ⊥
IsConsistent unsealed (some key) = Unit {0}

pub data Call : Type 0 where
  initializes : Str → Call
  unseals : Str → Call
  seals : Call

module _ (cipher : Cipher) where
  abbrev pub after : EncryptedPool → Call → EncryptedPool
  after pool (initializes key) = (initialize cipher key pool).1
  after pool (unseals key) = (unseal cipher key pool).1
  after pool seals = (seal pool).1

  abbrev pub after_all : EncryptedPool → List Call → EncryptedPool
  after_all pool [] = pool
  after_all pool (c ∷ cs) = after_all (after pool c) cs

  -- how one call changes the state and the file
  data Moved (pool : EncryptedPool) : Call → EncryptedPool → Type 0 where
    stays : (c : Call) → Moved pool c pool
    made :
        (key : Str)
        → pool.state ≡ uninitialized
        → pool.file ≡ none
        → Moved pool (initializes key) (record { state = sealed; file = some key })
    found :
        (key : Str)
        → pool.state ≡ uninitialized
        → exists pool.file ≡ true
        → Moved pool (initializes key) (record pool { state = sealed })
    opened :
        (key : Str)
        → pool.state ≡ sealed
        → fits cipher pool.file key ≡ true
        → Moved pool (unseals key) (record pool { state = unsealed })
    closed : pool.state ≡ unsealed → Moved pool seals (record pool { state = sealed })

  moves :
      (s : StorageState) (f : Option Str) (c : Call)
      → let pool : EncryptedPool = record { state = s; file = f } in Moved pool c (after pool c)
  unfolding initialize unseal seal
  moves uninitialized none (initializes key) = elim (Bool-cases (cipher.creates key)) [
    | inl e ↦ rw (e, after) (made key refl refl)
    | inr e ↦ rw (e, after) (stays (initializes key))
  ]
  moves uninitialized (some k) (initializes key) = found key refl refl
  moves sealed f (initializes key) = stays (initializes key)
  moves unsealed f (initializes key) = stays (initializes key)
  moves uninitialized f (unseals key) = stays (unseals key)
  moves sealed f (unseals key) = elim (Bool-cases (fits cipher f key)) [
    | inl e ↦ rw (e, after) (opened key refl e)
    | inr e ↦ rw (e, after) (stays (unseals key))
  ]
  moves unsealed f (unseals key) = stays (unseals key)
  moves uninitialized f seals = stays seals
  moves sealed f seals = stays seals
  moves unsealed f seals = closed refl

  with_file :
      (s : StorageState) (f : Option Str)
      → ((key : Str) → IsConsistent s (some key))
      → exists f ≡ true
      → IsConsistent s f
  with_file s none h e = absurd (cc)
  with_file s (some key) h e = h key

  fits-exists : (f : Option Str) (key : Str) → fits cipher f key ≡ true → exists f ≡ true
  fits-exists none key h = absurd (cc)
  fits-exists (some k) key h = refl

  from_unsealed : (f : Option Str) → IsConsistent unsealed f → IsConsistent sealed f
  from_unsealed none h = h
  from_unsealed (some key) h = h

  kept_file :
      {pool pool' : EncryptedPool} {c : Call} {key : Str}
      → Moved pool c pool'
      → pool.file ≡ some key
      → pool'.file ≡ some key
  kept_file (stays c) e = e
  kept_file (made k e1 e2) e = absurd (ground (arith, sym e2 ∙ e))
  kept_file (found k e1 e2) e = e
  kept_file (opened k e1 e2) e = e
  kept_file (closed e1) e = e

  opens_or_not :
      {pool pool' : EncryptedPool} {c : Call} {key : Str}
      → Moved pool c pool'
      → pool.file ≡ some key
      → pool.state ≢ unsealed
      → (unseals key ≡ c) ⊎ (pool'.state ≢ unsealed)
  opens_or_not (stays c) e n = inr n
  opens_or_not (made k e1 e2) e n = inr (λ h. absurd (ground (arith, h)))
  opens_or_not (found k e1 e2) e n = inr (λ h. absurd (ground (arith, h)))
  opens_or_not {key} (opened k e1 e2) e n =
      inl (ap unseals (sym (cipher.opens-key key k (sym (ap (λ f. fits cipher f k) e) ∙ e2))))
  opens_or_not (closed e1) e n = inr (λ h. absurd (ground (arith, h)))

  kept-IsConsistent :
      {pool pool' : EncryptedPool} {c : Call}
      → Moved pool c pool'
      → IsConsistent pool.state pool.file
      → IsConsistent pool'.state pool'.file
  kept-IsConsistent (stays c) h = h
  kept-IsConsistent (made key e f) h = tt
  kept-IsConsistent {pool} (found key e f) h = with_file sealed pool.file (λ x. tt) f
  kept-IsConsistent {pool} (opened key e f) h =
      with_file unsealed pool.file (λ x. tt) (fits-exists pool.file key f)
  kept-IsConsistent {pool} (closed e) h = from_unsealed pool.file (rw e at h)

  -- Over any sequence of calls, failing or not, a pool that is uninitialized exactly as long as it
  -- has no file remains so.
  after_all-IsConsistent :
      (pool : EncryptedPool) (cs : List Call)
      → IsConsistent pool.state pool.file
      → IsConsistent (after_all pool cs).state (after_all pool cs).file
  after_all-IsConsistent pool [] h = h
  after_all-IsConsistent pool (c ∷ cs) h =
      after_all-IsConsistent (after pool c) cs (kept-IsConsistent (moves pool.state pool.file c) h)

  -- A pool that is not unsealed, and whose file is under `key`, becomes unsealed by a sequence of
  -- calls only if one of them gives that key.
  pub unsealed_by_key :
      (pool : EncryptedPool) (cs : List Call) (key : Str)
      → pool.file ≡ some key
      → pool.state ≢ unsealed
      → (after_all pool cs).state ≡ unsealed
      → In (unseals key) cs
  unsealed_by_key pool [] key e n h = absurd (n h)
  unsealed_by_key pool (c ∷ cs) key e n h =
      let m = moves pool.state pool.file c in
      elim (opens_or_not m e n) [
        | inl same ↦ here same
        | inr still ↦ there (unsealed_by_key (after pool c) cs key (kept_file m e) still h)
      ]
