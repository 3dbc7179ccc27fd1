-- ===== src/Kv/Adds.antt =====
-- backend/covert-kv/src: adding a version of a secret.
use covert.Prelude.{
  ℕ, ◌+◌, ◌^◌, ◌≤◌, ◌<◌, ◌≡◌, ◌↔◌, ◌⊎◌, refl, ap, ◌∙◌, Bool, true, false, List, [], ◌∷◌, Str, any,
  select, delete, Option, none, some, if◌then◌else◌, arith, Result, ok, err, inl, inr, Bool-cases,
  str_eq_refl, ==_refl, In, here, there, In-delete, delete-In, first,
}
use covert.Prelude.Exec.{◌>>=◌}
use covert.Kv.Data.{
  Secret, Db, ErrorType, Crates, SecretMetadata, Configuration, default_config,
  CreateSecretResponse, key_version_not_found,
}
use covert.Kv.Secrets.{
  has_key, has_version, is_old, max_version, min_version, insert, prune_old_versions,
  version_metadata, get, metadata_row,
}
use covert.Kv.Config.{load}
use covert.Kv.Handlers.{add_secret, read_secret, ReadSecretResponse, next_version, unwrap_or}

abbrev config_of : Option Configuration → Configuration
config_of none = default_config
config_of (some c) = c

-- the version that comes after the newest row of the key; the first is 1, since the aggregate over
-- no rows reads as 0
abbrev pub newest : Str → Db → ℕ
newest key db = max_version (select (has_key key) db.secrets)

metadata_row-newest :
    (rows : List Secret)
    → (m : SecretMetadata) × (metadata_row (ok 0) rows ≡ ok (some m))
      × (m.max_version ≡ max_version rows)
unfolding metadata_row
metadata_row-newest [] = (record { max_version = 0; min_version = 0 }, refl, refl)
metadata_row-newest (s ∷ r) =
    (record { max_version = max_version (s ∷ r); min_version = min_version s r }, refl, refl)

version_metadata-newest :
    (null_u32 : Result ErrorType ℕ) (key : Str) (db : Db)
    → null_u32 ≡ ok 0
    → (m : SecretMetadata) × (version_metadata null_u32 key db ≡ ok (some m))
      × (m.max_version ≡ newest key db)
unfolding version_metadata
version_metadata-newest null_u32 key db z =
    rw z (metadata_row-newest (select (has_key key) db.secrets))

no_newer :
    (key : Str) (n : ℕ) (rows : List Secret)
    → max_version (select (has_key key) rows) < n
    → any (has_version key n) rows ≡ false
no_newer key n [] h = refl
no_newer key n (s ∷ rows) h = ground (arith, no_newer key n rows)

next_version-newest :
    (crates : Crates) (m : SecretMetadata)
    → m.max_version + 1 < 2 ^ 32
    → next_version crates (some m) ≡ m.max_version + 1
next_version-newest crates m h = omega arith

load_lem :
    (db : Db)
    → load db ≡ (ok (config_of db.config), record db { config = some (config_of db.config) })
unfolding load
load_lem db = ground arith

max_version-delete :
    (key : Str) (p : Secret → Bool) (rows : List Secret)
    → max_version (select (has_key key) (delete p rows)) ≤ max_version (select (has_key key) rows)
max_version-delete key p [] = omega arith
max_version-delete key p (s ∷ rows) = ground (arith, max_version-delete key p rows)

version-le :
    (key : Str) (rows : List Secret) (s : Secret)
    → In s rows
    → has_key key s ≡ true
    → s.version ≤ max_version (select (has_key key) rows)
version-le key [] s m h = elim m [ ]
version-le key (t ∷ rows) s (here e) h = ground arith
version-le key (t ∷ rows) s (there m) h = ground (arith, version-le key rows s m h)

first-none :
    (p : Secret → Bool) (rows : List Secret)
    → ((s : Secret) → In s rows → p s ≡ true → ⊥)
    → first (select p rows) ≡ none
first-none p [] h = refl
first-none p (s ∷ rows) h = elim (Bool-cases (p s)) [
  | inl hit ↦ absurd (h s (here refl) hit)
  | inr miss ↦ rw miss (first-none p rows (λ t m. h t (there m)))
]

In-cons : (s t : Secret) (rows : List Secret) → In s (t ∷ rows) → (s ≡ t) ⊎ In s rows
In-cons s t rows (here e) = inl e
In-cons s t rows (there m) = inr m

cons-In : (s t : Secret) (rows : List Secret) → (s ≡ t) ⊎ In s rows → In s (t ∷ rows)
cons-In s t rows (inl e) = here e
cons-In s t rows (inr m) = there m

module _ (crates : Crates) (key : Str) (body : crates.Json) (now : ℕ) (db : Db) (value : Str)
    (null_is_zero : crates.null_u32 ≡ ok 0) (encoded : crates.to_string body ≡ ok value)
    (room : newest key db + 1 < 2 ^ 32) where
  abbrev pub new_row : Secret
  new_row = record {
    key = key;
    version = newest key db + 1;
    value = some value;
    created_time = now;
    deleted = false;
    destroyed = false;
  }

  abbrev rows : List Secret
  rows = new_row ∷ db.secrets

  abbrev pub kept : ℕ
  kept = (config_of db.config).max_versions

  -- the tables after the call: the new row stands, and what the limit of versions excludes is gone
  abbrev pub after : Db
  after = record {
    secrets = delete (is_old key kept rows) rows;
    config = some (config_of db.config);
  }

  add_secret_lem :
      (m : SecretMetadata) × (m.max_version ≡ newest key after)
      × (add_secret crates key body now db ≡ (
        ok (record {
          version = newest key db + 1;
          created_time = now;
          deleted = false;
          destroyed = false;
          min_version = m.min_version;
          max_version = m.max_version;
        }),
        after,
      ))
  unfolding add_secret ◌>>=◌ insert prune_old_versions
  add_secret_lem =
      let (m, found, is_newest) = version_metadata-newest crates.null_u32 key db null_is_zero in
      let (m', found', is_newest') =
        version_metadata-newest crates.null_u32 key after null_is_zero in
      let next : next_version crates (some m) ≡ newest key db + 1 =
        omega (arith, next_version-newest crates m (omega arith)) in
      let no_clash = no_newer key (newest key db + 1) db.secrets (omega arith) in
      (m', is_newest', rw (found, encoded, next, no_clash, load_lem) (rw found'))

  newest-rows : max_version (select (has_key key) rows) ≡ newest key db + 1
  newest-rows = rw (str_eq_refl key) (omega arith)

  new-is_old : 1 ≤ kept → is_old key kept rows new_row ≡ false
  new-is_old some_kept = ground (arith, newest-rows, str_eq_refl key)

  secrets-after : 1 ≤ kept → after.secrets ≡ new_row ∷ delete (is_old key kept rows) db.secrets
  secrets-after some_kept =
      let others = delete (is_old key kept rows) db.secrets in
      ap (λ (b : Bool). if b then others else new_row ∷ others) (new-is_old some_kept)

  state-after : (add_secret crates key body now db).1 ≡ after
  state-after = let (m, is_newest, done) = add_secret_lem in ap (λ x. x.1) done

  newest-after : 1 ≤ kept → newest key after ≡ newest key db + 1
  newest-after some_kept =
      ap (λ r. max_version (select (has_key key) r)) (secrets-after some_kept)
      ∙ rw (str_eq_refl key)
          (omega (arith, max_version-delete key (is_old key kept rows) db.secrets))

  get-after : 1 ≤ kept → get key (newest key db + 1) after ≡ some new_row
  unfolding get
  get-after some_kept =
      ap (λ r. first (select (has_version key (newest key db + 1)) r)) (secrets-after some_kept)
      ∙ ground (arith, str_eq_refl key, ==_refl (newest key db + 1))

  -- Where at least one version is kept, the body has a text form, the newest version is not the
  -- last u32 and NULL reads as 0, a read without a version shows what was added last, under the
  -- number that follows the newest one before, with the time of the call.
  pub read-add_secret :
      1 ≤ kept
      → (r : ReadSecretResponse crates) × ((read_secret crates key none
            (add_secret crates key body now db).1).0
          ≡ ok r)
        × (r.content ≡ some body)
        × (r.metadata.version ≡ newest key db + 1)
        × (r.metadata.created_time ≡ now)
  unfolding read_secret ◌>>=◌
  read-add_secret some_kept =
      let (m, found, is_newest) = version_metadata-newest crates.null_u32 key after null_is_zero in
      (
        record {
          content = some body;
          metadata = record {
            version = m.max_version;
            created_time = now;
            deleted = false;
            destroyed = false;
            min_version = m.min_version;
            max_version = m.max_version;
          };
        },
        rw (
          state-after,
          found,
          is_newest ∙ newest-after some_kept,
          get-after some_kept,
          crates.from_str-to_string body value encoded,
        ),
        refl,
        is_newest ∙ newest-after some_kept,
        refl,
      )

  -- Where the body has a text form, the newest version is not the last u32 and NULL reads as 0,
  -- what stands after an addition is the new row and the old ones, less those of the key that are
  -- at least as many versions behind the new one as the configuration keeps.
  pub add_secret-retains :
      (s : Secret)
      → In s (add_secret crates key body now db).1.secrets ↔ (
          ((s ≡ new_row) ⊎ In s db.secrets)
          × (has_key key s ≡ true → newest key db + 1 < s.version + kept))
  add_secret-retains s = (
    λ m.
        let (i, e) = delete-In (is_old key kept rows) rows s (rw state-after at m) in
        (In-cons s new_row db.secrets i, λ h. ground (arith, newest-rows)),
    λ k. rw state-after (
        In-delete (is_old key kept rows) rows s (cons-In s new_row db.secrets k.0)
          (elim (Bool-cases (has_key key s)) [
            | inl hit ↦ let far = k.1 hit in ground (arith, newest-rows)
            | inr miss ↦ rw miss
          ])),
  )

  get-none : kept ≡ 0 → (v : ℕ) → get key v after ≡ none
  unfolding get
  get-none none_kept v = first-none (has_version key v) after.secrets λ s m hit.
      let (i, e) = delete-In (is_old key kept rows) rows s m in
      ground (arith, newest-rows, version-le key rows s i (ground arith))

  -- Where the configuration keeps no version, the body has a text form, the newest version is not
  -- the last u32 and NULL reads as 0, a value is lost as soon as it is added: the call succeeds,
  -- and no read finds any version of the key.
  pub add_secret_keeps_none :
      (version : Option ℕ)
      → kept ≡ 0
      → (r : CreateSecretResponse) × ((add_secret crates key body now db).0 ≡ ok r)
        × ((read_secret crates key version (add_secret crates key body now db).1).0
            ≡ err key_version_not_found)
  unfolding read_secret ◌>>=◌
  add_secret_keeps_none version none_kept =
      let (m, is_newest, done) = add_secret_lem in
      let (m', found, _) = version_metadata-newest crates.null_u32 key after null_is_zero in
      (
        _,
        ap (λ x. x.0) done,
        rw (state-after, found, get-none none_kept (unwrap_or crates version m'.max_version)),
      )
