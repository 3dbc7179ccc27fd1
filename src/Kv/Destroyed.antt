-- ===== src/Kv/Destroyed.antt =====
-- backend/covert-kv/src: requests to a mount after a version was destroyed.
use covert.Prelude.{
  ℕ, ◌≡◌, ◌≢◌, refl, sym, ap, ◌∙◌, true, false, List, [], ◌∷◌, Str, any, All, none, some, arith, ok,
  inl, inr, Option-cases, eq_of_str_eq, In, select, first,
}
use covert.Prelude.Exec.{◌>>=◌, Keeps, keeps_rules}
use covert.Kv.Data.{Secret, Db, Crates}
use covert.Kv.Secrets
use covert.Kv.Secrets.{
  has_version, has_key, is_recoverable, is_old, soft_deleted, recovered, hard_deleted, get,
}
use covert.Kv.Config
use covert.Kv.Handlers.{
  add_secret, read_secret, soft_delete_secret, path_undelete_write, hard_delete_secret, set_config,
  read_config, Call, adds, reads, soft_deletes, undeletes, destroys, sets_config, reads_config,
  step, run, ReadSecretResponse,
}
use covert.Kv.Invariant.{any-delete-false, read_secret-state}
use covert.Kv.Deletion.{IsDestroyed, update_versions-IsDestroyed, hard_delete-IsDestroyed}
use covert.Kv.Reads.{read_secret-live}

abbrev pub AddsNo : (crates : Crates) → Str → Call crates → Type 0
AddsNo crates key (adds k body now) = k ≢ key
AddsNo crates key _ = Unit {0}

module _ (key : Str) (v : ℕ) where
  abbrev pub Gone : Db → Type 0
  Gone db = IsDestroyed key v db.secrets

  insert-Gone : (s : Secret) → s.key ≢ key → Keeps Gone (Secrets.insert s)
  unfolding Secrets.insert
  insert-Gone s other = record { at = λ db h. ground (arith, eq_of_str_eq s.key key) }

  load-Gone : Keeps Gone Config.load
  unfolding Config.load
  load-Gone = record { at = λ db h. ground arith }

  prune-Gone : (k : Str) (n : ℕ) (db : Db) → Gone db → Gone (Secrets.prune_old_versions k n db)
  unfolding Secrets.prune_old_versions
  prune-Gone k n db h = any-delete-false (is_old k n db.secrets) (is_recoverable key v) db.secrets h

  add_secret-Gone :
      (crates : Crates) (k : Str) (body : crates.Json) (now : ℕ)
      → k ≢ key
      → Keeps Gone (add_secret crates k body now)
  unfolding add_secret
  add_secret-Gone crates k body now other =
      search (keeps_rules, insert-Gone, load-Gone, prune-Gone) depth 12

  read_config-Gone : Keeps Gone read_config
  unfolding read_config
  read_config-Gone = search (keeps_rules, load-Gone)

  step-Gone :
      (crates : Crates) (db : Db) (c : Call crates)
      → AddsNo crates key c
      → Gone db
      → Gone (step crates db c)
  unfolding step soft_delete_secret path_undelete_write hard_delete_secret set_config
      Secrets.soft_delete Secrets.recover Secrets.hard_delete Config.set ◌>>=◌
  step-Gone crates db (adds k body now) other h = (add_secret-Gone crates k body now other).at db h
  step-Gone crates db (reads k w) _ h = rw ((read_secret-state crates k w db).at db refl) h
  step-Gone crates db (soft_deletes k []) _ h = h
  step-Gone crates db (soft_deletes k (w ∷ ws)) _ h =
      update_versions-IsDestroyed (has_version k) soft_deleted key v (λ s e. e) (w ∷ ws) db h
  step-Gone crates db (undeletes k []) _ h = h
  step-Gone crates db (undeletes k (w ∷ ws)) _ h =
      update_versions-IsDestroyed (is_recoverable k) recovered key v (λ s e. e) (w ∷ ws) db h
  step-Gone crates db (destroys k []) _ h = h
  step-Gone crates db (destroys k (w ∷ ws)) _ h =
      update_versions-IsDestroyed (has_version k) hard_deleted key v (λ s e. ground arith) (w ∷ ws)
        db h
  step-Gone crates db (sets_config n) _ h = h
  step-Gone crates db reads_config _ h = read_config-Gone.at db h

  run-Gone :
      (crates : Crates) (db : Db) (cs : List (Call crates))
      → All (AddsNo crates key) cs
      → Gone db
      → Gone (run crates db cs)
  unfolding run
  run-Gone crates db [] a h = h
  run-Gone crates db (c ∷ cs) a h =
      run-Gone crates (step crates db c) cs a.1 (step-Gone crates db c a.0 h)

first-any :
    (key : Str) (v : ℕ) (rows : List Secret) (s : Secret)
    → first (select (has_version key v) rows) ≡ some s
    → s.destroyed ≡ false
    → any (is_recoverable key v) rows ≡ true
first-any key v [] s e h = absurd (cc)
first-any key v (x ∷ rows) s e h = ground (arith, first-any key v rows s)

read_secret-version :
    (crates : Crates) (key : Str) (v : ℕ) (db : Db) (r : ReadSecretResponse crates)
    → (read_secret crates key (some v) db).0 ≡ ok r
    → r.metadata.version ≡ v
unfolding read_secret ◌>>=◌
read_secret-version crates key v db r h = ground arith

hard_delete_secret-Gone :
    (key : Str) (v : ℕ) (vs : List ℕ) (db : Db)
    → In v vs
    → Gone key v (hard_delete_secret key vs db).1
unfolding hard_delete_secret
hard_delete_secret-Gone key v [] db m = elim m [ ]
hard_delete_secret-Gone key v (w ∷ ws) db m = hard_delete-IsDestroyed key v (w ∷ ws) db m

-- Once a version has been destroyed, no read of it shows content, after any requests that do not
-- add to its key.
pub destroyed_unreadable :
    (crates : Crates) (key : Str) (v : ℕ) (vs : List ℕ) (db : Db) (cs : List (Call crates))
    (r : ReadSecretResponse crates)
    → In v vs
    → All (AddsNo crates key) cs
    → (read_secret crates key (some v) (run crates (hard_delete_secret key vs db).1 cs)).0 ≡ ok r
    → r.content ≡ none
unfolding get
destroyed_unreadable crates key v vs db cs r m quiet h = elim (Option-cases r.content) [
  | inl e ↦ e
  | inr (j, e) ↦
      let after : Db = run crates (hard_delete_secret key vs db).1 cs in
      let (s, found, _, whole) = read_secret-live crates key (some v) after r j h e in
      let found_v =
        ap (λ w. get key w after) (sym (read_secret-version crates key v after r h)) ∙ found in
      let gone =
        run-Gone key v crates (hard_delete_secret key vs db).1 cs quiet
          (hard_delete_secret-Gone key v vs db m) in
      absurd (cc (first-any key v after.secrets s found_v whole, gone))
]
