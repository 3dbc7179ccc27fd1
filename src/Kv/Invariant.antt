-- ===== src/Kv/Invariant.antt =====
-- backend/covert-kv/src: well-formed tables, and the requests that work on them.
use covert.Prelude.{
  ℕ, ◌≡◌, refl, Bool, true, false, ◌||◌, not, List, [], ◌∷◌, Option, Str, any, delete, update,
  arith, Bool-cases, inl, inr,
}
use covert.Prelude.Exec.{◌>>=◌, Keeps, keeps_rules}
use covert.Kv.Data.{Secret, Db, Crates}
use covert.Kv.Secrets
use covert.Kv.Secrets.{
  has_version, is_recoverable, destroyed_secret, update_versions, soft_deleted, recovered,
  hard_deleted, is_old,
}
use covert.Kv.Config
use covert.Kv.Handlers.{
  add_secret, read_secret, soft_delete_secret, path_undelete_write, hard_delete_secret, set_config,
  read_config, Call, adds, reads, soft_deletes, undeletes, destroys, sets_config, reads_config,
  step, run,
}

-- No two rows share key and version, and a row has a value exactly if it is not destroyed.
abbrev pub IsTable : List Secret → Type 0
IsTable [] = Unit {0}
IsTable (s ∷ r) =
    (any (has_version s.key s.version) r ≡ false) × (destroyed_secret s ≡ true) × IsTable r

-- What an UPDATE of the engine leaves alone, and the constraint that it keeps.
pub record KeepsRows (set : Secret → Secret) : Type 0 where
  pub key : (s : Secret) → (set s).key ≡ s.key
  pub version : (s : Secret) → (set s).version ≡ s.version
  pub consistent : (s : Secret) → destroyed_secret s ≡ true → destroyed_secret (set s) ≡ true

any-update :
    {set : Secret → Secret} (keeps : KeepsRows set) (test : Secret → Bool) (key : Str) (v : ℕ)
    (r : List Secret)
    → any (has_version key v) (update test set r) ≡ any (has_version key v) r
any-update keeps test key v [] = refl
any-update {set} keeps test key v (s ∷ r) =
    ground (arith, any-update keeps test key v r, keeps.key s, keeps.version s)

update-IsTable :
    {set : Secret → Secret} (keeps : KeepsRows set) (test : Secret → Bool) (r : List Secret)
    → IsTable r
    → IsTable (update test set r)
update-IsTable keeps test [] t = tt
update-IsTable {set} keeps test (s ∷ r) t = elim (Bool-cases (test s)) [
  | inl hit ↦
      rw (hit, keeps.key s, keeps.version s)
        (
          rw (any-update keeps test s.key s.version r) t.0,
          keeps.consistent s t.1,
          update-IsTable keeps test r t.2,
        )
  | inr miss ↦
      rw miss
        (rw (any-update keeps test s.key s.version r) t.0, t.1, update-IsTable keeps test r t.2)
]

update_versions-IsTable :
    {set : Secret → Secret} (keeps : KeepsRows set) (test : ℕ → Secret → Bool) (versions : List ℕ)
    (db : Db)
    → IsTable db.secrets
    → IsTable (update_versions test set versions db).1.secrets
update_versions-IsTable keeps test [] db t = t
update_versions-IsTable {set} keeps test (v ∷ vs) db t =
    update_versions-IsTable keeps test vs (record db { secrets = update (test v) set db.secrets })
      (update-IsTable keeps (test v) db.secrets t)

pub any-delete-false :
    (test p : Secret → Bool) (r : List Secret) → any p r ≡ false → any p (delete test r) ≡ false
any-delete-false test p [] h = refl
any-delete-false test p (s ∷ r) h = ground (arith, any-delete-false test p r)

delete-IsTable : (test : Secret → Bool) (r : List Secret) → IsTable r → IsTable (delete test r)
delete-IsTable test [] t = tt
delete-IsTable test (s ∷ r) t = elim (Bool-cases (test s)) [
  | inl hit ↦ rw hit (delete-IsTable test r t.2)
  | inr miss ↦ rw miss (any-delete-false test _ r t.0, t.1, delete-IsTable test r t.2)
]

soft_deleted-KeepsRows : KeepsRows soft_deleted
soft_deleted-KeepsRows = record { key = λ s. refl; version = λ s. refl; consistent = λ s h. h }

recovered-KeepsRows : KeepsRows recovered
recovered-KeepsRows = record { key = λ s. refl; version = λ s. refl; consistent = λ s h. h }

hard_deleted-KeepsRows : KeepsRows hard_deleted
hard_deleted-KeepsRows = record { key = λ s. refl; version = λ s. refl; consistent = λ s h. refl }

abbrev pub IsWellFormed : Db → Type 0
IsWellFormed db = IsTable db.secrets

insert-IsWellFormed : (s : Secret) → Keeps IsWellFormed (Secrets.insert s)
unfolding Secrets.insert
insert-IsWellFormed s = record {
  at = λ db t.
      elim (Bool-cases (any (has_version s.key s.version) db.secrets || not (destroyed_secret s))) [
        | inl bad ↦ rw bad t
        | inr good ↦ rw good (ground arith, ground arith, t)
      ];
}

load-IsWellFormed : Keeps IsWellFormed Config.load
unfolding Config.load
load-IsWellFormed = record { at = λ db t. ground arith }

prune-IsWellFormed :
    (key : Str) (n : ℕ) (db : Db)
    → IsWellFormed db
    → IsWellFormed (Secrets.prune_old_versions key n db)
unfolding Secrets.prune_old_versions
prune-IsWellFormed key n db t = delete-IsTable (is_old key n db.secrets) db.secrets t

add_secret-IsWellFormed :
    (crates : Crates) (key : Str) (body : crates.Json) (now : ℕ)
    → Keeps IsWellFormed (add_secret crates key body now)
unfolding add_secret
add_secret-IsWellFormed crates key body now =
    search (keeps_rules, insert-IsWellFormed, load-IsWellFormed, prune-IsWellFormed) depth 12

pub read_secret-state :
    (crates : Crates) (key : Str) (version : Option ℕ) (before : Db)
    → Keeps (λ db. db ≡ before) (read_secret crates key version)
unfolding read_secret
read_secret-state crates key version before = search keeps_rules depth 12

read_config-IsWellFormed : Keeps IsWellFormed read_config
unfolding read_config
read_config-IsWellFormed = search (keeps_rules, load-IsWellFormed)

-- Every request, failing or not, leaves well-formed tables well formed.
pub step-IsWellFormed :
    (crates : Crates) (db : Db) (c : Call crates)
    → IsWellFormed db
    → IsWellFormed (step crates db c)
unfolding ◌>>=◌ step soft_delete_secret path_undelete_write hard_delete_secret set_config
    Secrets.soft_delete Secrets.recover Secrets.hard_delete Config.set
step-IsWellFormed crates db (adds key body now) t =
    (add_secret-IsWellFormed crates key body now).at db t
step-IsWellFormed crates db (reads key version) t =
    rw ((read_secret-state crates key version db).at db refl) t
step-IsWellFormed crates db (soft_deletes key []) t = t
step-IsWellFormed crates db (soft_deletes key (v ∷ vs)) t =
    update_versions-IsTable soft_deleted-KeepsRows (has_version key) (v ∷ vs) db t
step-IsWellFormed crates db (undeletes key []) t = t
step-IsWellFormed crates db (undeletes key (v ∷ vs)) t =
    update_versions-IsTable recovered-KeepsRows (is_recoverable key) (v ∷ vs) db t
step-IsWellFormed crates db (destroys key []) t = t
step-IsWellFormed crates db (destroys key (v ∷ vs)) t =
    update_versions-IsTable hard_deleted-KeepsRows (has_version key) (v ∷ vs) db t
step-IsWellFormed crates db (sets_config n) t = t
step-IsWellFormed crates db reads_config t = read_config-IsWellFormed.at db t

-- After any sequence of requests, failing or not, well-formed tables are well formed: no two rows
-- share key and version, and a row has a value exactly if it is not destroyed.
pub run-IsWellFormed :
    (crates : Crates) (db : Db) (cs : List (Call crates))
    → IsWellFormed db
    → IsWellFormed (run crates db cs)
unfolding run
run-IsWellFormed crates db [] t = t
run-IsWellFormed crates db (c ∷ cs) t =
    run-IsWellFormed crates (step crates db c) cs (step-IsWellFormed crates db c t)
