-- ===== src/Examples/Secrets.antt =====
-- A key-value mount, at concrete inputs. A JSON value is its own text here.
use covert.Prelude.{
  ℕ, ◌+◌, ◌≡◌, ◌↔◌, ◌<◌, ◌⊎◌, refl, sym, true, false, [], ◌∷◌, none, some, Str, codes, ok, err,
  arith, In, here,
}
use covert.Prelude.Exec.{◌>>=◌}
use covert.Kv.Data.{Secret, Db, Crates, CreateSecretResponse, key_version_not_found}
use covert.Kv.Secrets
use covert.Kv.Secrets.{get, has_key, has_version, is_recoverable, soft_delete, hard_delete, recover}
use covert.Kv.Handlers.{
  add_secret, read_secret, soft_delete_secret, path_undelete_write, hard_delete_secret,
  ReadSecretResponse, undeletes, sets_config, run, step,
}
use covert.Kv.Invariant.{IsWellFormed, run-IsWellFormed}
use covert.Kv.Deletion.{undelete-soft_delete}
use covert.Kv.Destroyed.{destroyed_unreadable}
use covert.Kv.Adds.{
  newest, new_row, kept, read-add_secret, add_secret-retains, add_secret_keeps_none,
}

abbrev plain_text : Crates
plain_text = record {
  Json = Str;
  to_string = λ j. ok j;
  from_str = λ s. ok s;
  from_str-to_string = λ j s e. sym e;
  null_u32 = ok 0;
}

abbrev row : ℕ → Secret
row version = record {
  key = codes "k";
  version = version;
  value = some (codes "x");
  created_time = version;
  deleted = false;
  destroyed = false;
}

abbrev db : Db
db = record { secrets = row 2 ∷ row 1 ∷ []; config = none }

db-IsWellFormed : IsWellFormed db
db-IsWellFormed = (refl, refl, (refl, refl, tt))

run-IsWellFormed_example :
    IsWellFormed (run plain_text db (undeletes (codes "k") (1 ∷ []) ∷ sets_config 3 ∷ []))
run-IsWellFormed_example =
    run-IsWellFormed plain_text db (undeletes (codes "k") (1 ∷ []) ∷ sets_config 3 ∷ [])
      db-IsWellFormed

undelete-soft_delete_example :
    (path_undelete_write
      (codes "k")
      (2 ∷ 1 ∷ [])
      (soft_delete_secret (codes "k") (2 ∷ 1 ∷ []) db).1).1
    ≡ db
undelete-soft_delete_example =
    undelete-soft_delete (codes "k") (2 ∷ 1 ∷ []) db
      ((λ _. (refl, refl)), ((λ _. (refl, refl)), tt))

read_back :
    (r : ReadSecretResponse plain_text) × ((read_secret plain_text (codes "k") (some 1) (
        run plain_text
          (hard_delete_secret (codes "k") (1 ∷ []) db).1
          (undeletes (codes "k") (1 ∷ []) ∷ []))).0
      ≡ ok r)
unfolding read_secret run ◌>>=◌ Secrets.version_metadata step path_undelete_write recover
    hard_delete_secret hard_delete get
read_back = (_, refl)

destroyed_unreadable_example : read_back.0.content ≡ none
destroyed_unreadable_example =
    destroyed_unreadable plain_text (codes "k") 1 (1 ∷ []) db (undeletes (codes "k") (1 ∷ []) ∷ [])
      read_back.0 (here refl) (tt, tt) read_back.1

encoded : plain_text.to_string (codes "y") ≡ ok (codes "y")
encoded = refl

abbrev added : Db
added = (add_secret plain_text (codes "k") (codes "y") 7 db).1

read-add_secret_example :
    (r : ReadSecretResponse plain_text) × ((read_secret plain_text (codes "k") none added).0 ≡ ok r)
    × (r.content ≡ some (codes "y"))
    × (r.metadata.version ≡ newest (codes "k") db + 1)
    × (r.metadata.created_time ≡ 7)
read-add_secret_example =
    read-add_secret plain_text (codes "k") (codes "y") 7 db (codes "y") refl refl (omega arith)
      (omega arith)

add_secret-retains_example : In (row 1) added.secrets ↔ (
    ((row 1 ≡ new_row plain_text (codes "k") (codes "y") 7 db (codes "y") refl refl (omega arith))
      ⊎ In (row 1) db.secrets)
    × (has_key (codes "k") (row 1) ≡ true
        → newest (codes "k") db + 1
          < 1 + kept plain_text (codes "k") (codes "y") 7 db (codes "y") refl refl (omega arith)))
add_secret-retains_example =
    add_secret-retains plain_text (codes "k") (codes "y") 7 db (codes "y") refl refl (omega arith)
      (row 1)

abbrev keeping_none : Db
keeping_none = record db { config = some (record { max_versions = 0 }) }

add_secret_keeps_none_example :
    (r : CreateSecretResponse) × ((add_secret plain_text (codes "k") (codes "y") 7 keeping_none).0
      ≡ ok r)
    × ((read_secret plain_text
          (codes "k")
          none
          (add_secret plain_text (codes "k") (codes "y") 7 keeping_none).1).0
        ≡ err key_version_not_found)
add_secret_keeps_none_example =
    add_secret_keeps_none plain_text (codes "k") (codes "y") 7 keeping_none (codes "y") refl refl
      (omega arith) none refl
