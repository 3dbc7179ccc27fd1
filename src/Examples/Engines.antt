-- ===== src/Examples/Engines.antt =====
-- Users with their passwords and the migrations of a backend, at concrete inputs.
use covert.Prelude.{◌≡◌, refl, List, [], ◌∷◌, ◌++◌, Option, some, Str, codes, ok, err, str_eq}
use covert.Userpass.{
  Bcrypt, user_not_found, incorrect_password, create_user, update_user_password, remove_user, login,
  create, remove, get, update_password, user_by_username_and_password,
}
use covert.Userpass.Refined.{
  Call, logs_in, creates, changes, removes, answers, specified_answers, view, answers-specified,
}
use covert.Prelude.Exec.{◌>>=◌}
use covert.Migrator.{MigrationScript, Store, latest_version, apply, apply_from, migrate}
use covert.Migrator.Resumed.{next_version, drop, apply_all, migrate-apply_all}
use covert.Examples.{config}

-- a hash that puts the salt in front of the password
abbrev bcrypt : Bcrypt
bcrypt = record {
  hash = λ salt password. some (salt ++ password);
  verify = λ password hash. str_eq (codes "s" ++ password) hash;
}

abbrev calls : List Call
calls =
    creates (codes "s") (codes "ann") (codes "pw")
    ∷ logs_in (codes "ann") (codes "no")
    ∷ changes (codes "s") (codes "ann") (codes "pw") (codes "new")
    ∷ logs_in (codes "ann") (codes "new")
    ∷ removes (codes "ann")
    ∷ logs_in (codes "ann") (codes "new")
    ∷ []

the_answers :
    answers bcrypt config calls []
    ≡ ok (codes "ann")
      ∷ err incorrect_password
      ∷ ok (codes "ann")
      ∷ ok (codes "ann")
      ∷ ok (codes "ann")
      ∷ err user_not_found
      ∷ []
unfolding create_user update_user_password remove_user login create remove get update_password
    user_by_username_and_password ◌>>=◌
the_answers = refl

answers-specified_example :
    answers bcrypt config calls [] ≡ specified_answers bcrypt config calls (view [])
answers-specified_example = answers-specified bcrypt config calls []

abbrev scoped : Str → Str → Option Str
scoped prefix script = some (prefix ++ script)

abbrev execute : Str → List Str → Option (List Str)
execute sql tables = some (sql ∷ tables)

abbrev first_script : MigrationScript
first_script = record { script = codes "a"; description = codes "first" }

abbrev second_script : MigrationScript
second_script = record { script = codes "b"; description = codes "second" }

abbrev scripts : List MigrationScript
scripts = first_script ∷ second_script ∷ []

abbrev fresh : Store (List Str)
fresh = record { applied = []; mounts = codes "m1" ∷ []; tables = [] }

-- the first script has been applied before
abbrev begun : Store (List Str)
begun = (migrate scoped (λ s. s) execute (codes "m1") (codes "p_") (first_script ∷ []) fresh).1

abbrev migrated : Store (List Str)
migrated = (migrate scoped (λ s. s) execute (codes "m1") (codes "p_") scripts begun).1

both_tables : migrated.tables ≡ codes "p_b" ∷ codes "p_a" ∷ []
unfolding migrate apply_from apply latest_version
both_tables = refl

migrate-apply_all_example :
    migrate scoped (λ s. s) execute (codes "m1") (codes "p_") scripts begun
    ≡ apply_all scoped
        (λ s. s)
        execute
        (codes "m1")
        (codes "p_")
        (next_version (codes "m1") begun.applied)
        (drop (next_version (codes "m1") begun.applied) scripts)
        begun
migrate-apply_all_example =
    migrate-apply_all scoped (λ s. s) execute (codes "m1") (codes "p_") scripts begun
