-- ===== src/Userpass.antt =====
-- backend/covert-userpass-auth/src: users and their passwords. bcrypt is a parameter, with the salt
-- that `hash` draws as an argument.
pub mod Refined
use covert.Prelude.{
  ℕ, not, Bool, true, false, List, ◌∷◌, map, Option, none, some, Str, any, first, select, delete,
  update, count, str_eq, if◌then◌else◌, Result, ok, err, ok_or, ◌==◌,
}
use covert.Prelude.Exec.{Exec, pure, query, ◌>>=◌}
use covert.Ttl.{MountConfig}
use covert.Expiration.Registration.{AuthResponse}

-- error.rs, `ErrorType`
pub data Error : Type 0 where
  storage bad_request user_not_found incorrect_password unsupported_password : Error

-- lib.rs, `User`
pub record User : Type 0 where
  pub username : Str
  pub password : Str

abbrev pub is_user : Str → User → Bool
is_user username u = str_eq u.username username

-- store/user.rs: the table USERS
-- `create`
unfoldable pub create : User → Exec (List User) Error Bool
create user users =
    if any (is_user user.username) users then (err storage, users) else (ok true, user ∷ users)

-- `remove`
unfoldable pub remove : Str → Exec (List User) Error Bool
remove username users = (ok (count (is_user username) users == 1), delete (is_user username) users)

-- `get`
unfoldable pub get : Str → List User → Option User
get username users = first (select (is_user username) users)

-- `update_password`
unfoldable pub update_password : Str → Str → Exec (List User) Error (Unit {0})
update_password username password users =
    (ok tt, update (is_user username) (λ u. record u { password = password }) users)

-- bcrypt: `hash` with its salt, and whether `verify` answers `Ok(true)`
pub record Bcrypt : Type 0 where
  pub hash : Str → Str → Option Str
  pub verify : Str → Str → Bool

module _ (bcrypt : Bcrypt) where
  open bcrypt use {hash, verify}

  -- `user_by_username_and_password`
  unfoldable pub user_by_username_and_password : Str → Str → List User → Result Error User
  unfolding get
  user_by_username_and_password username password users = elim (get username users) [
    | none ↦ err user_not_found
    | some user ↦ if verify password user.password then ok user else err incorrect_password
  ]

  -- `login`
  unfoldable pub login : MountConfig → Str → Str → Exec (List User) Error AuthResponse
  unfolding user_by_username_and_password ◌>>=◌
  login config username password = do
    user ← query (user_by_username_and_password username password)
    pure (record { alias = username; ttl = some config.default_lease_ttl })

  -- `create_user`
  unfoldable pub create_user : Str → Str → Str → Exec (List User) Error Str
  unfolding create ◌>>=◌
  create_user salt username password = do
    hashed ← query (λ _. ok_or (hash salt password) unsupported_password)
    created ← create (record { username = username; password = hashed })
    pure username

  -- `update_user_password`
  unfoldable pub update_user_password : Str → Str → Str → Str → Exec (List User) Error Str
  unfolding user_by_username_and_password update_password ◌>>=◌
  update_user_password salt username password new_password = do
    user ← query (user_by_username_and_password username password)
    hashed ← query (λ _. ok_or (hash salt new_password) unsupported_password)
    done ← update_password username hashed
    pure username

-- `remove_user`, which does not look at what was removed
unfoldable pub remove_user : Str → Exec (List User) Error Str
unfolding remove ◌>>=◌
remove_user username = do removed ← remove username; pure username

-- `list_users`
unfoldable pub list_users : List User → List Str
list_users users = map (λ u. u.username) users
