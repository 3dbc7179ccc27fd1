-- ===== src/Userpass/Refined.antt =====
-- backend/covert-userpass-auth/src: the table of users as a map from names to hashes.
use covert.Prelude.{
  ◌≡◌, refl, sym, ap, ◌∙◌, Bool, true, false, List, [], ◌∷◌, Option, none, some, Str, any, delete,
  update, str_eq, eq_of_str_eq, if◌then◌else◌, Result, ok, err, arith, inl, inr, Bool-cases,
  Option-cases, str_eq_iff,
}
use mathlib.Core.Path.{fun_ext}
use covert.Prelude.Exec.{◌>>=◌}
use covert.Ttl.{MountConfig}
use covert.Userpass.{
  User, Error, Bcrypt, is_user, storage, user_not_found, incorrect_password, unsupported_password,
  create, remove, get, update_password, user_by_username_and_password, login, create_user,
  update_user_password, remove_user,
}

pub data Call : Type 0 where
  logs_in : (username password : Str) → Call
  creates : (salt username password : Str) → Call
  changes : (salt username password new_password : Str) → Call
  removes : (username : Str) → Call

-- what the client is told: the name, or an error
abbrev pub Answer : Type 0
Answer = Result Error Str

abbrev pub Directory : Type 0
Directory = Str → Option Str

abbrev pub put : Str → Option Str → Directory → Directory
put name hash d k = if str_eq name k then hash else d k

module _ (bcrypt : Bcrypt) where
  abbrev pub checked : Str → Directory → Option Str → Result Error Str
  checked password d none = err user_not_found
  checked password d (some hash) =
      if bcrypt.verify password hash then ok hash else err incorrect_password

  abbrev pub stored : Str → Directory → Option Str → Answer × Directory
  stored name d none = (err unsupported_password, d)
  stored name d (some hash) = (ok name, put name (some hash) d)

  -- the handlers, over a map from names to hashes
  abbrev pub specified : Call → Directory → Answer × Directory
  specified (logs_in name password) d = elim (checked password d (d name)) [
    | ok hash ↦ (ok name, d)
    | err e ↦ (err e, d)
  ]
  specified (creates salt name password) d = elim (bcrypt.hash salt password) [
    | none ↦ (err unsupported_password, d)
    | some hash ↦ elim (d name) [
      | none ↦ (ok name, put name (some hash) d)
      | some old ↦ (err storage, d)
    ]
  ]
  specified (changes salt name password new_password) d = elim (checked password d (d name)) [
    | ok hash ↦ stored name d (bcrypt.hash salt new_password)
    | err e ↦ (err e, d)
  ]
  specified (removes name) d = (ok name, put name none d)

  module _ (config : MountConfig) where
    abbrev pub answered : Call → List User → Answer × List User
    answered (logs_in name password) users = elim (login bcrypt config name password users).0 [
      | ok auth ↦ (ok auth.alias, (login bcrypt config name password users).1)
      | err e ↦ (err e, (login bcrypt config name password users).1)
    ]
    answered (creates salt name password) users = create_user bcrypt salt name password users
    answered (changes salt name password new_password) users =
        update_user_password bcrypt salt name password new_password users
    answered (removes name) users = remove_user name users

abbrev pub password_of : Option User → Option Str
password_of none = none
password_of (some u) = some u.password

abbrev pub view : List User → Directory
view users name = password_of (get name users)

abbrev is_some : Option Str → Bool
is_some none = false
is_some (some s) = true

any-view : (name : Str) (users : List User) → any (is_user name) users ≡ is_some (view users name)
unfolding get
any-view name [] = refl
any-view name (u ∷ users) = ground (arith, any-view name users)

view-create :
    (u : User) (users : List User) (k : Str)
    → view (u ∷ users) k ≡ put u.username (some u.password) (view users) k
unfolding get
view-create u users k = ground (arith)

view-delete :
    (name : Str) (users : List User) (k : Str)
    → view (delete (is_user name) users) k ≡ put name none (view users) k
unfolding get
view-delete name [] k = ground (arith)
view-delete name (u ∷ users) k = ground (
  arith,
  view-delete name users k,
  str_eq_iff u.username name,
  str_eq_iff u.username k,
  str_eq_iff name k,
)

abbrev replaced : Str → Option Str → Option Str
replaced password none = none
replaced password (some hash) = some password

view-update :
    (name password : Str) (users : List User) (k : Str)
    → view (update (is_user name) (λ u. record u { password = password }) users) k
      ≡ (if str_eq name k then replaced password (view users k) else view users k)
unfolding get
view-update name password [] k = ground (arith)
view-update name password (u ∷ users) k = ground (
  arith,
  view-update name password users k,
  str_eq_iff u.username name,
  str_eq_iff u.username k,
  str_eq_iff name k,
)

view-update_present :
    (name password hash : Str) (users : List User)
    → view users name ≡ some hash
    → view (update (is_user name) (λ u. record u { password = password }) users)
      ≡ put name (some password) (view users)
view-update_present name password hash users h = fun_ext (λ k. elim (Bool-cases (str_eq name k)) [
  | inr e ↦ rw e (view-update name password users k ∙ rw e refl)
  | inl e ↦
      let found : view users k ≡ some hash = ap (view users) (sym (eq_of_str_eq name k e)) ∙ h in
      rw e (view-update name password users k ∙ rw (e, found) refl)
])

module _ (bcrypt : Bcrypt) (config : MountConfig) where
  abbrev Same : Call → List User → Type 0
  Same c users =
      specified bcrypt c (view users)
      ≡ ((answered bcrypt config c users).0, view (answered bcrypt config c users).1)

  logs_in-checked :
      (name password : Str) (users : List User) (r : Result Error User)
      → user_by_username_and_password bcrypt name password users ≡ r
      → login bcrypt config name password users ≡ (
        elim r [
          | ok u ↦ ok (record { alias = name; ttl = some config.default_lease_ttl })
          | err e ↦ err e
        ],
        users,
      )
  unfolding login ◌>>=◌
  logs_in-checked name password users (ok u) h = rw h refl
  logs_in-checked name password users (err e) h = rw h refl

  logs_in-Same : (name password : Str) (users : List User) → Same (logs_in name password) users
  unfolding user_by_username_and_password login
  logs_in-Same name password users = elim (Option-cases (get name users)) [
    | inl e ↦
        rw
          (
            e,
            specified,
            answered,
            logs_in-checked name password users (err user_not_found)
                (rw (e, user_by_username_and_password) refl),
          )
          refl
    | inr (u, e) ↦ elim (Bool-cases (bcrypt.verify password u.password)) [
      | inl v ↦
          rw
            (
              e,
              v,
              specified,
              answered,
              logs_in-checked name password users (ok u)
                  (rw (e, v, user_by_username_and_password) refl),
            )
            refl
      | inr v ↦
          rw
            (
              e,
              v,
              specified,
              answered,
              logs_in-checked name password users (err incorrect_password)
                  (rw (e, v, user_by_username_and_password) refl),
            )
            refl
    ]
  ]

  creates-Same :
      (salt name password : Str) (users : List User) → Same (creates salt name password) users
  unfolding create_user create ◌>>=◌
  creates-Same salt name password users = elim (Option-cases (bcrypt.hash salt password)) [
    | inl h ↦ rw (h, specified) refl
    | inr (hash, h) ↦ elim (Option-cases (view users name)) [
      | inl e ↦
          rw (h, specified, e, any-view name users ∙ ap is_some e)
            (ap (λ d. (ok name, d))
              (sym (fun_ext (view-create (record { username = name; password = hash }) users))))
      | inr (old, e) ↦ rw (h, specified, e, any-view name users ∙ ap is_some e) refl
    ]
  ]

  changes-Same :
      (salt name password new_password : Str) (users : List User)
      → Same (changes salt name password new_password) users
  unfolding update_user_password user_by_username_and_password update_password ◌>>=◌
  changes-Same salt name password new_password users = elim (Option-cases (get name users)) [
    | inl e ↦ rw (e, specified, user_by_username_and_password) refl
    | inr (u, e) ↦ elim (Bool-cases (bcrypt.verify password u.password)) [
      | inr v ↦ rw (e, v, specified, user_by_username_and_password) refl
      | inl v ↦ elim (Option-cases (bcrypt.hash salt new_password)) [
        | inl h ↦ rw (e, v, h, specified, user_by_username_and_password) refl
        | inr (hash, h) ↦
            rw (e, v, h, specified, user_by_username_and_password)
              (ap (λ d. (ok name, d))
                (sym (view-update_present name hash u.password users (ap password_of e))))
      ]
    ]
  ]

  removes-Same : (name : Str) (users : List User) → Same (removes name) users
  unfolding remove_user remove ◌>>=◌
  removes-Same name users = ap (λ d. (ok name, d)) (sym (fun_ext (view-delete name users)))

  answered-Same : (c : Call) (users : List User) → Same c users
  answered-Same (logs_in name password) users = logs_in-Same name password users
  answered-Same (creates salt name password) users = creates-Same salt name password users
  answered-Same (changes salt name password new_password) users =
      changes-Same salt name password new_password users
  answered-Same (removes name) users = removes-Same name users

  -- the answers to a sequence of calls
  abbrev pub answers : List Call → List User → List Answer
  answers [] users = []
  answers (c ∷ cs) users =
      (answered bcrypt config c users).0 ∷ answers cs (answered bcrypt config c users).1

  abbrev pub specified_answers : List Call → Directory → List Answer
  specified_answers [] d = []
  specified_answers (c ∷ cs) d =
      (specified bcrypt c d).0 ∷ specified_answers cs (specified bcrypt c d).1

  -- The answers to any sequence of logins, creations, changes of password and removals are those
  -- of a map from names to hashes: a login needs the password that the name was last given, a new
  -- user a name that is free, and a change the old password.
  pub answers-specified :
      (cs : List Call) (users : List User) → answers cs users ≡ specified_answers cs (view users)
  answers-specified [] users = refl
  answers-specified (c ∷ cs) users =
      let same = answered-Same c users in
      let rest = answers-specified cs (answered bcrypt config c users).1 in
      rw same (ap ((answered bcrypt config c users).0 ∷◌) rest)
