-- ===== src/Kv/Deletion.antt =====
-- backend/covert-kv/src: deleting, recovering and destroying versions of a secret.
use covert.Prelude.{
  ℕ, ◌≤◌, ◌≡◌, refl, sym, ap, ◌∙◌, Bool, true, false, ◌&&◌, not, List, [], ◌∷◌, Str, map, any, All,
  count, select, count-zero, count-le, if◌then◌else◌, arith, ok, inl, inr, Bool-cases, eq_of_str_eq,
  In, here, there,
}
use covert.Kv.Data.{Secret, Db}
use covert.Kv.Secrets.{
  has_version, is_recoverable, update_versions, soft_deleted, recovered, hard_deleted, soft_delete,
  recover, hard_delete,
}
use covert.Prelude.Exec.{◌>>=◌}
use covert.Kv.Handlers.{soft_delete_secret, path_undelete_write}
use covert.Kv.Invariant.{IsTable}
use covert.Kv.Rows.{row_after, row_after-any, update_versions-state, update_versions-missed}

count-has_version :
    (key : Str) (v : ℕ) (rows : List Secret) → IsTable rows → count (has_version key v) rows ≤ 1
count-has_version key v [] t = omega arith
count-has_version key v (s ∷ rows) t = elim (Bool-cases (has_version key v s)) [
  | inl hit ↦
      let same_key : s.key ≡ key = eq_of_str_eq s.key key (ground arith) in
      let same_version : s.version ≡ v = ground arith in
      let alone : any (has_version key v) rows ≡ false =
        ap (λ k. any (has_version k v) rows) (sym same_key)
        ∙ ap (λ w. any (has_version s.key w) rows) (sym same_version)
        ∙ t.0 in
      rw hit (omega (arith, count-zero (has_version key v) rows alone))
  | inr miss ↦ rw miss (omega (arith, count-has_version key v rows t.2))
]

-- On tables where no two rows share key and version, a soft delete answers with exactly the
-- versions that have no row.
soft_delete-missed :
    (key : Str) (vs : List ℕ) (db : Db)
    → IsTable db.secrets
    → (soft_delete key vs db).0 ≡ ok (select (λ v. not (any (has_version key v) db.secrets)) vs)
unfolding soft_delete
soft_delete-missed key vs db t =
    update_versions-missed (has_version key) soft_deleted (λ w s. refl) (λ s. refl) vs db
      (λ w. count-has_version key w db.secrets t)

-- On tables where no two rows share key and version, a destroy answers with exactly the versions
-- that have no row.
hard_delete-missed :
    (key : Str) (vs : List ℕ) (db : Db)
    → IsTable db.secrets
    → (hard_delete key vs db).0 ≡ ok (select (λ v. not (any (has_version key v) db.secrets)) vs)
unfolding hard_delete
hard_delete-missed key vs db t =
    update_versions-missed (has_version key) hard_deleted (λ w s. refl) (λ s. refl) vs db
      (λ w. count-has_version key w db.secrets t)

-- On tables where no two rows share key and version, an undelete answers with exactly the versions
-- that have no row which is not destroyed.
recover-missed :
    (key : Str) (vs : List ℕ) (db : Db)
    → IsTable db.secrets
    → (recover key vs db).0 ≡ ok (select (λ v. not (any (is_recoverable key v) db.secrets)) vs)
unfolding recover
recover-missed key vs db t =
    update_versions-missed (is_recoverable key) recovered (λ w s. refl) (λ s. refl) vs db
      (λ w. omega (
        arith,
        count-le (is_recoverable key w) (has_version key w) (λ s h. ground arith) db.secrets,
        count-has_version key w db.secrets t,
      ))

-- the rows of the given versions that a client could read
abbrev pub AreLive : Str → List ℕ → List Secret → Type 0
AreLive key vs =
    All
      (λ s. any (λ v. has_version key v s) vs ≡ true → (s.deleted ≡ false) × (s.destroyed ≡ false))

any-recoverable :
    (key : Str) (vs : List ℕ) (s : Secret)
    → any (λ v. is_recoverable key v s) vs ≡ (any (λ v. has_version key v s) vs && not s.destroyed)
any-recoverable key [] s = refl
any-recoverable key (v ∷ vs) s = ground (arith, any-recoverable key vs s)

row_round_trip :
    (key : Str) (vs : List ℕ) (s : Secret)
    → (any (λ v. has_version key v s) vs ≡ true → (s.deleted ≡ false) × (s.destroyed ≡ false))
    → row_after (is_recoverable key) recovered vs (row_after (has_version key) soft_deleted vs s)
      ≡ s
row_round_trip key vs s live =
    rw (row_after-any (has_version key) soft_deleted (λ w t. refl) (λ t. refl) vs s)
      (elim (Bool-cases (any (λ v. has_version key v s) vs)) [
        | inl hit ↦ rw hit (
            row_after-any (is_recoverable key) recovered (λ w t. refl) (λ t. refl) vs
              (soft_deleted s)
            ∙ ground (arith, any-recoverable key vs (soft_deleted s), live hit))
        | inr miss ↦ rw miss (
            row_after-any (is_recoverable key) recovered (λ w t. refl) (λ t. refl) vs s
            ∙ ground (arith, any-recoverable key vs s))
      ])

rows_round_trip :
    (key : Str) (vs : List ℕ) (rows : List Secret)
    → AreLive key vs rows
    → map
        (row_after (is_recoverable key) recovered vs)
        (map (row_after (has_version key) soft_deleted vs) rows)
      ≡ rows
rows_round_trip key vs [] live = refl
rows_round_trip key vs (s ∷ rows) live =
    ground (arith, row_round_trip key vs s live.0, rows_round_trip key vs rows live.1)

-- Undeleting what was just deleted gives the tables back, if the rows of the named versions were
-- neither deleted nor destroyed before.
pub undelete-soft_delete :
    (key : Str) (vs : List ℕ) (db : Db)
    → AreLive key vs db.secrets
    → (path_undelete_write key vs (soft_delete_secret key vs db).1).1 ≡ db
unfolding path_undelete_write soft_delete_secret recover soft_delete
undelete-soft_delete key [] db live = unfold ◌>>=◌ in refl
undelete-soft_delete key (v ∷ vs) db live =
    let deleted : Db = (update_versions (has_version key) soft_deleted (v ∷ vs) db).1 in
    update_versions-state (is_recoverable key) recovered (v ∷ vs) deleted
    ∙ ap
        (λ (d : Db). record d {
          secrets = map (row_after (is_recoverable key) recovered (v ∷ vs)) d.secrets;
        })
        (update_versions-state (has_version key) soft_deleted (v ∷ vs) db)
    ∙ ap (λ r. record db { secrets = r }) (rows_round_trip key (v ∷ vs) db.secrets live)

-- no row of the version is left that is not destroyed
abbrev pub IsDestroyed : Str → ℕ → List Secret → Type 0
IsDestroyed key v rows = any (is_recoverable key v) rows ≡ false

any-map :
    (p q : Secret → Bool) (f : Secret → Secret)
    → ((s : Secret) → p s ≡ false → q (f s) ≡ false)
    → (rows : List Secret) → any p rows ≡ false
    → any q (map f rows) ≡ false
any-map p q f h [] e = refl
any-map p q f h (s ∷ rows) e = ground (arith, h s, any-map p q f h rows)

row_destroyed :
    (test : ℕ → Secret → Bool) (set : Secret → Secret)
    → (key : Str) (v : ℕ)
    → ((s : Secret) → is_recoverable key v s ≡ false → is_recoverable key v (set s) ≡ false)
    → (vs : List ℕ) (s : Secret) → is_recoverable key v s ≡ false
    → is_recoverable key v (row_after test set vs s) ≡ false
row_destroyed test set key v keep [] s h = h
row_destroyed test set key v keep (w ∷ vs) s h =
    row_destroyed test set key v keep vs (if test w s then set s else s) (ground (arith, keep s))

row_hard_deleted :
    (key : Str) (v : ℕ) (vs : List ℕ) (s : Secret)
    → In v vs
    → is_recoverable key v (row_after (has_version key) hard_deleted vs s) ≡ false
row_hard_deleted key v [] s m = elim m [ ]
row_hard_deleted key v (w ∷ vs) s (here e) =
    row_destroyed (has_version key) hard_deleted key v (λ t h. ground arith) vs
      (if has_version key w s then hard_deleted s else s) (ground arith)
row_hard_deleted key v (w ∷ vs) s (there m) =
    row_hard_deleted key v vs (if has_version key w s then hard_deleted s else s) m

any-map_all :
    (q : Secret → Bool) (f : Secret → Secret)
    → ((s : Secret) → q (f s) ≡ false)
    → (rows : List Secret) → any q (map f rows) ≡ false
any-map_all q f h [] = refl
any-map_all q f h (s ∷ rows) = ground (arith, h s, any-map_all q f h rows)

-- A destroy leaves no row that is not destroyed under the versions that it names.
pub hard_delete-IsDestroyed :
    (key : Str) (v : ℕ) (vs : List ℕ) (db : Db)
    → In v vs
    → IsDestroyed key v (hard_delete key vs db).1.secrets
unfolding hard_delete
hard_delete-IsDestroyed key v vs db m =
    rw (ap (λ (d : Db). d.secrets) (update_versions-state (has_version key) hard_deleted vs db)) (
      any-map_all (is_recoverable key v) (row_after (has_version key) hard_deleted vs)
        (λ s. row_hard_deleted key v vs s m) db.secrets)

pub update_versions-IsDestroyed :
    (test : ℕ → Secret → Bool) (set : Secret → Secret) (key : Str) (v : ℕ)
    → ((s : Secret) → is_recoverable key v s ≡ false → is_recoverable key v (set s) ≡ false)
    → (vs : List ℕ) (db : Db) → IsDestroyed key v db.secrets
    → IsDestroyed key v (update_versions test set vs db).1.secrets
update_versions-IsDestroyed test set key v keep vs db h =
    rw (ap (λ (d : Db). d.secrets) (update_versions-state test set vs db)) (
      any-map (is_recoverable key v) (is_recoverable key v) (row_after test set vs)
        (λ s. row_destroyed test set key v keep vs s) db.secrets h)
