-- ===== src/Kv/Rows.antt =====
-- backend/covert-kv/src/store/secrets.rs: the update loops, row by row.
use covert.Prelude.{
  ℕ, ◌≤◌, ◌≡◌, refl, ap, ◌∙◌, Bool, not, List, [], ◌∷◌, map, any, update, count, count-pos,
  count-zero, select, select-eq, if◌then◌else◌, arith, ok, inl, inr, Bool-cases,
}
use covert.Kv.Data.{Secret, Db}
use covert.Kv.Secrets.{update_versions}

module _ (test : ℕ → Secret → Bool) (set : Secret → Secret) where
  -- what the loop makes of one row
  abbrev pub row_after : List ℕ → Secret → Secret
  row_after [] s = s
  row_after (v ∷ vs) s = row_after vs (if test v s then set s else s)

  map-row_after :
      (v : ℕ) (vs : List ℕ) (rows : List Secret)
      → map (row_after vs) (update (test v) set rows) ≡ map (row_after (v ∷ vs)) rows
  map-row_after v vs [] = refl
  map-row_after v vs (s ∷ rows) = ap (◌∷◌ (row_after (v ∷ vs) s)) (map-row_after v vs rows)

  pub update_versions-state :
      (vs : List ℕ) (db : Db)
      → (update_versions test set vs db).1 ≡ record db { secrets = map (row_after vs) db.secrets }
  update_versions-state [] db = ap (λ r. record db { secrets = r }) (map_self db.secrets)
    where
      map_self : (rows : List Secret) → rows ≡ map (row_after []) rows
      map_self [] = refl
      map_self (s ∷ rows) = ap (◌∷◌ s) (map_self rows)
  update_versions-state (v ∷ vs) db =
      update_versions-state vs (record db { secrets = update (test v) set db.secrets })
      ∙ ap (λ r. record db { secrets = r }) (map-row_after v vs db.secrets)

module _ (test : ℕ → Secret → Bool) (set : Secret → Secret)
    (same_test : (w : ℕ) (s : Secret) → test w (set s) ≡ test w s)
    (same_set : (s : Secret) → set (set s) ≡ set s) where
  any_same : (vs : List ℕ) (s : Secret) → any (λ v. test v (set s)) vs ≡ any (λ v. test v s) vs
  any_same [] s = refl
  any_same (v ∷ vs) s = ground (arith, same_test v s, any_same vs s)

  pub row_after-any :
      (vs : List ℕ) (s : Secret)
      → row_after test set vs s ≡ (if any (λ v. test v s) vs then set s else s)
  row_after-any [] s = refl
  row_after-any (v ∷ vs) s = elim (Bool-cases (test v s)) [
    | inl hit ↦ rw hit (row_after-any vs (set s) ∙ ground (arith, same_set s))
    | inr miss ↦ rw miss (row_after-any vs s)
  ]

  any_rows_same :
      (v w : ℕ) (rows : List Secret) → any (test w) (update (test v) set rows) ≡ any (test w) rows
  any_rows_same v w [] = refl
  any_rows_same v w (s ∷ rows) = ground (arith, same_test w s, any_rows_same v w rows)

  count_same :
      (v w : ℕ) (rows : List Secret)
      → count (test w) (update (test v) set rows) ≡ count (test w) rows
  count_same v w [] = refl
  count_same v w (s ∷ rows) = ground (arith, same_test w s, count_same v w rows)

  -- With at most one row for each version, the result lists the versions that have none.
  pub update_versions-missed :
      (vs : List ℕ) (db : Db)
      → ((w : ℕ) → count (test w) db.secrets ≤ 1)
      → (update_versions test set vs db).0 ≡ ok (select (λ v. not (any (test v) db.secrets)) vs)
  update_versions-missed [] db one = refl
  update_versions-missed (v ∷ vs) db one =
      rw
        (update_versions-missed vs (record db { secrets = update (test v) set db.secrets })
          (λ w. omega (arith, count_same v w db.secrets, one w)))
        (rw
          (select-eq (λ w. not (any (test w) (update (test v) set db.secrets)))
            (λ w. not (any (test w) db.secrets)) (λ w. ap not (any_rows_same v w db.secrets)) vs)
          (ground (arith, one v, count-pos (test v) db.secrets, count-zero (test v) db.secrets)))
