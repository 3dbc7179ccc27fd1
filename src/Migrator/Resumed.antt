-- ===== src/Migrator/Resumed.antt =====
-- covert-storage/src/migrator.rs: migrating with a table of migrations that is not empty.
use covert.Prelude.{
  ℕ, ◌+◌, ◌≤◌, ◌<◌, ◌≡◌, refl, sym, ap, ◌∙◌, true, false, List, [], ◌∷◌, map, Option, none, some,
  Str, any, select, length, str_eq, str_eq_refl, max, ok, err, arith, inl, inr, Bool-cases,
  Option-cases, Result-cases, ◌||◌, not, zero, suc,
}
use covert.Prelude.Exec.{Exec}
use covert.Migrator.{
  MigrationScript, MigrationError, Migration, Store, max_of, latest_version, is_applied,
  same_version, apply, apply_from, migrate,
}

-- the first version that has not been applied
abbrev next_of : Option ℕ → ℕ
next_of none = 0
next_of (some v) = v + 1

abbrev pub next_version : Str → List Migration → ℕ
next_version mount_id rows = next_of (latest_version mount_id rows)

abbrev pub drop {ℓ} : {A : Type ℓ} → ℕ → List A → List A
drop zero xs = xs
drop (suc n) [] = []
drop (suc n) (x ∷ xs) = drop n xs

is_applied-next : (last : Option ℕ) (v : ℕ) → v < next_of last → is_applied last v ≡ true
is_applied-next none v h = absurd (omega arith)
is_applied-next (some w) v h = ground arith

is_applied-not : (last : Option ℕ) (v : ℕ) → next_of last ≤ v → is_applied last v ≡ false
is_applied-not none v h = refl
is_applied-not (some w) v h = ground arith

next-max_of : (v : ℕ) (vs : List ℕ) → next_of (max_of (v ∷ vs)) ≡ max (v + 1) (next_of (max_of vs))
next-max_of v vs = elim (Option-cases (max_of vs)) [
  | inl e ↦ rw e (omega arith)
  | inr (w, e) ↦ rw e (omega arith)
]

drop-all {ℓ} : {A : Type ℓ} (n : ℕ) (xs : List A) → length xs ≤ n → drop n xs ≡ []
drop-all zero [] h = refl
drop-all zero (x ∷ xs) h = absurd (omega arith)
drop-all (suc n) [] h = refl
drop-all (suc n) (x ∷ xs) h = drop-all n xs (omega arith)

length-drop {ℓ} : {A : Type ℓ} (n : ℕ) (xs : List A) → length xs ≤ n + length (drop n xs)
length-drop zero xs = omega arith
length-drop (suc n) [] = omega arith
length-drop (suc n) (x ∷ xs) = omega (arith, length-drop n xs)

module _ {D : Type 0} (scoped : Str → Str → Option Str) (digest : Str → Str)
    (execute : Str → D → Option D) (mount_id prefix : Str) where
  abbrev go : Option ℕ → ℕ → List MigrationScript → Exec (Store D) MigrationError (Unit {0})
  go = apply_from scoped digest execute mount_id prefix

  -- the scripts one after the other, with the versions from `version` on
  abbrev pub apply_all : ℕ → List MigrationScript → Exec (Store D) MigrationError (Unit {0})
  apply_all version [] s = (ok tt, s)
  apply_all version (m ∷ ms) s = elim (apply scoped digest execute mount_id prefix version m s).0 [
    | err e ↦ (err e, (apply scoped digest execute mount_id prefix version m s).1)
    | ok done ↦
        apply_all (version + 1) ms (apply scoped digest execute mount_id prefix version m s).1
  ]

  apply_from-fresh :
      (last : Option ℕ) (v : ℕ) (ms : List MigrationScript) (s : Store D)
      → next_of last ≤ v
      → go last v ms s ≡ apply_all v ms s
  unfolding apply_from
  apply_from-fresh last v [] s h = refl
  apply_from-fresh last v (m ∷ ms) s h =
      elim (Result-cases (apply scoped digest execute mount_id prefix v m s).0) [
        | inl (u, e) ↦
            rw (apply_from, is_applied-not last v h, e, apply_all)
              (apply_from-fresh last (v + 1) ms
                (apply scoped digest execute mount_id prefix v m s).1 (omega arith))
        | inr (x, e) ↦ rw (apply_from, is_applied-not last v h, e, apply_all) refl
      ]

  apply_from-drop :
      (last : Option ℕ) (v : ℕ) (k : ℕ) (ms : List MigrationScript) (s : Store D)
      → next_of last ≡ v + k
      → go last v ms s ≡ apply_all (v + k) (drop k ms) s
  unfolding apply_from
  apply_from-drop last v zero ms s h =
      apply_from-fresh last v ms s (omega arith) ∙ ap (λ w. apply_all w ms s) (omega arith)
  apply_from-drop last v (suc k) [] s h = refl
  apply_from-drop last v (suc k) (m ∷ ms) s h =
      rw (apply_from, is_applied-next last v (omega arith))
        (apply_from-drop last (v + 1) k ms s (omega arith)
          ∙ ap (λ w. apply_all w (drop k ms) s) (omega arith))

  -- Migrating applies, one after the other up to the first that fails, exactly the scripts from
  -- the first version that is higher than all that the table has for the mount.
  pub migrate-apply_all :
      (ms : List MigrationScript) (s : Store D)
      → migrate scoped digest execute mount_id prefix ms s
        ≡ apply_all (next_version mount_id s.applied) (drop (next_version mount_id s.applied) ms) s
  unfolding migrate
  migrate-apply_all ms s =
      let next = next_version mount_id s.applied in
      apply_from-drop (latest_version mount_id s.applied) 0 next ms s (omega arith)
      ∙ ap (λ w. apply_all w (drop next ms) s) (omega arith)

  apply-next :
      (v : ℕ) (m : MigrationScript) (s t : Store D) (u : Unit {0})
      → apply scoped digest execute mount_id prefix v m s ≡ (ok u, t)
      → next_version mount_id t.applied ≡ max (v + 1) (next_version mount_id s.applied)
  unfolding apply latest_version
  apply-next v m s t u h = elim (Option-cases (scoped prefix m.script)) [
    | inl e ↦ absurd (ground (arith, ap (λ p. p.0) (rw (e, apply) at h)))
    | inr (sql, e) ↦
        elim (Bool-cases (
          any (same_version mount_id v) s.applied
          || not (any (λ id. str_eq id mount_id) s.mounts))) [
            | inl f ↦ absurd (ground (arith, ap (λ p. p.0) (rw (e, f, apply) at h)))
            | inr f ↦ elim (Option-cases (execute sql s.tables)) [
              | inl g ↦ absurd (ground (arith, ap (λ p. p.0) (rw (e, f, g, apply) at h)))
              | inr (d, g) ↦
                  ap (next_version mount_id)
                    (sym (ap (λ p. p.1.applied) (rw (e, f, g, apply) at h)))
                  ∙ rw (str_eq_refl mount_id) (
                      next-max_of v
                        (map (λ m. m.version) (select (λ m. str_eq m.mount_id mount_id) s.applied)))
            ]
          ]
  ]

  apply_all-next :
      (v : ℕ) (ms : List MigrationScript) (s t : Store D)
      → v ≡ next_version mount_id s.applied
      → apply_all v ms s ≡ (ok tt, t)
      → next_version mount_id t.applied ≡ v + length ms
  apply_all-next v [] s t e h = omega (arith, ap (λ p. next_version mount_id p.1.applied) h, e)
  apply_all-next v (m ∷ ms) s t e h =
      elim (Result-cases (apply scoped digest execute mount_id prefix v m s).0) [
        | inr (x, k) ↦ absurd (ground (arith, ap (λ p. p.0) (rw (k, apply_all) at h)))
        | inl (u, k) ↦
            let s' = (apply scoped digest execute mount_id prefix v m s).1 in
            let stepped = apply-next v m s s' u (ap (λ r. (r, s')) k) in
            omega (
              arith,
              apply_all-next (v + 1) ms s' t (ground (arith, stepped, e)) (rw (k, apply_all) at h),
            )
      ]

  -- Migrating once more, after it has succeeded, succeeds and changes nothing.
  migrate-migrate :
      (ms : List MigrationScript) (s t : Store D)
      → migrate scoped digest execute mount_id prefix ms s ≡ (ok tt, t)
      → migrate scoped digest execute mount_id prefix ms t ≡ (ok tt, t)
  migrate-migrate ms s t h =
      let next = next_version mount_id s.applied in
      let next' = next_version mount_id t.applied in
      let grown = apply_all-next next (drop next ms) s t refl (sym (migrate-apply_all ms s) ∙ h) in
      migrate-apply_all ms t
      ∙ ap (λ xs. apply_all next' xs t)
          (drop-all next' ms (omega (arith, length-drop next ms, grown)))
