-- ===== src/Prelude/Sql.antt =====
-- The statements that the repositories send to SQLite, over a table as a list of rows.
use Prim.Native.Nat.{ℕ, ◌+◌, ◌≤◌}
use mathlib.Core.Path.{◌≡◌, refl, sym, ap, ◌∙◌}
use mathlib.Core.Logic.{inl, inr}
use mathlib.Core.Bool.{Bool, true, false}
use mathlib.Core.List.{List, [], ◌∷◌}
use native.Mathlib.Omega.{arith}
use covert.Prelude.Tests.{if◌then◌else◌, Bool-cases}
use covert.Prelude.Lists.{length, any, In, here, there}

module _ {ℓ} {A : Type ℓ} where
  -- SELECT * FROM t WHERE p
  abbrev pub select : (A → Bool) → List A → List A
  select p [] = []
  select p (x ∷ xs) = if p x then x ∷ select p xs else select p xs

  -- DELETE FROM t WHERE p
  abbrev pub delete : (A → Bool) → List A → List A
  delete p [] = []
  delete p (x ∷ xs) = if p x then delete p xs else x ∷ delete p xs

  -- UPDATE t SET f WHERE p
  abbrev pub update : (A → Bool) → (A → A) → List A → List A
  update p f [] = []
  update p f (x ∷ xs) = (if p x then f x else x) ∷ update p f xs

  -- The number of rows that WHERE p takes, which is `rows_affected()` of an UPDATE or a DELETE.
  abbrev pub count : (A → Bool) → List A → ℕ
  count p [] = 0
  count p (x ∷ xs) = (if p x then 1 else 0) + count p xs

  pub In-select : (p : A → Bool) (xs : List A) (a : A) → In a xs → p a ≡ true → In a (select p xs)
  In-select p [] a m h = elim m [ ]
  In-select p (x ∷ xs) a (here e) h = let hx : p x ≡ true = ap p (sym e) ∙ h in rw hx (here e)
  In-select p (x ∷ xs) a (there m) h = elim (Bool-cases (p x)) [
    | inl hit ↦ rw hit (there (In-select p xs a m h))
    | inr miss ↦ rw miss (In-select p xs a m h)
  ]

  In-cons :
      (p : A → Bool) (x : A) (xs ys : List A) (a : A)
      → p x ≡ true
      → (In a ys → In a xs × (p a ≡ true))
      → In a (x ∷ ys)
      → In a (x ∷ xs) × (p a ≡ true)
  In-cons p x xs ys a hit f (here e) = (here e, rw e hit)
  In-cons p x xs ys a hit f (there m) = let (i, h) = f m in (there i, h)

  pub select-In : (p : A → Bool) (xs : List A) (a : A) → In a (select p xs) → In a xs × (p a ≡ true)
  select-In p [] a m = elim m [ ]
  select-In p (x ∷ xs) a m = elim (Bool-cases (p x)) [
    | inl hit ↦ In-cons p x xs (select p xs) a hit (select-In p xs a) (rw hit at m)
    | inr miss ↦ let (i, e) = select-In p xs a (rw miss at m) in (there i, e)
  ]

  pub count-zero : (p : A → Bool) (xs : List A) → any p xs ≡ false → count p xs ≡ 0
  count-zero p [] h = refl
  count-zero p (x ∷ xs) h = ground (arith, count-zero p xs)

  pub length-update : (p : A → Bool) (f : A → A) (xs : List A) → length (update p f xs) ≡ length xs
  length-update p f [] = refl
  length-update p f (x ∷ xs) = omega (arith, length-update p f xs)

  pub any-delete : (p : A → Bool) (xs : List A) → any p (delete p xs) ≡ false
  any-delete p [] = refl
  any-delete p (x ∷ xs) = elim (Bool-cases (p x)) [
    | inl hit ↦ rw hit (any-delete p xs)
    | inr miss ↦ rw (miss, miss) (any-delete p xs)
  ]

module _ {ℓ} {A : Type ℓ} where
  pub select-eq :
      (p q : A → Bool) → ((a : A) → p a ≡ q a) → (xs : List A) → select p xs ≡ select q xs
  select-eq p q h [] = refl
  select-eq p q h (x ∷ xs) = ground (arith, h x, select-eq p q h xs)

  pub count-pos : (p : A → Bool) (xs : List A) → any p xs ≡ true → 1 ≤ count p xs
  count-pos p [] h = absurd (cc)
  count-pos p (x ∷ xs) h = ground (arith, count-pos p xs)

  pub count-le :
      (p q : A → Bool)
      → ((a : A) → p a ≡ true → q a ≡ true)
      → (xs : List A) → count p xs ≤ count q xs
  count-le p q h [] = omega arith
  count-le p q h (x ∷ xs) = ground (arith, h x, count-le p q h xs)

  pub In-delete : (p : A → Bool) (xs : List A) (a : A) → In a xs → p a ≡ false → In a (delete p xs)
  In-delete p [] a m h = elim m [ ]
  In-delete p (x ∷ xs) a (here e) h = let hx : p x ≡ false = ap p (sym e) ∙ h in rw hx (here e)
  In-delete p (x ∷ xs) a (there m) h = elim (Bool-cases (p x)) [
    | inl hit ↦ rw hit (In-delete p xs a m h)
    | inr miss ↦ rw miss (there (In-delete p xs a m h))
  ]

  In-cons_delete :
      (p : A → Bool) (x : A) (xs ys : List A) (a : A)
      → p x ≡ false
      → (In a ys → In a xs × (p a ≡ false))
      → In a (x ∷ ys)
      → In a (x ∷ xs) × (p a ≡ false)
  In-cons_delete p x xs ys a miss f (here e) = (here e, rw e miss)
  In-cons_delete p x xs ys a miss f (there m) = let (i, h) = f m in (there i, h)

  pub delete-In :
      (p : A → Bool) (xs : List A) (a : A) → In a (delete p xs) → In a xs × (p a ≡ false)
  delete-In p [] a m = elim m [ ]
  delete-In p (x ∷ xs) a m = elim (Bool-cases (p x)) [
    | inl hit ↦ let (i, e) = delete-In p xs a (rw hit at m) in (there i, e)
    | inr miss ↦ In-cons_delete p x xs (delete p xs) a miss (delete-In p xs a) (rw miss at m)
  ]
