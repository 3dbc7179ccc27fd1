-- ===== src/Prelude/Exec.antt =====
-- Handlers that read and write a state and may fail. What was written before a failure stays, as
-- each statement of the program commits on its own.
use mathlib.Core.Path.{◌≡◌, refl, ap, subst}
use native.Mathlib.Omega.{arith}
use mathlib.Core.Bool.{Bool, true, false}
use covert.Prelude.Tests.{Result, ok, err, if◌then◌else◌}

abbrev pub Exec {ℓ} : Type ℓ → Type ℓ → Type ℓ → Type ℓ
Exec S E A = S → Result E A × S

module _ {ℓ} {S E A : Type ℓ} where
  pub pure : A → Exec S E A
  pure a s = (ok a, s)

  pub raise : E → Exec S E A
  raise e s = (err e, s)

  -- a step that reads the state and leaves it
  pub query : (S → Result E A) → Exec S E A
  query f s = (f s, s)

  -- a step that only writes
  pub modify : (S → S) → A → Exec S E A
  modify f a s = (ok a, f s)

module _ {ℓ} {S E A B : Type ℓ} where
  abbrev pub bind_result : Result E A → (A → Exec S E B) → Exec S E B
  bind_result (ok a) f s = f a s
  bind_result (err e) f s = (err e, s)

  infixl 10 ◌>>=◌ ◌>>◌
  -- opening this opens the single steps too
  unfoldable pub ◌>>=◌ : Exec S E A → (A → Exec S E B) → Exec S E B
  unfolding pure raise query modify
  ◌>>=◌ m f s = bind_result (m s).0 f (m s).1

  abbrev pub ◌>>◌ : Exec S E A → Exec S E B → Exec S E B
  m >> k = m >>= λ _. k

  -- The two ends of a chain, where it is known how its first step ends.
  pub bind-ok :
      (m : Exec S E A) (f : A → Exec S E B) (s t : S) (a : A)
      → m s ≡ (ok a, t)
      → (m >>= f) s ≡ f a t
  unfolding ◌>>=◌
  bind-ok m f s t a h = rw h

  pub bind-err :
      (m : Exec S E A) (f : A → Exec S E B) (s t : S) (e : E)
      → m s ≡ (err e, t)
      → (m >>= f) s ≡ (err e, t)
  unfolding ◌>>=◌
  bind-err m f s t e h = rw h

  -- Inversion of a chain that ended well.
  pub bind-eq-ok :
      (m : Exec S E A) (f : A → Exec S E B) (s t : S) (b : B)
      → (m >>= f) s ≡ (ok b, t)
      → (a : A) × (u : S) × (m s ≡ (ok a, u)) × (f a u ≡ (ok b, t))
  unfolding ◌>>=◌
  bind-eq-ok m f s t b h = go (m s).0 (m s).1 refl h
    where
      go :
          (r : Result E A) (u : S)
          → m s ≡ (r, u)
          → bind_result r f u ≡ (ok b, t)
          → (a : A) × (u : S) × (m s ≡ (ok a, u)) × (f a u ≡ (ok b, t))
      go (ok a) u e k = (a, u, e, k)
      go (err x) u e k = absurd (ground (arith, k))

-- `m` keeps `P`, whether it ends well or fails.
pub record Keeps {ℓ} {S E A : Type ℓ} (P : S → Type ℓ) (m : Exec S E A) : Type ℓ where
  pub at : (s : S) → P s → P (m s).1

module _ {ℓ} {S E A : Type ℓ} {P : S → Type ℓ} where
  pub Keeps-pure : (a : A) → Keeps P (pure {E = E} a)
  unfolding pure
  Keeps-pure a = record { at = λ s h. h }

  pub Keeps-raise : (e : E) → Keeps P (raise {A = A} e)
  unfolding raise
  Keeps-raise e = record { at = λ s h. h }

  pub Keeps-query : (f : S → Result E A) → Keeps P (query f)
  unfolding query
  Keeps-query f = record { at = λ s h. h }

  pub Keeps-modify : (f : S → S) (a : A) → ((s : S) → P s → P (f s)) → Keeps P (modify {E = E} f a)
  unfolding modify
  Keeps-modify f a k = record { at = k }

  pub Keeps-if :
      (b : Bool) (m n : Exec S E A) → Keeps P m → Keeps P n → Keeps P (if b then m else n)
  Keeps-if true m n km kn = km
  Keeps-if false m n km kn = kn

module _ {ℓ} {S E A B : Type ℓ} {P : S → Type ℓ} where
  keeps_rest :
      (r : Result E A) (f : A → Exec S E B) (s : S)
      → ((a : A) → Keeps P (f a))
      → P s
      → P (bind_result r f s).1
  keeps_rest (ok a) f s kf h = (kf a).at s h
  keeps_rest (err e) f s kf h = h

  pub Keeps-bind :
      (m : Exec S E A) (f : A → Exec S E B)
      → Keeps P m
      → ((a : A) → Keeps P (f a))
      → Keeps P (m >>= f)
  unfolding ◌>>=◌
  Keeps-bind m f km kf = record { at = λ s h. keeps_rest (m s).0 f (m s).1 kf (km.at s h) }

pub ruleset keeps_rules = (Keeps-pure, Keeps-raise, Keeps-query, Keeps-modify, Keeps-if, Keeps-bind)

-- Where `m`, run at `s`, ends well, its answer and the state it leaves are related by `Q`.
pub record Yields {ℓ} {S E A : Type ℓ} (Q : A → S → Type ℓ) (m : Exec S E A) (s : S) : Type ℓ where
  pub at : (a : A) (u : S) → m s ≡ (ok a, u) → Q a u

module _ {ℓ} {S E A B : Type ℓ} {Q : B → S → Type ℓ} where
  pub Yields-bind :
      (m : Exec S E A) (k : A → Exec S E B) (s : S)
      → ((a : A) (u : S) → m s ≡ (ok a, u) → Yields Q (k a) u)
      → Yields Q (m >>= k) s
  unfolding ◌>>=◌
  Yields-bind m k s h = record {
    at = λ b v e. let (a, u, e1, e2) = bind-eq-ok m k s v b e in (h a u e1).at b v e2;
  }

  pub Yields-query :
      (f : S → Result E A) (k : A → Exec S E B) (s : S)
      → ((a : A) → f s ≡ ok a → Yields Q (k a) s)
      → Yields Q (query f >>= k) s
  unfolding query
  Yields-query f k s h =
      Yields-bind (query f) k s
        (λ a u e. subst (λ v. Yields Q (k a) v) (ap (λ p. p.1) e) (h a (ap (λ p. p.0) e)))

module _ {ℓ} {S E A : Type ℓ} {Q : A → S → Type ℓ} where
  pub Yields-weaken :
      {Q' : A → S → Type ℓ} (m : Exec S E A) (s : S)
      → ((a : A) (u : S) → Q a u → Q' a u)
      → Yields Q m s
      → Yields Q' m s
  Yields-weaken m s f y = record { at = λ a u e. f a u (y.at a u e) }

  pub Yields-pure : (a : A) (s : S) → Q a s → Yields Q (pure {E = E} a) s
  unfolding pure
  Yields-pure a s q = record {
    at = λ b u e.
        let same : a ≡ b = ground (arith, ap (λ p. p.0) e) in
        subst (λ c. Q c u) same (subst (λ v. Q a v) (ap (λ p. p.1) e) q);
  }
