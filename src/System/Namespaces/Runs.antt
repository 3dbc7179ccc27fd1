-- ===== src/System/Namespaces/Runs.antt =====
-- covert-server/src/system/namespace.rs: calculations that have fuel.
use covert.Prelude.{
  ℕ, zero, suc, ◌+◌, ◌<◌, ◌≤◌, ◌≡◌, refl, sym, ap, ◌∙◌, subst, Bool, true, false, ◌||◌, List, [],
  ◌∷◌, Option, none, some, Str, any, length, select, delete, str_eq, eq_of_str_eq, str_eq_refl,
  if◌then◌else◌, Result, ok, err, ok_or, arith, inl, inr, Bool-cases, In, here, there, In-any,
  select-In, delete-In, first-In, any-delete, Option-cases, ok_or-ok,
}
use covert.Prelude.Exec.{
  Exec, pure, raise, query, ◌>>=◌, Keeps, keeps_rules, Keeps-bind, Keeps-pure, Yields, Yields-bind,
  Yields-query, Yields-pure,
}
use covert.Server.Tables.{Error}
use covert.System.Namespaces.{Stop, failed, or_stop, stopping, for_each}

abbrev pub Any : {S A : Type 0} → A → S → Type 0
Any a u = Unit {0}

module _ {S : Type 0} (P : S → Type 0) where
  -- What a deletion comes to: it is done, and `Q` holds, or an error stops it. Its fuel is enough.
  pub data Ends {A : Type 0} (Q : A → S → Type 0) : Result Stop A × S → Type 0 where
    done : (a : A) (u : S) → P u → Q a u → Ends Q (ok a, u)
    stopped : (e : Error) (u : S) → P u → Ends Q (err (failed e), u)

  pub record Runs {A : Type 0} (Q : A → S → Type 0) (m : Exec S Stop A) : Type 0 where
    pub at : (s : S) → P s → Ends Q (m s)

module _ {S : Type 0} {P : S → Type 0} where
  bind_result-Ends :
      {A B : Type 0} (Q : A → S → Type 0) (Q' : B → S → Type 0) (f : A → Exec S Stop B)
      (r : Result Stop A × S)
      → ((a : A) (u : S) → P u → Q a u → Ends P Q' (f a u))
      → Ends P Q r
      → Ends P Q' (covert.Prelude.Exec.bind_result r.0 f r.1)
  bind_result-Ends Q Q' f _ k (done a u p q) = k a u p q
  bind_result-Ends Q Q' f _ k (stopped e u p) = stopped e u p

  pub Runs-pure : {A : Type 0} (a : A) → Runs P Any (pure {E = Stop} a)
  unfolding ◌>>=◌
  Runs-pure a = record { at = λ s p. done a s p tt }

  pub Runs-bind :
      {A B : Type 0} (Q : A → S → Type 0) (Q' : B → S → Type 0) (m : Exec S Stop A)
      (f : A → Exec S Stop B)
      → Runs P Q m
      → ((a : A) (u : S) → P u → Q a u → Ends P Q' (f a u))
      → Runs P Q' (m >>= f)
  unfolding ◌>>=◌
  Runs-bind Q Q' m f km kf = record { at = λ s p. bind_result-Ends Q Q' f (m s) kf (km.at s p) }

  or_stop-Ends : {A : Type 0} (r : Result Error A) (u : S) → P u → Ends P Any (or_stop r, u)
  or_stop-Ends (ok a) u p = done a u p tt
  or_stop-Ends (err e) u p = stopped e u p

  pub Runs-stopping : {A : Type 0} (m : Exec S Error A) → Keeps P m → Runs P Any (stopping m)
  Runs-stopping m k = record { at = λ s p. or_stop-Ends (m s).0 (m s).1 (k.at s p) }

  pub Runs-for_each :
      {A : Type 0} (f : A → Exec S Stop (Unit {0})) (l : List A)
      → ((a : A) → In a l → Runs P Any (f a))
      → Runs P Any (for_each f l)
  Runs-for_each f [] k = Runs-pure tt
  Runs-for_each f (a ∷ l) k =
      Runs-bind Any Any (f a) (λ _. for_each f l) (k a (here refl))
        (λ _ u p _. (Runs-for_each f l (λ b m. k b (there m))).at u p)

  forget : {A : Type 0} (Q : A → S → Type 0) (o : Result Stop A × S) → Ends P Q o → Ends P Any o
  forget Q _ (done a u p q) = done a u p tt
  forget Q _ (stopped e u p) = stopped e u p

  -- what a calculation that is done has reached can be left out
  pub Runs-Any : {A : Type 0} (Q : A → S → Type 0) (m : Exec S Stop A) → Runs P Q m → Runs P Any m
  Runs-Any Q m k = record { at = λ s p. forget Q (m s) (k.at s p) }
