-- ===== src/Namespace/Chains.antt =====
-- covert-server/src/repos/namespace.rs: the path of a namespace, told by the rows alone.
use covert.Prelude.{
  ◌≡◌, refl, sym, ap, ◌∙◌, Bool, true, false, List, [], ◌∷◌, ◌++◌, Option, none, some, Str, any,
  select, first, arith, inl, inr, Bool-cases, str_eq_refl, eq_of_str_eq, In, here, there, In-any,
}
use covert.Server.Tables.{Namespace, root_name}
use covert.Namespace.{has_id, same_place, is_none, opt_eq, lookup, is_child}
use covert.Namespace.Forest.{IsForest, eq_of_has_id}

-- From a root down to a namespace, with the names that are passed.
pub data Chain (rows : List Namespace) : Namespace → List Str → Type 0 where
  root :
      (ns : Namespace) → In ns rows → ns.parent_namespace_id ≡ none → Chain rows ns (ns.name ∷ [])
  child :
      {parent : Namespace} {path full : List Str} (ns : Namespace)
      → Chain rows parent path
      → In ns rows
      → ns.parent_namespace_id ≡ some parent.id
      → full ≡ path ++ ns.name ∷ []
      → Chain rows ns full

pub Chain-In :
    {rows : List Namespace} {ns : Namespace} {path : List Str} → Chain rows ns path → In ns rows
Chain-In (root ns m e) = m
Chain-In (child ns c m e f) = m

pub opt_eq_iff_some : (o : Option Str) (id : Str) → opt_eq o (some id) ≡ true → o ≡ some id
opt_eq_iff_some none id h = absurd (cc)
opt_eq_iff_some (some a) id h = ap some (eq_of_str_eq a id h)

opt_eq_refl : (o : Option Str) → opt_eq o o ≡ true
opt_eq_refl none = refl
opt_eq_refl (some a) = str_eq_refl a

select-nil :
    (p : Namespace → Bool) (rows : List Namespace)
    → ((b : Namespace) → In b rows → p b ≡ true → ⊥)
    → select p rows ≡ []
select-nil p [] h = refl
select-nil p (x ∷ rows) h = elim (Bool-cases (p x)) [
  | inl hit ↦ absurd (h x (here refl) hit)
  | inr miss ↦ rw miss (select-nil p rows (λ b m. h b (there m)))
]

not_again :
    (x a : Namespace) (rows : List Namespace)
    → any (has_id x.id) rows ≡ false
    → In a rows
    → a ≡ x
    → ⊥
not_again x a rows h m e = cc (In-any (has_id x.id) rows a m (rw e (str_eq_refl x.id)), h)

-- A condition that one row of a forest meets selects that row, once.
pub select-one :
    (p : Namespace → Bool) (rows : List Namespace) (a : Namespace)
    → IsForest rows
    → In a rows
    → p a ≡ true
    → ((b : Namespace) → In b rows → p b ≡ true → b ≡ a)
    → select p rows ≡ a ∷ []
select-one p [] a f m h only = elim m [ ]
select-one p (x ∷ rows) a f (here e) h only =
    let hx : p x ≡ true = ap p (sym e) ∙ h in
    rw (hx, ← e)
      (ap (◌∷◌ a) (select-nil p rows (λ b m k. not_again x b rows f.0 m (only b (there m) k ∙ e))))
select-one p (x ∷ rows) a f (there m) h only = elim (Bool-cases (p x)) [
  | inl hit ↦ absurd (not_again x a rows f.0 m (sym (only x (here refl) hit)))
  | inr miss ↦ rw miss (select-one p rows a f.4 m h (λ b n k. only b (there n) k))
]

pub lookup_lem :
    (rows : List Namespace) (a : Namespace) → IsForest rows → In a rows → lookup a.id rows ≡ some a
unfolding lookup
lookup_lem rows a f m = ap first (
    select-one (has_id a.id) rows a f m (str_eq_refl a.id) (λ b n k. eq_of_has_id rows b a f n m k))

eq_of_same_place :
    (rows : List Namespace) (a b : Namespace)
    → IsForest rows
    → In a rows
    → In b rows
    → a.parent_namespace_id ≡ b.parent_namespace_id
    → a.name ≡ b.name
    → a ≡ b
eq_of_same_place [] a b f i j p n = elim i [ ]
eq_of_same_place (x ∷ rows) a b f (here e) (here e') p n = e ∙ sym e'
eq_of_same_place (x ∷ rows) a b f (here e) (there j) p n = absurd (
    cc (
      In-any (same_place x) rows b j
          (rw (← e, p, n) (ground (arith, opt_eq_refl b.parent_namespace_id, str_eq_refl b.name))),
      f.1,
    ))
eq_of_same_place (x ∷ rows) a b f (there i) (here e') p n = absurd (
    cc (
      In-any (same_place x) rows a i
          (rw (← e', p, n) (ground (arith, opt_eq_refl b.parent_namespace_id, str_eq_refl b.name))),
      f.1,
    ))
eq_of_same_place (x ∷ rows) a b f (there i) (there j) p n = eq_of_same_place rows a b f.4 i j p n

pub select-is_child :
    (rows : List Namespace) (parent ns : Namespace)
    → IsForest rows
    → In ns rows
    → ns.parent_namespace_id ≡ some parent.id
    → select (is_child parent ns.name) rows ≡ ns ∷ []
select-is_child rows parent ns f m e =
    select-one (is_child parent ns.name) rows ns f m
      (rw e (ground (arith, str_eq_refl parent.id, str_eq_refl ns.name)))
      (λ b n k.
        eq_of_same_place rows b ns f n m
          (opt_eq_iff_some b.parent_namespace_id parent.id (ground arith) ∙ sym e)
          (eq_of_str_eq b.name ns.name (ground arith)))

pub root-name :
    (rows : List Namespace) (a : Namespace)
    → IsForest rows
    → In a rows
    → a.parent_namespace_id ≡ none
    → a.name ≡ root_name
root-name [] a f m e = elim m [ ]
root-name (x ∷ rows) a f (here h) e =
    eq_of_str_eq a.name root_name (ground (arith, f.3, ap (λ (n : Namespace). n.name) h))
root-name (x ∷ rows) a f (there m) e = root-name rows a f.4 m e

pub none_of_is_none : (o : Option Str) → is_none o ≡ true → o ≡ none
none_of_is_none none h = refl
none_of_is_none (some a) h = absurd (cc)

pub select-root :
    (rows : List Namespace) (a : Namespace)
    → IsForest rows
    → In a rows
    → a.parent_namespace_id ≡ none
    → select (λ ns. is_none ns.parent_namespace_id) rows ≡ a ∷ []
select-root rows a f m e =
    select-one (λ ns. is_none ns.parent_namespace_id) rows a f m (ap is_none e)
      (λ b n k.
        let no_parent = none_of_is_none b.parent_namespace_id k in
        eq_of_same_place rows b a f n m (no_parent ∙ sym e)
          (root-name rows b f n no_parent ∙ sym (root-name rows a f m e)))
