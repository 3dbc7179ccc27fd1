-- ===== src/Namespace/Forest.antt =====
-- covert-server/src/repos/namespace.rs: the table of namespaces as a forest.
use covert.Prelude.{
  ◌≡◌, refl, sym, ◌∙◌, Bool, true, false, List, [], ◌∷◌, Str, any, delete, arith, str_eq_iff,
  In-any, In, here, there,
}
use covert.Server.Tables.{Namespace, Tables}
use covert.Namespace.{has_id, same_place, is_valid, parent_exists, create, delete_by_id}

-- Below each row stand its parent, and no row with its id or at its place.
abbrev pub IsForest : List Namespace → Type 0
IsForest [] = Unit {0}
IsForest (ns ∷ rows) =
    (any (has_id ns.id) rows ≡ false)
    × (any (same_place ns) rows ≡ false)
    × (parent_exists ns.parent_namespace_id rows ≡ true)
    × (is_valid ns ≡ true)
    × IsForest rows

pub any-delete-false :
    (test p : Namespace → Bool) (r : List Namespace)
    → any p r ≡ false
    → any p (delete test r) ≡ false
any-delete-false test p [] h = refl
any-delete-false test p (s ∷ r) h = ground (arith, any-delete-false test p r)

-- The calls that write the table of namespaces.
pub data Change : Type 0 where
  creates : Namespace → Change
  deletes : Str → Change

unfoldable pub apply : Tables → Change → Tables
apply t (creates ns) = (create ns t).1
apply t (deletes id) = (delete_by_id id t).1

unfoldable pub apply_all : Tables → List Change → Tables
apply_all t [] = t
apply_all t (c ∷ cs) = apply_all (apply t c) cs

-- No two rows of a forest share their id or their place.
pub eq_of_has_id :
    (rows : List Namespace) (a b : Namespace)
    → IsForest rows
    → In a rows
    → In b rows
    → has_id b.id a ≡ true
    → a ≡ b
eq_of_has_id [] a b f i j h = elim i [ ]
eq_of_has_id (x ∷ rows) a b f (here e) (here e') h = e ∙ sym e'
eq_of_has_id (x ∷ rows) a b f (here e) (there j) h = absurd (
    cc (
      In-any (has_id x.id) rows b j (ground (arith, str_eq_iff a.id b.id, str_eq_iff b.id x.id)),
      f.0,
    ))
eq_of_has_id (x ∷ rows) a b f (there i) (here e') h = absurd (
    cc (
      In-any (has_id x.id) rows a i (ground (arith, str_eq_iff a.id b.id, str_eq_iff a.id x.id)),
      f.0,
    ))
eq_of_has_id (x ∷ rows) a b f (there i) (there j) h = eq_of_has_id rows a b f.4 i j h
