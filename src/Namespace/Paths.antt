-- ===== src/Namespace/Paths.antt =====
-- covert-server/src/repos/namespace.rs: finding a namespace by its path, and climbing to the root.
use covert.Prelude.{
  ℕ, zero, suc, ◌≤◌, ◌≡◌, refl, sym, ap, ◌∙◌, true, false, List, [], ◌∷◌, ◌++◌, Option, none, some,
  Str, select, length, arith, eq_of_str_eq, In, here, there, flat_map, flat_map-In, any-In, map,
  reverse, join, subst, split, split-join, HasNone, All, All-append, select-In, first-In,
}
use mathlib.Core.List.{append-nil, append_assoc, map-append, reverse-cons}
use covert.Server.Tables.{Namespace, slash, root_name, holds_char}
use covert.Namespace.{
  has_id, is_none, lookup, is_child, descend, find_by_path, climb, find_parents, get_full_path,
  parent_exists, is_valid,
}
use covert.Namespace.Forest.{IsForest}
use covert.Namespace.Chains.{
  Chain, root, child, lookup_lem, select-is_child, select-root, opt_eq_iff_some, root-name,
  none_of_is_none,
}

abbrev roots : List Namespace → List Namespace
roots rows = select (λ ns. is_none ns.parent_namespace_id) rows

descend-append :
    (rows level : List Namespace) (names : List Str) (name : Str)
    → descend rows (names ++ name ∷ []) level
      ≡ flat_map (λ parent. select (is_child parent name) rows) (descend rows names level)
unfolding descend
descend-append rows level [] name = refl
descend-append rows level (n ∷ names) name =
    descend-append rows (flat_map (λ parent. select (is_child parent n) rows) level) names name

descend-Chain_path :
    (rows : List Namespace) {ns : Namespace} {path : List Str}
    → IsForest rows
    → Chain rows ns path
    → (name : Str) × (names : List Str) × (path ≡ name ∷ names)
      × (descend rows names (roots rows) ≡ ns ∷ [])
unfolding descend
descend-Chain_path rows f (root ns m e) = (ns.name, [], refl, select-root rows ns f m e)
descend-Chain_path rows f (child {parent = parent} ns c m e g) =
    let (name, names, split, found) = descend-Chain_path rows f c in
    (
      name,
      names ++ ns.name ∷ [],
      g ∙ ap (λ (p : List Str). p ++ ns.name ∷ []) split,
      descend-append rows (roots rows) names ns.name
          ∙ ap (flat_map (λ parent. select (is_child parent ns.name) rows)) found
          ∙ append-nil _
          ∙ select-is_child rows parent ns f m e,
    )

-- In a forest, the names from a root to a namespace find that namespace.
find_by_path-Chain :
    (rows : List Namespace) (ns : Namespace) (path : List Str)
    → IsForest rows
    → Chain rows ns path
    → find_by_path path rows ≡ some ns
unfolding find_by_path
find_by_path-Chain rows ns path f c =
    let (name, names, split, found) = descend-Chain_path rows f c in rw (split, found)

-- the rows below a point of the table
abbrev pub names_of : List Namespace → List Str
names_of l = map (λ ns. ns.name) (reverse l)

names_of-cons :
    (ns : Namespace) (l : List Namespace) → names_of (ns ∷ l) ≡ names_of l ++ ns.name ∷ []
names_of-cons ns l = ap (map (λ n. n.name)) (reverse-cons ns l) ∙ map-append _ (reverse l) (ns ∷ [])

abbrev Climbs : List Namespace → ℕ → Namespace → Type 0
Climbs rows fuel ns =
    (above : List Namespace) × ((acc : List Namespace)
      → climb fuel rows ns.parent_namespace_id acc ≡ some (acc ++ above))
    × Chain rows ns (names_of (ns ∷ above))

climb-none :
    (rows : List Namespace) (fuel : ℕ) (acc : List Namespace) → climb fuel rows none acc ≡ some acc
unfolding climb
climb-none rows zero acc = refl
climb-none rows (suc fuel) acc = refl

climb-some :
    (rows : List Namespace) (fuel : ℕ) (ns : Namespace) (acc : List Namespace)
    → lookup ns.id rows ≡ some ns
    → climb (suc fuel) rows (some ns.id) acc
      ≡ climb fuel rows ns.parent_namespace_id (acc ++ ns ∷ [])
unfolding climb
climb-some rows fuel ns acc h = rw (h, climb)

In-length : (y : Namespace) (l : List Namespace) → In y l → 1 ≤ length l
In-length y [] m = elim m [ ]
In-length y (x ∷ l) m = omega arith

climb_step :
    (rows rest : List Namespace) (fuel : ℕ) (ns : Namespace) (parent : Option Str)
    → ns.parent_namespace_id ≡ parent
    → IsForest rows
    → ((a : Namespace) → In a rest → In a rows)
    → In ns rows
    → parent_exists parent rest ≡ true
    → length rest ≤ fuel
    → ((k : ℕ) (y : Namespace) → In y rest → length rest ≤ suc k → Climbs rows k y)
    → Climbs rows fuel ns
climb_step rows rest fuel ns none e f sub m p enough rec =
    ([], λ acc. rw e (climb-none rows fuel acc ∙ ap some (sym (append-nil acc))), root ns m e)
climb_step rows rest zero ns (some id) e f sub m p enough rec =
    let (y, i, h) = any-In (has_id id) rest p in absurd (omega (arith, In-length y rest i))
climb_step rows rest (suc k) ns (some id) e f sub m p enough rec =
    let (y, i, h) = any-In (has_id id) rest p in
    let parent_is : ns.parent_namespace_id ≡ some y.id =
      e ∙ ap some (sym (eq_of_str_eq y.id id h)) in
    let (above, climbs, chain) = rec k y i enough in
    (
      y ∷ above,
      λ acc. rw parent_is (
          climb-some rows k y acc (lookup_lem rows y f (sub y i))
          ∙ climbs (acc ++ y ∷ [])
          ∙ ap some (append_assoc acc (y ∷ []) above)),
      child ns chain m parent_is (names_of-cons ns (y ∷ above)),
    )

climb_chain :
    (rows older : List Namespace) (fuel : ℕ) (ns : Namespace)
    → IsForest rows
    → IsForest older
    → ((a : Namespace) → In a older → In a rows)
    → In ns older
    → length older ≤ suc fuel
    → Climbs rows fuel ns
climb_chain rows [] fuel ns f g sub m enough = elim m [ ]
climb_chain rows (x ∷ rest) fuel ns f g sub (there m) enough =
    climb_chain rows rest fuel ns f g.4 (λ a i. sub a (there i)) m (omega arith)
climb_chain rows (x ∷ rest) fuel ns f g sub (here e) enough =
    climb_step rows rest fuel ns ns.parent_namespace_id refl f (λ a i. sub a (there i))
      (sub ns (here e)) (rw e g.2) (omega arith)
      (λ k y i le. climb_chain rows rest k y f g.4 (λ a j. sub a (there j)) i le)

-- In a forest, with at least as much fuel as there are rows less one, the loop that climbs from a
-- namespace ends, and what it passes is the chain from that namespace up to a root.
pub find_parents-Chain :
    (rows : List Namespace) (fuel : ℕ) (ns : Namespace)
    → IsForest rows
    → In ns rows
    → length rows ≤ suc fuel
    → (parents : List Namespace) × (find_parents fuel ns.id rows ≡ some parents)
      × Chain rows ns (names_of parents)
unfolding find_parents
find_parents-Chain rows fuel ns f m enough =
    let (above, climbs, chain) = climb_chain rows rows fuel ns f f (λ a i. i) m enough in
    (ns ∷ above, rw (lookup_lem rows ns f m, find_parents) (climbs (ns ∷ [])), chain)

-- no name of a valid row holds a slash
name-HasNone : (ns : Namespace) → is_valid ns ≡ true → HasNone slash ns.name
name-HasNone ns v = HasNone-any ns.name (ground arith)
  where
    HasNone-any : (s : Str) → holds_char slash s ≡ false → HasNone slash s
    HasNone-any [] h = tt
    HasNone-any (c ∷ s) h = (ground arith, HasNone-any s (ground arith))

In-is_valid :
    (rows : List Namespace) (ns : Namespace) → IsForest rows → In ns rows → is_valid ns ≡ true
In-is_valid [] ns f m = elim m [ ]
In-is_valid (x ∷ rows) ns f (here e) = rw e f.3
In-is_valid (x ∷ rows) ns f (there m) = In-is_valid rows ns f.4 m

Chain-HasNone :
    (rows : List Namespace) {ns : Namespace} {path : List Str}
    → IsForest rows
    → Chain rows ns path
    → (s : Str) × (rest : List Str) × (path ≡ s ∷ rest) × HasNone slash s × All (HasNone slash) rest
Chain-HasNone rows f (root ns m e) =
    (ns.name, [], refl, name-HasNone ns (In-is_valid rows ns f m), tt)
Chain-HasNone rows f (child ns c m e g) =
    let (s, rest, split, h, k) = Chain-HasNone rows f c in
    (
      s,
      rest ++ ns.name ∷ [],
      g ∙ ap (λ (p : List Str). p ++ ns.name ∷ []) split,
      h,
      All-append (HasNone slash) rest (ns.name ∷ []) k
          (name-HasNone ns (In-is_valid rows ns f m), tt),
    )

-- In a forest, with at least as much fuel as there are rows less one, the full path of a namespace
-- exists, and split at its slashes it is a path that finds that namespace again.
pub find_by_path-get_full_path :
    (rows : List Namespace) (fuel : ℕ) (ns : Namespace)
    → IsForest rows
    → In ns rows
    → length rows ≤ suc fuel
    → (full : Str) × (get_full_path fuel ns.id rows ≡ some full)
      × (find_by_path (split slash full) rows ≡ some ns)
unfolding get_full_path
find_by_path-get_full_path rows fuel ns f m enough =
    let (parents, found, chain) = find_parents-Chain rows fuel ns f m enough in
    let (s, rest, e, h, k) = Chain-HasNone rows f chain in
    (
      join slash (names_of parents),
      rw (found, get_full_path),
      ap (λ p. find_by_path p rows)
            (ap (λ p. split slash (join slash p)) e ∙ split-join slash s rest h k ∙ sym e)
          ∙ find_by_path-Chain rows ns (names_of parents) f chain,
    )

-- every row of a level is reached by the names passed so far
descend-Chain :
    (rows level : List Namespace) (names path : List Str) (ns : Namespace)
    → ((a : Namespace) → In a level → Chain rows a path)
    → In ns (descend rows names level)
    → Chain rows ns (path ++ names)
unfolding descend
descend-Chain rows level [] path ns reached m =
    subst (Chain rows ns) (sym (append-nil path)) (reached ns m)
descend-Chain rows level (n ∷ names) path ns reached m =
    subst (Chain rows ns) (append_assoc path (n ∷ []) names) (
      descend-Chain rows (flat_map (λ parent. select (is_child parent n) rows) level) names
        (path ++ n ∷ []) ns
        (λ a i.
          let (parent, j, k) = flat_map-In (λ parent. select (is_child parent n) rows) level a i in
          let (a_row, h) = select-In (is_child parent n) rows a k in
          child a (reached parent j) a_row
            (opt_eq_iff_some a.parent_namespace_id parent.id (ground arith))
            (ap (λ (x : Str). path ++ x ∷ []) (sym (eq_of_str_eq a.name n (ground arith)))))
        m)

-- A path that finds a namespace of a forest names the way to it from the root, except that its
-- first name may be any: it is never compared with the root's.
pub find_by_path_sound :
    (rows : List Namespace) (name : Str) (names : List Str) (ns : Namespace)
    → IsForest rows
    → find_by_path (name ∷ names) rows ≡ some ns
    → Chain rows ns (root_name ∷ names)
unfolding find_by_path
find_by_path_sound rows name names ns f h =
    descend-Chain rows (roots rows) names (root_name ∷ []) ns
      (λ a i.
        let (a_row, no_parent) = select-In (λ ns. is_none ns.parent_namespace_id) rows a i in
        let none_above = none_of_is_none a.parent_namespace_id no_parent in
        subst (λ (x : Str). Chain rows a (x ∷ [])) (root-name rows a f a_row none_above)
          (root a a_row none_above))
      (first-In (descend rows names (roots rows)) ns h)
