-- ===== src/Examples/Namespaces.antt =====
-- The tree of namespaces, at concrete inputs.
use covert.Prelude.{◌≡◌, refl, List, [], ◌∷◌, some, Str, codes, split, here, there, arith}
use covert.Server.Tables.{Namespace, slash, root_name}
use covert.Namespace
use covert.Namespace.{find_by_path, find_parents, get_full_path}
use covert.Namespace.Forest.{IsForest}
use covert.Namespace.Chains.{Chain, root, child}
use covert.Namespace.Paths.{find_by_path-get_full_path, find_by_path_sound}
use covert.Examples.{team_ns, root_ns}

abbrev rows : List Namespace
rows = team_ns ∷ root_ns ∷ []

pub rows-IsForest : IsForest rows
rows-IsForest = (refl, refl, refl, refl, (refl, refl, refl, refl, tt))

abbrev dev_ns : Namespace
dev_ns = record { id = codes "d"; name = codes "dev"; parent_namespace_id = some (codes "t") }

team-Chain : Chain rows team_ns (codes "root" ∷ codes "team" ∷ [])
team-Chain = child team_ns (root root_ns (there (here refl)) refl) (here refl) refl refl

find_by_path-get_full_path_example :
    (full : Str) × (get_full_path 2 team_ns.id rows ≡ some full)
    × (find_by_path (split slash full) rows ≡ some team_ns)
find_by_path-get_full_path_example =
    find_by_path-get_full_path rows 2 team_ns rows-IsForest (here refl) (omega arith)

other_root : find_by_path (codes "any" ∷ codes "team" ∷ []) rows ≡ some team_ns
unfolding find_by_path Namespace.descend
other_root = refl

find_by_path_sound_example : Chain rows team_ns (root_name ∷ codes "team" ∷ [])
find_by_path_sound_example =
    find_by_path_sound rows (codes "any") (codes "team" ∷ []) team_ns rows-IsForest other_root
