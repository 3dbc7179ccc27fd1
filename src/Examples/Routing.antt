-- ===== src/Examples/Routing.antt =====
-- Mounts, LIKE and the router, at concrete inputs.
use covert.Prelude.{
  ℕ, ◌≡◌, ◌≤◌, refl, true, List, [], ◌∷◌, ◌++◌, none, some, Str, codes, ok, In, All, length, select,
}
use covert.Policy.Paths.{read}
use covert.Lease.Like.{like, fold, IsPlain, IsFolded}
use covert.Mount.{longest_prefix, is_prefix}
use covert.Router.{Request, resolve, as_seen, get}
use covert.Router.Prefixes.{resolve-longest}
use covert.Server.Tables.{MountEntry, BackendType, kv, userpass, postgres}
use covert.Prelude.Exec.{◌>>=◌}
use covert.Mount
use covert.System.{Context, Backends, mount, mount_entry, mount_route_entry}
use covert.System.Mounted.{IsMounted, mount-IsMounted}
use covert.Examples.{store, config, team_ns, kv_mount}

kv_path-IsPlain : IsPlain (codes "kv/")
unfolding fold
kv_path-IsPlain = ((refl, refl, refl), ((refl, refl, refl), ((refl, refl, refl), tt)))

login_path-IsPlain : IsPlain (codes "auth/up/")
unfolding fold
login_path-IsPlain = (
  (refl, refl, refl),
  (
    (refl, refl, refl),
    (
      (refl, refl, refl),
      (
        (refl, refl, refl),
        ((refl, refl, refl), ((refl, refl, refl), ((refl, refl, refl), ((refl, refl, refl), tt)))),
      ),
    ),
  ),
)

path-IsFolded : IsFolded (codes "kv/a")
unfolding fold
path-IsFolded = (refl, (refl, (refl, (refl, tt))))

abbrev pub request : Request
request = record {
  operation = read;
  namespace = codes "root" ∷ codes "team" ∷ [];
  path = codes "kv/a";
  payload = [];
  token = none;
  params = [];
  ns = some team_ns;
  config = none;
  storage_state = none;
  auth_policy = none;
}

abbrev backends : List (Str × ℕ)
backends = (codes "m1", 7) ∷ []

request_is_routed : resolve backends request store ≡ ok (7, codes "kv/", config)
unfolding resolve longest_prefix like fold
request_is_routed = refl

resolve-longest_example :
    (m : MountEntry) × In m store.mounts
    × (m.namespace_id ≡ team_ns.id)
    × (codes "kv/" ≡ m.path)
    × (config ≡ m.config)
    × (get m.id backends ≡ some 7)
    × (request.path ≡ m.path ++ (as_seen request (codes "kv/") config).path)
    × All
        (λ a. length a.path ≤ length m.path)
        (select (is_prefix request.path team_ns.id) store.mounts)
resolve-longest_example =
    resolve-longest backends request store team_ns 7 (codes "kv/") config
      (kv_path-IsPlain, (login_path-IsPlain, tt)) path-IsFolded refl refl request_is_routed

abbrev pub engines : Backends BackendType
engines = record {
  is_uuid = λ id. true;
  new_backend = λ variant. ok variant;
  migrate = λ backend id. ok tt;
}

abbrev context : Context BackendType
context = record { tables = store; router = (codes "m1", kv) ∷ (codes "m2", userpass) ∷ [] }

context-IsMounted : IsMounted engines context
unfolding like fold
context-IsMounted = record {
  admissible = ((refl, refl, refl), ((refl, refl, refl), tt));
  disjoint = (refl, (refl, tt));
  routed = (refl, (refl, tt));
}

abbrev db_mount : MountEntry
db_mount = record kv_mount { id = codes "m3"; path = codes "db/"; backend_type = postgres }

-- the new mount stands in the table
db_is_mounted : (mount engines db_mount context).0 ≡ ok (codes "m3")
unfolding mount mount_entry mount_route_entry Mount.create longest_prefix like fold ◌>>=◌
db_is_mounted = refl

mount-IsMounted_example : IsMounted engines (mount engines db_mount context).1
mount-IsMounted_example = mount-IsMounted engines db_mount context context-IsMounted
