-- ===== src/Examples.antt =====
-- A store with one namespace below the root, and the theorems at that store.
mod Access
mod Namespaces
mod Secrets
mod Leases
mod Revocations
mod Routing
mod Seals
mod Engines
mod Servers
mod Unmounting
mod Openings
mod Systems
mod Databases
use covert.Prelude.{List, [], ◌∷◌, none, some, Str, codes}
use covert.Policy.{Policy}
use covert.Policy.Paths.{Operation, read}
use covert.Ttl.{MountConfig}
use covert.Server.Tables.{Namespace, Tables, MountEntry, LeaseEntry, TokenEntry, kv, userpass}

abbrev pub root_ns : Namespace
root_ns = record { id = codes "r"; name = codes "root"; parent_namespace_id = none }

abbrev pub team_ns : Namespace
team_ns = record { id = codes "t"; name = codes "team"; parent_namespace_id = some (codes "r") }

abbrev pub readers : Policy
readers = record {
  name = codes "readers";
  paths = record { path = codes "kv/*"; operations = read ∷ [] } ∷ [];
  namespace_id = codes "t";
}

abbrev pub ann_token : TokenEntry
ann_token = record {
  id = codes "s1";
  entity_name = codes "ann";
  expires_at = some 100;
  issued_at = 0;
  namespace_id = codes "t";
}

abbrev pub config : MountConfig
config = record { default_lease_ttl = 30; max_lease_ttl = 50 }

abbrev pub kv_mount : MountEntry
kv_mount = record {
  id = codes "m1";
  path = codes "kv/";
  config = config;
  backend_type = kv;
  namespace_id = codes "t";
}

abbrev pub login_mount : MountEntry
login_mount = record {
  id = codes "m2";
  path = codes "auth/up/";
  config = config;
  backend_type = userpass;
  namespace_id = codes "t";
}

abbrev pub first_lease : LeaseEntry
first_lease = record {
  id = codes "l1";
  issued_mount_path = codes "kv/";
  revoke_path = some (codes "revoke");
  revoke_data = [];
  renew_path = some (codes "renew");
  renew_data = [];
  issued_at = 0;
  expires_at = 10;
  last_renewal_time = 0;
  failed_revocation_attempts = 0;
  namespace_id = codes "t";
}

abbrev pub second_lease : LeaseEntry
second_lease = record first_lease { id = codes "l2"; expires_at = 40 }

abbrev pub store : Tables
store = record {
  namespaces = team_ns ∷ root_ns ∷ [];
  entities = record { name = codes "ann"; namespace_id = codes "t" } ∷ [];
  policies = readers ∷ [];
  entity_aliases =
      record {
        name = codes "ann.b";
        mount_path = codes "auth/up/";
        entity_name = codes "ann";
        namespace_id = codes "t";
      }
      ∷ [];
  entity_policies =
      record { entity_name = codes "ann"; policy_name = codes "readers"; namespace_id = codes "t" }
      ∷ [];
  tokens = ann_token ∷ [];
  mounts = kv_mount ∷ login_mount ∷ [];
  leases = second_lease ∷ first_lease ∷ [];
}
