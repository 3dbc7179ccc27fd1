-- ===== src/Examples/Leases.antt =====
-- Times to live, renewal, registration and the queue of expired leases, at concrete inputs.
use covert.Prelude.{ℕ, ◌+◌, ◌-◌, ◌≡◌, refl, min, Bool, [], ◌∷◌, none, some, codes, ok, arith}
use covert.Prelude.Exec.{Exec, ◌>>=◌}
use covert.Ttl.{Chrono, calculate_ttl, calculate_ttl_value}
use covert.Mount
use covert.Namespace
use covert.Auth
use covert.Lease
use covert.Lease.Like.{like, fold}
use covert.Entity.{get_entity_from_alias}
use covert.Expiration.{register}
use covert.Router.Dispatch.{route}
use covert.Router.{resolve, Request, ResponseContext}
use covert.Server.Tables.{Tables, LeaseEntry, MountEntry, Error}
use covert.Lease.{pull}
use covert.Expiration.Renewal.{renew_lease_entry, after_answer}
use covert.Expiration.Renewal.Bounds.{IsBounded, renew_lease_entry-IsBounded}
use covert.Expiration.Registration.{register_token, AuthResponse, Answer}
use covert.Expiration.Registration.Issued.{IsIssued, register_token-IsIssued}
use covert.Examples.{store, config, team_ns}

pub some_eq : (d e : ℕ) → some d ≡ some e → e ≡ d
some_eq d e h = ground (arith, h)

abbrev pub all_fit : Chrono
all_fit = record { from_std = λ d. some d; from_std_keeps = some_eq }

ttl_is_capped : calculate_ttl all_fit 30 0 config (some 100) ≡ ok 20
unfolding calculate_ttl
ttl_is_capped = refl

calculate_ttl_value_example : 20 ≡ min 100 (0 + config.max_lease_ttl - 30)
calculate_ttl_value_example = calculate_ttl_value all_fit 30 0 config (some 100) 20 ttl_is_capped

-- a backend that answers every request
abbrev answers : Bool → Request → Exec Tables Error ℕ
answers b req t = (ok 25, t)

renewed_first :
    (le : LeaseEntry) × (u : Tables) × (renew_lease_entry all_fit answers
        ((codes "m1", Bool.true) ∷ [])
        (λ _ s. some s)
        (λ d. some d)
        (codes "l1")
        (codes "t")
        none
        5
        6
        8
        store
      ≡ (ok le, u))
unfolding renew_lease_entry ◌>>=◌ Lease.lookup Mount.get_by_path calculate_ttl Namespace.lookup
    Namespace.get_full_path Namespace.find_parents Namespace.climb route resolve
    Mount.longest_prefix like fold after_answer Lease.renew
renewed_first = (_, _, refl)

renew_lease_entry-IsBounded_example :
    (m : MountEntry) × (Mount.get_by_path renewed_first.0.issued_mount_path
        renewed_first.0.namespace_id store
      ≡ some m)
    × IsBounded (codes "l1") 6 8 m.config renewed_first.0 renewed_first.1
renew_lease_entry-IsBounded_example =
    renew_lease_entry-IsBounded all_fit answers ((codes "m1", Bool.true) ∷ []) (λ _ s. some s)
      (λ d. some d) (codes "l1") (codes "t") none 5 6 8 store renewed_first.1 renewed_first.0
      (omega arith) renewed_first.2

abbrev login : ResponseContext
login = record { backend_config = config; backend_mount_path = codes "auth/up/" }

abbrev as_ann : AuthResponse
as_ann = record { alias = codes "ann.b"; ttl = none }

logged_in :
    (answer : Answer) × (u : Tables) × (register_token all_fit
        (λ token. token)
        (some team_ns)
        login
        (codes "l3")
        (codes "s2")
        5
        6
        as_ann
        store
      ≡ (ok answer, u))
unfolding register_token ◌>>=◌ get_entity_from_alias calculate_ttl Auth.create register Lease.create
logged_in = (_, _, refl)

register_token-IsIssued_example :
    IsIssued all_fit
      (λ token. token)
      team_ns
      login
      (codes "l3")
      (codes "s2")
      5
      6
      as_ann
      store
      logged_in.0
      logged_in.1
register_token-IsIssued_example =
    register_token-IsIssued all_fit (λ token. token) team_ns login (codes "l3") (codes "s2") 5 6
      as_ann store logged_in.1 logged_in.0 logged_in.2
