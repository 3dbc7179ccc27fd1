-- ===== src/Examples/Revocations.antt =====
-- Revocation and the worker, with a backend that agrees and one that refuses.
use covert.Prelude.{
  ◌≡◌, ◌<◌, refl, ap, Bool, true, false, List, [], ◌∷◌, none, some, Str, codes, ok, err, arith, In,
  here, there, inl, inr, length, Result-cases,
}
use covert.Prelude.Exec.{Exec, Yields, Yields-query, Yields-bind, ◌>>=◌}
use covert.Namespace
use covert.Router.{Request, resolve}
use covert.Router.Dispatch.{route}
use covert.Server.Tables.{Tables, LeaseEntry, Error, internal_error}
use covert.Lease
use covert.Lease.Like.{like, fold}
use covert.Mount.{longest_prefix}
use covert.Lease.{is_lease, pull}
use covert.Expiration.{revocation_max_retries}
use covert.Expiration.Revocation.{
  after_send, revoke_lease_entry, send_lease_revoke_request, work, with_timeout,
}
use covert.Expiration.Revocation.Outcome.{IsQuiet}
use covert.Expiration.Revocation.Retries.{revoke_times, Refuses, revoke_times-given_up}
use covert.Expiration.Revocation.Worker.{Agrees, shares_id, work-others, work-revokes}
use covert.Examples.{store, first_lease, second_lease}

abbrev pub agrees : Bool → Request → Exec Tables Error Bool
agrees b req t = (ok true, t)

abbrev pub refuses : Bool → Request → Exec Tables Error Bool
refuses b req t = (err internal_error, t)

abbrev pub in_time : LeaseEntry → Tables → Bool
in_time le t = false

abbrev backends : List (Str × Bool)
backends = (codes "m1", true) ∷ []

pub agrees-IsQuiet : IsQuiet agrees
agrees-IsQuiet b req t r = (refl, refl, refl)

pub refuses-IsQuiet : IsQuiet refuses
refuses-IsQuiet b req t r = (refl, refl, refl)

-- either lease of the store is revoked, whatever else the tables hold
both_are_revoked : Agrees agrees in_time backends agrees-IsQuiet store
unfolding revoke_lease_entry after_send send_lease_revoke_request Namespace.lookup
    Namespace.get_full_path Namespace.find_parents Namespace.climb route resolve longest_prefix like
    fold Lease.delete_by_id ◌>>=◌
both_are_revoked le u (here e) f g = rw (e, f, g) refl
both_are_revoked le u (there (here e)) f g = rw (e, f, g) refl
both_are_revoked le u (there (there m)) f g = elim m [ ]

never_bound :
    {A C : Type 0} (m : Exec Tables Error A) (k : A → Exec Tables Error C) (s : Tables)
    → Yields (λ a u. ⊥) m s
    → Yields (λ c u. ⊥) (m >>= k) s
never_bound m k s never = Yields-bind m k s (λ a u e. absurd (never.at a u e))

never_answered : (b : Bool) (req : Request) (s : Tables) → Yields (λ a u. ⊥) (refuses b req) s
never_answered b req s = record { at = λ a u e. ground (arith, ap (λ p. p.0) e) }

never_routed : (req : Request) (s : Tables) → Yields (λ a u. ⊥) (route refuses backends req) s
unfolding route
never_routed req s = search (Yields-query, never_bound, never_answered) depth 8

never_in_time :
    (le : LeaseEntry) (req : Request) (s : Tables)
    → Yields (λ a u. ⊥) (with_timeout (in_time le) (route refuses backends req)) s
never_in_time le req s = record { at = λ a u e. (never_routed req s).at a u e }

never_sent :
    (le : LeaseEntry) (s : Tables)
    → Yields (λ a u. ⊥) (send_lease_revoke_request refuses in_time backends le) s
unfolding send_lease_revoke_request
never_sent le s = search (Yields-query, never_bound, never_in_time) depth 8

found_first : Lease.lookup (codes "l1") (codes "t") store ≡ some first_lease
unfolding Lease.lookup
found_first = refl

refuses-Refuses : Refuses refuses in_time backends
refuses-Refuses le t =
    elim (Result-cases (send_lease_revoke_request refuses in_time backends le t).0) [
      | inl (a, e) ↦ absurd (
          (never_sent le t).at a (send_lease_revoke_request refuses in_time backends le t).1
            (ap (λ r. (r, (send_lease_revoke_request refuses in_time backends le t).1)) e))
      | inr (x, e) ↦ (x, e)
    ]

revoke_times-given_up_example :
    Lease.lookup
      (codes "l1")
      (codes "t")
      (revoke_times refuses in_time backends revocation_max_retries (codes "l1") (codes "t") store)
    ≡ none
revoke_times-given_up_example =
    revoke_times-given_up refuses in_time backends refuses-IsQuiet refuses-Refuses (codes "l1")
      (codes "t") first_lease store found_first refl

not_pulled : shares_id second_lease (pull 100 20 store) ≡ false
unfolding pull
not_pulled = refl

few_are_pulled : length (pull 100 20 store) < 100
unfolding pull
few_are_pulled = omega arith

second_is_left : In second_lease (work agrees in_time backends 20 store).leases
second_is_left =
    (work-others agrees in_time backends agrees-IsQuiet 20 store second_lease not_pulled).0
      (here refl)

work-revokes_example : 20 < second_lease.expires_at
work-revokes_example =
    work-revokes agrees in_time backends agrees-IsQuiet store both_are_revoked 20 second_lease
      few_are_pulled second_is_left
