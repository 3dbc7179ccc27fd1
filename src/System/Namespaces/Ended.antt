-- ===== src/System/Namespaces/Ended.antt =====
-- covert-server/src/system/namespace.rs: how a deletion ends.
use covert.Prelude.{
  ℕ, zero, suc, ◌<◌, ◌≤◌, ◌≡◌, refl, Bool, true, false, List, some, Str, any, length, first, select,
  str_eq, eq_of_str_eq, str_eq_refl, Result, ok, err, arith, inl, inr, Bool-cases, In, In-any,
  select-In, first-In, any-delete, Option-cases,
}
use covert.Prelude.Exec.{Exec, bind_result, pure, query, ◌>>=◌}
use covert.Server.Tables.{
  Tables, Namespace, MountEntry, LeaseEntry, Error, internal_error, not_found,
}
use covert.Namespace.{has_id, opt_eq, list, is_deletable, is_referenced, delete_by_id}
use covert.Namespace.Forest.{IsForest, any-delete-false}
use covert.Namespace.Ranks.{rank, rank-IsRanked, rank_lt_length}
use covert.Namespace.Chains.{opt_eq_iff_some}
use covert.Mount
use covert.Mount.{is_mount, has_lease, remove_by_path}
use covert.Router.{Request}
use covert.System.{Context}
use covert.System.Unmount.{remove_mount}
use covert.Expiration.Revocation.Outcome.{IsQuiet}
use covert.System.Namespaces.Runs.{
  Any, Ends, done, stopped, Runs, Runs-pure, Runs-bind, Runs-stopping, Runs-for_each, Runs-Any,
}
use covert.System.Namespaces.{
  Stop, failed, or_stop, stopping, for_each, delete_row, ensure_deleted, remove_one,
  delete_namespace, delete_namespace_handler,
}
use covert.System.Namespaces.Ranked.{Ranked, delete_row-Ranked, remove_mount-Ranked}

-- Nothing is left of a namespace: no row of it, no child and no mount.
pub record IsGone (id : Str) (t : Tables) : Type 0 where
  no_row : any (is_deletable id) t.namespaces ≡ false
  no_child : any (λ ns. opt_eq ns.parent_namespace_id (some id)) t.namespaces ≡ false
  no_mount : any (λ m. str_eq m.namespace_id id) t.mounts ≡ false

delete_by_id-IsGone :
    (id : Str) (t : Tables) → (delete_by_id id t).0 ≡ ok true → IsGone id (delete_by_id id t).1
unfolding delete_by_id
delete_by_id-IsGone id t = elim (Bool-cases (any (is_deletable id) t.namespaces)) [
  | inr absent ↦ rw absent (λ h. absurd (cc))
  | inl present ↦ elim (Bool-cases (is_referenced id t)) [
    | inl referenced ↦ rw (present, referenced) (λ h. absurd (cc))
    | inr unused ↦
        rw (present, unused)
          (λ h. record {
            no_row = any-delete (is_deletable id) t.namespaces;
            no_child =
                any-delete-false (is_deletable id) (λ ns. opt_eq ns.parent_namespace_id (some id))
                  t.namespaces (ground (arith, unused));
            no_mount = ground (arith, unused);
          })
  ]
]

module _ {B : Type 0} (r : Str → ℕ) (id : Str) where
  -- the namespace is gone in the tables
  abbrev pub Gone : Unit {0} → Context B → Type 0
  Gone _ u = IsGone id u.tables

  ensure_deleted-Ends :
      (res : Result Error Bool) (u : Context B)
      → Ranked r u
      → (res ≡ ok true → IsGone id u.tables)
      → Ends (Ranked r) Gone (bind_result (or_stop res) ensure_deleted u)
  unfolding ◌>>=◌
  ensure_deleted-Ends (ok true) u p g = done tt u p (g refl)
  ensure_deleted-Ends (ok false) u p g = stopped internal_error u p
  ensure_deleted-Ends (err e) u p g = stopped e u p

  delete_row-Runs : Runs (Ranked r) Gone (stopping (delete_row id) >>= ensure_deleted)
  unfolding ◌>>=◌
  delete_row-Runs = record {
    at = λ s p.
        let d = delete_row id s in
        ensure_deleted-Ends d.0 d.1 ((delete_row-Ranked r id).at s p)
          (delete_by_id-IsGone id s.tables);
  }

list-In :
    (id : Str) (rows : List Namespace) (c : Namespace)
    → In c (list id rows)
    → In c rows × (c.parent_namespace_id ≡ some id)
unfolding list
list-In id rows c m =
    let (i, e) = select-In (λ ns. opt_eq ns.parent_namespace_id (some id)) rows c m in
    (i, opt_eq_iff_some c.parent_namespace_id id e)

module _ {B : Type 0} where
  -- How a deletion ends: the child of this name was found, and nothing is left of it; or an error is
  -- answered, which is not that the fuel has run out.
  pub data Ended (name : Str) (ns : Namespace) (s : Context B)
      : Result Stop (Str × Str) × Context B → Type 0 where
    gone :
        (c : Namespace) (u : Context B)
        → In c s.tables.namespaces
        → c.name ≡ name
        → c.parent_namespace_id ≡ some ns.id
        → IsGone c.id u.tables
        → Ended name ns s (ok (c.id, c.name), u)
    refused : (e : Error) (u : Context B) → Ended name ns s (err (failed e), u)

module _ {B R : Type 0} (is_uuid : Str → Bool) (drops : MountEntry → Bool)
    (handle_request : B → Request → Exec Tables Error R) (elapsed : LeaseEntry → Tables → Bool)
    (quiet : IsQuiet handle_request) where
  module _ (r : Str → ℕ) where
    remove_one-Runs :
        (id : Str) (m : MountEntry)
        → Runs (Ranked r) Any (remove_one is_uuid drops handle_request elapsed id m)
    remove_one-Runs id m =
        Runs-bind Any Any (stopping (remove_mount is_uuid drops handle_request elapsed m.path id)) _
          (Runs-stopping _
            (remove_mount-Ranked is_uuid drops handle_request elapsed quiet r m.path id))
          (λ _ u p _. (Runs-pure tt).at u p)

    -- the steps after the children are gone
    unmount-Runs :
        (id : Str)
        → Runs (Ranked r) (Gone r id) (
            query (λ s. ok (Mount.list id s.tables)) >>= (λ mounts.
              for_each (remove_one is_uuid drops handle_request elapsed id) mounts
              >>= (λ _. stopping (delete_row id) >>= ensure_deleted)))
    unfolding ◌>>=◌
    unmount-Runs id = record {
      at = λ s p.
          (Runs-bind Any (Gone r id)
              (for_each (remove_one is_uuid drops handle_request elapsed id)
                (Mount.list id s.tables))
              _ (Runs-for_each _ (Mount.list id s.tables) (λ m _. remove_one-Runs id m))
              (λ _ u q _. (delete_row-Runs r id).at u q)).at
            s p;
    }

    delete_namespace-Runs :
        (fuel : ℕ) (id : Str)
        → r id < fuel
        → Runs
            (Ranked r)
            (Gone r id)
            (delete_namespace is_uuid drops handle_request elapsed fuel id)
    unfolding delete_namespace ◌>>=◌
    delete_namespace-Runs zero id enough = absurd (omega (arith, enough))
    delete_namespace-Runs (suc fuel) id enough = record {
      at = λ s p.
          (Runs-bind Any (Gone r id)
              (for_each (λ c. delete_namespace is_uuid drops handle_request elapsed fuel c.id)
                (list id s.tables.namespaces))
              _
              (Runs-for_each _ (list id s.tables.namespaces) (λ c m.
                let (i, e) = list-In id s.tables.namespaces c m in
                Runs-Any _ _ (delete_namespace-Runs fuel c.id (omega (arith, p c id i e, enough)))))
              (λ _ u q _. (unmount-Runs id).at u q)).at
            s p;
    }

  answered :
      (r : Str → ℕ) (name : Str) (ns c : Namespace) (s : Context B)
      (o : Result Stop (Unit {0}) × Context B)
      → In c s.tables.namespaces
      → c.name ≡ name
      → c.parent_namespace_id ≡ some ns.id
      → Ends (Ranked r) (Gone r c.id) o
      → Ended name ns s (bind_result o.0 (λ _. pure (c.id, c.name)) o.1)
  unfolding ◌>>=◌
  answered r name ns c s _ i n e (done a u p g) = gone c u i n e g
  answered r name ns c s _ i n e (stopped x u p) = refused x u

  named-In :
      (name : Str) (ns c : Namespace) (rows : List Namespace)
      → first (select (λ c. str_eq c.name name) (list ns.id rows)) ≡ some c
      → In c rows × (c.name ≡ name) × (c.parent_namespace_id ≡ some ns.id)
  named-In name ns c rows h =
      let (m, n) = select-In (λ c. str_eq c.name name) (list ns.id rows) c (first-In _ c h) in
      let (i, e) = list-In ns.id rows c m in (i, eq_of_str_eq c.name name n, e)

  -- In a forest of namespaces and with as much fuel as it has rows, deleting a namespace never
  -- runs out of fuel: either an error is answered, or the child of this name was found, and no row
  -- of it, no child and no mount of it is left; as long as the backends revoke without touching
  -- the tables of leases, namespaces and mounts.
  pub delete_namespace_handler-Ended :
      (fuel : ℕ) (name : Str) (ns : Namespace) (s : Context B)
      → IsForest s.tables.namespaces
      → length s.tables.namespaces ≤ fuel
      → Ended name ns s
          (delete_namespace_handler is_uuid drops handle_request elapsed fuel name ns s)
  unfolding delete_namespace_handler ◌>>=◌
  delete_namespace_handler-Ended fuel name ns s f enough =
      let rows = s.tables.namespaces in
      elim (Option-cases (first (select (λ c. str_eq c.name name) (list ns.id rows)))) [
        | inl none_found ↦ rw none_found (refused not_found s)
        | inr (c, found) ↦
            let (i, n, e) = named-In name ns c rows found in
            let below =
              rank_lt_length rows c.id (In-any (has_id c.id) rows c i (str_eq_refl c.id)) in
            rw found (
              answered (rank rows) name ns c s _ i n e (
                (delete_namespace-Runs (rank rows) fuel c.id (omega (arith, below, enough))).at s
                  (rank-IsRanked rows f)))
      ]
