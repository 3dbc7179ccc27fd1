-- ===== src/System/Namespaces/Ranked.antt =====
-- covert-server/src/system: the numbers of the namespaces during a deletion.
use covert.Prelude.{
  ℕ, ◌≡◌, refl, sym, ◌∙◌, subst, Bool, ◌&&◌, List, [], ◌∷◌, Str, any, inl, inr, Bool-cases, In,
  delete-In,
}
use covert.Prelude.Exec.{Exec, Keeps, keeps_rules}
use covert.Server.Tables.{Tables, Namespace, MountEntry, LeaseEntry, Error}
use covert.Namespace.{is_deletable, is_referenced, delete_by_id}
use covert.Namespace.Ranks.{IsRanked}
use covert.Mount.{is_mount, has_lease, remove_by_path}
use covert.Router.{Request}
use covert.System.{Context}
use covert.System.Unmount.{remove_mount, revoke_leases, unroute, remove_row}
use covert.Expiration.Revocation.{revoke_each, revoke_leases_by_mount_prefix, revoke_lease_entry}
use covert.Expiration.Revocation.Outcome.{IsQuiet, revoke_lease_entry-places}
use covert.System.Namespaces.{delete_row}

delete_by_id-In :
    (id : Str) (t : Tables) (ns : Namespace)
    → In ns (delete_by_id id t).1.namespaces
    → In ns t.namespaces
unfolding delete_by_id
delete_by_id-In id t ns = elim (Bool-cases (any (is_deletable id) t.namespaces)) [
  | inr absent ↦ rw absent (λ m. m)
  | inl present ↦ elim (Bool-cases (is_referenced id t)) [
    | inl referenced ↦ rw (present, referenced) (λ m. m)
    | inr unused ↦ rw (present, unused) (λ m. (delete-In (is_deletable id) t.namespaces ns m).0)
  ]
]

quiet_revocations :
    {B R : Type 0} (handle_request : B → Request → Exec Tables Error R)
    (elapsed : LeaseEntry → Tables → Bool) (quiet : IsQuiet handle_request) (es : List (Str × B))
    (les : List LeaseEntry) (t : Tables)
    → (revoke_each handle_request elapsed es les t).1.namespaces ≡ t.namespaces
quiet_revocations handle_request elapsed quiet es [] t = refl
quiet_revocations handle_request elapsed quiet es (le ∷ les) t =
    quiet_revocations handle_request elapsed quiet es les
      (revoke_lease_entry handle_request elapsed es le t).1
    ∙ (revoke_lease_entry-places handle_request elapsed es quiet le t).0

remove_by_path-namespaces :
    (path namespace_id : Str) (t : Tables)
    → (remove_by_path path namespace_id t).1.namespaces ≡ t.namespaces
unfolding remove_by_path
remove_by_path-namespaces path namespace_id t =
    elim (Bool-cases (any (is_mount path namespace_id) t.mounts && has_lease path namespace_id t)) [
      | inl leased ↦ rw leased refl
      | inr free ↦ rw free refl
    ]

module _ {B : Type 0} (r : Str → ℕ) where
  -- the numbers are those of the table
  abbrev pub Ranked : Context B → Type 0
  Ranked s = IsRanked r s.tables.namespaces

  pub delete_row-Ranked : (id : Str) → Keeps Ranked (delete_row id)
  delete_row-Ranked id = record { at = λ s h ns p m e. h ns p (delete_by_id-In id s.tables ns m) e }

module _ {B R : Type 0} (is_uuid : Str → Bool) (drops : MountEntry → Bool)
    (handle_request : B → Request → Exec Tables Error R) (elapsed : LeaseEntry → Tables → Bool)
    (quiet : IsQuiet handle_request) (r : Str → ℕ) where
  revoke_leases-Ranked :
      (path namespace_id : Str)
      → Keeps (Ranked r) (revoke_leases handle_request elapsed path namespace_id)
  unfolding revoke_leases_by_mount_prefix
  revoke_leases-Ranked path namespace_id = record {
    at = λ s h.
        subst (IsRanked r)
          (sym (
            quiet_revocations handle_request elapsed quiet s.router
              (covert.Expiration.list_by_mount_prefix path namespace_id s.tables) s.tables))
          h;
  }

  unroute-Ranked : (id : Str) → Keeps (Ranked {B = B} r) (unroute id)
  unroute-Ranked id = record { at = λ s h. h }

  remove_row-Ranked :
      (path namespace_id : Str) → Keeps (Ranked {B = B} r) (remove_row path namespace_id)
  remove_row-Ranked path namespace_id = record {
    at = λ s h. subst (IsRanked r) (sym (remove_by_path-namespaces path namespace_id s.tables)) h;
  }

  pub remove_mount-Ranked :
      (path namespace_id : Str)
      → Keeps (Ranked r) (remove_mount is_uuid drops handle_request elapsed path namespace_id)
  unfolding remove_mount
  remove_mount-Ranked path namespace_id =
      search (keeps_rules, revoke_leases-Ranked, unroute-Ranked, remove_row-Ranked) depth 12
