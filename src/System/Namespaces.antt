-- ===== src/System/Namespaces.antt =====
-- covert-server/src/system/namespace.rs: deleting a namespace with all below it. The recursion has
-- fuel, and running out of it is an outcome of its own.
pub mod Runs
pub mod Ranked
pub mod Ended
use covert.Prelude.{
  ℕ, zero, suc, Bool, true, false, List, [], ◌∷◌, Str, first, select, str_eq, if◌then◌else◌, Result,
  ok, err, ok_or,
}
use covert.Prelude.Exec.{Exec, pure, raise, query, ◌>>=◌, ◌>>◌}
use covert.Server.Tables.{
  Tables, Namespace, MountEntry, LeaseEntry, Error, internal_error, not_found,
}
use covert.Namespace.{list, delete_by_id}
use covert.Mount
use covert.Router.{Request}
use covert.System.{Context}
use covert.System.Unmount.{remove_mount}

-- how a deletion stops short
pub data Stop : Type 0 where
  out_of_fuel : Stop
  failed : Error → Stop

abbrev pub or_stop : {A : Type 0} → Result Error A → Result Stop A
or_stop (ok a) = ok a
or_stop (err e) = err (failed e)

abbrev pub stopping : {S A : Type 0} → Exec S Error A → Exec S Stop A
stopping m s = let r = m s in (or_stop r.0, r.1)

-- a loop that ends at the first error
abbrev pub for_each :
    {S A : Type 0} → (A → Exec S Stop (Unit {0})) → List A → Exec S Stop (Unit {0})
for_each f [] = pure tt
for_each f (a ∷ rest) = f a >>= (λ _. for_each f rest)

module _ {B : Type 0} where
  abbrev pub delete_row : Str → Exec (Context B) Error Bool
  delete_row id s = let r = delete_by_id id s.tables in (r.0, record s { tables = r.1 })

  -- the end of `delete_namespace`
  abbrev pub ensure_deleted : Bool → Exec (Context B) Stop (Unit {0})
  ensure_deleted deleted = if deleted then pure tt else raise (failed internal_error)

module _ {B R : Type 0} (is_uuid : Str → Bool) (drops : MountEntry → Bool)
    (handle_request : B → Request → Exec Tables Error R)
    (elapsed : LeaseEntry → Tables → Bool) where
  abbrev pub remove_one : Str → MountEntry → Exec (Context B) Stop (Unit {0})
  remove_one namespace_id mount =
      stopping (remove_mount is_uuid drops handle_request elapsed mount.path namespace_id)
      >>= (λ _. pure tt)

  -- `delete_namespace`
  unfoldable pub delete_namespace : ℕ → Str → Exec (Context B) Stop (Unit {0})
  unfolding ◌>>=◌
  delete_namespace zero namespace_id = raise out_of_fuel
  delete_namespace (suc fuel) namespace_id = do
    child_namespaces ← query (λ s. ok (list namespace_id s.tables.namespaces))
    children ← for_each (λ child_ns. delete_namespace fuel child_ns.id) child_namespaces
    mounts ← query (λ s. ok (Mount.list namespace_id s.tables))
    unmounted ← for_each (remove_one namespace_id) mounts
    deleted ← stopping (delete_row namespace_id)
    ensure_deleted deleted

  -- `delete_namespace_handler`
  unfoldable pub delete_namespace_handler : ℕ → Str → Namespace → Exec (Context B) Stop (Str × Str)
  unfolding ◌>>=◌
  delete_namespace_handler fuel name ns = do
    ns_to_delete ← query (λ s. or_stop (
        ok_or (first (select (λ c. str_eq c.name name) (list ns.id s.tables.namespaces)))
          not_found))
    deleted ← delete_namespace fuel ns_to_delete.id
    pure (ns_to_delete.id, ns_to_delete.name)
