-- ===== src/Router/Dispatch.antt =====
-- covert-server/src/router.rs: `route`.
use covert.Prelude.{List, Str}
use covert.Prelude.Exec.{Exec, pure, query, ◌>>=◌}
use covert.Router.{Request, ResponseContext, resolve, as_seen}
use covert.Server.Tables.{Tables, Error}

module _ {B R : Type 0} (handle_request : B → Request → Exec Tables Error R) where
  -- `route`
  unfoldable pub route : List (Str × B) → Request → Exec Tables Error (R × ResponseContext)
  unfolding ◌>>=◌
  route es req = do
    found ← query (resolve es req)
    response ← handle_request found.0 (as_seen req found.1 found.2)
    pure (response, record { backend_config = found.2; backend_mount_path = found.1 })
