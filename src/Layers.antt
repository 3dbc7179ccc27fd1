-- ===== src/Layers.antt =====
-- covert-server/src/layer and lib.rs: the layers between the HTTP server and the router, in the order
-- that `start` puts them in. The state of the pool is read once for a request, and the clock where
-- the code reads it. What the layers of other packages do is left out: limits of time, size and
-- number of requests, and CORS.
pub mod Unauthorized
use covert.Prelude.{
  ℕ, ◌&&◌, ◌||◌, not, Bool, true, false, List, [], ◌∷◌, Option, none, some, Str, codes, map, select,
  reverse, starts_with, split, is_empty, if◌then◌else◌, leb, ◌==◌, ◌+◌, Result, ok, err,
}
use covert.Prelude.Exec.{Exec, ◌>>=◌}
use covert.Policy.Paths.{Operation, create, read, update, delete}
use covert.Ttl.{Chrono}
use covert.Namespace.{find_by_path}
use covert.Auth
use covert.Auth.{StorageState, is_unsealed, is_authorized}
use covert.Router.{drop, Request, AuthPolicy, authenticated, unauthenticated, ResponseContext}
use covert.Router.Dispatch.{route}
use covert.Expiration.Registration.{Response, Answer}
use covert.Expiration.Registration
use covert.Server.Tables.{Tables, Error, bad_request, slash, root_name}

abbrev pub Service : Type 0 → Type 0
Service A = Request → Exec Tables Error A

-- what the authorisation reads of a request
abbrev pub as_read : Request → Auth.Request
as_read req = record {
  operation = req.operation;
  path = req.path;
  namespace = req.namespace;
  token = req.token;
  storage_state = req.storage_state;
}

module _ {A : Type 0} where
  -- layer/storage_state_extension.rs
  unfoldable pub storage_state_extension : StorageState → Service A → Service A
  storage_state_extension state inner req = inner (record req { storage_state = some state })

  -- layer/namespace_extension.rs
  unfoldable pub namespace_extension : Service A → Service A
  namespace_extension inner req t =
      if is_unsealed req.storage_state
      then elim (find_by_path req.namespace t.namespaces) [
        | none ↦ (err bad_request, t)
        | some ns ↦ inner (record req { ns = some ns }) t
      ]
      else inner req t

  -- layer/auth_service.rs
  unfoldable pub auth_service : ℕ → Service A → Service A
  auth_service now inner req t = elim (is_authorized (as_read req) now t) [
    | err e ↦ (err e, t)
    | ok authorized ↦
        inner
          (record req {
            auth_policy = some (if authorized then authenticated else unauthenticated);
          })
          t
  ]

-- `RouterService`, the lease registration and the layers around them, for one request. Ids and the
-- readings of the clock are drawn by the caller.
module _ {B : Type 0} (chrono : Chrono) (revoke_params : Str → Str)
    (handle_request : B → Request → Exec Tables Error Response) (backends : List (Str × B)) where
  -- layer/lease_registration.rs, around the router
  unfoldable pub lease_registration : Str → Str → ℕ → ℕ → Service Answer
  unfolding ◌>>=◌
  lease_registration lease_id token now later req = do
    resp ← route handle_request backends req
    Registration.call chrono revoke_params req.ns resp.1 lease_id token now later resp.0

  -- the stack of `start`
  unfoldable pub serve : StorageState → ℕ → Str → Str → ℕ → ℕ → Service Answer
  unfolding storage_state_extension namespace_extension auth_service
  serve state checked lease_id token now later =
      storage_state_extension state
        (namespace_extension (auth_service checked (lease_registration lease_id token now later)))

-- covert-types/src/request.rs, `Request::new`: what is read of an HTTP request. A header is none if it
-- is missing, and its text none if it is not visible ASCII; a body that cannot be read is none.
pub data Method : Type 0 where
  get_method post_method put_method delete_method other_method : Method

pub record HttpRequest : Type 0 where
  pub method : Method
  pub uri_path : Str
  pub covert_token : Option (Option Str)
  pub covert_namespace : Option (Option Str)
  pub body : Option Str

abbrev pub operation_of : Method → Result Error Operation
operation_of get_method = ok read
operation_of post_method = ok create
operation_of put_method = ok update
operation_of delete_method = ok delete
operation_of other_method = err bad_request

-- `trim`, for the blanks that a header's text may hold
abbrev pub trim_start : Str → Str
trim_start [] = []
trim_start (c ∷ s) = let rest = trim_start s in if c == b' ' || c == 9 then rest else c ∷ s

abbrev pub trim : Str → Str
trim s = reverse (trim_start (reverse (trim_start s)))

-- `to_lowercase`, of ASCII
abbrev pub lower : ℕ → ℕ
lower c = if leb b'A' c && leb c b'Z' then c + 32 else c

unfoldable pub namespace_of : Option (Option Str) → List Str
namespace_of (some (some s)) =
    select (λ name. not (is_empty name)) (split slash (map lower (trim s)))
namespace_of (some none) = root_name ∷ []
namespace_of none = root_name ∷ []

abbrev pub token_of : Option (Option Str) → Option Str
token_of (some (some s)) = if is_empty s then none else some s
token_of (some none) = none
token_of none = none

unfoldable pub logical_request : HttpRequest → Result Error Request
unfolding namespace_of
logical_request raw = elim (operation_of raw.method) [
  | err e ↦ err e
  | ok operation ↦ elim raw.body [
    | none ↦ err bad_request
    | some bytes ↦ ok (record {
      operation = operation;
      namespace = namespace_of raw.covert_namespace;
      path = if starts_with raw.uri_path (codes "/v1/") then drop 4 raw.uri_path else raw.uri_path;
      payload = bytes;
      params = [];
      token = token_of raw.covert_token;
      ns = none;
      config = none;
      storage_state = none;
      auth_policy = none;
    })
  ]
]
