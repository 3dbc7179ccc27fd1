-- ===== src/Examples/Servers.antt =====
-- Routes, their guards and the layers in front of them, at concrete inputs.
use covert.Prelude.{List, [], ◌∷◌, none, some, Str, codes, ok, str_eq, if◌then◌else◌}
use covert.Policy.Paths.{read}
use covert.Auth.{unsealed}
use covert.Router.{Request}
use covert.Expiration.Registration.{Response, raw}
use covert.Framework.{Route, unauthenticated_route, call_router}
use covert.Layers.{serve}
use covert.Layers.Unauthorized.{Matcher, Outcome, extended, serve-Outcome}
use covert.Server.Tables.{Tables}
use covert.Examples.{store}
use covert.Examples.Routing.{request}
use covert.Examples.Leases.{all_fit}

abbrev open_route : Route Tables Response
open_route = record { handler = λ req t. (ok (raw req.path), t); config = unauthenticated_route }

abbrev matcher : Matcher
matcher path = if str_eq path (codes "/a") then some ((read, open_route) ∷ [], []) else none

abbrev seen : Request
seen = record request { path = codes "a"; storage_state = some unsealed }

abbrev backends : List (Str × Matcher)
backends = (codes "m1", matcher) ∷ []

serve-Outcome_example :
    Outcome backends all_fit
      (λ s. s)
      unsealed
      20
      (codes "l3")
      (codes "s2")
      20
      20
      (extended backends all_fit (λ s. s) unsealed 20 (codes "l3") (codes "s2") 20 20 request store)
      store
      (serve all_fit
        (λ s. s)
        call_router
        backends
        unsealed
        20
        (codes "l3")
        (codes "s2")
        20
        20
        request
        store)
serve-Outcome_example =
    serve-Outcome backends all_fit (λ s. s) unsealed 20 (codes "l3") (codes "s2") 20 20 request
      store
