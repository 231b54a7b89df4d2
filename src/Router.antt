-- ===== src/Router.antt =====
-- The HTTP endpoint of the server (api/router/router.go). gorilla/mux and net/http are the calls that
-- the code makes of them, and encoding/json is a parameter.
use kubewatch.Common.{List, String, [], ℕ, ◌++◌, ◌∷◌}
use kubewatch.Common.Int.{pos, ℤ}
use kubewatch.Common.Result.{Result, err, ok}

pub record Response : Type 0 where
  pub code : ℤ
  pub body : String

-- A call of the writer of a response.
pub data WriterCall : Type 0 where
  set_header : String → String → WriterCall
  write_header : ℕ → WriterCall
  write_body : String → WriterCall

-- What is registered at the router: a prefix for another router, a handler of a library, and the
-- handler of this package.
pub data Route : Type 0 where
  prefix_router : String → Route
  library_handler : String → Route
  health_handler : String → Route

abbrev body_or_text : Result String → String
body_or_text (err e) = "OK"
body_or_text (ok b) = b

-- The handler of `/health`.
unfoldable pub health : (Response → Result String) → List WriterCall
health marshal =
    set_header "Content-Type" "application/json"
    ∷ write_header 200
    ∷ write_body (body_or_text (marshal (record { code = pos 200; body = "OK" })))
    ∷ []

-- `Init`: the routes in the order of their registration; `monitoring` is what the monitoring router
-- of common-lib registers under the two prefixes.
unfoldable pub init_routes : (String → String → String → List Route) → List Route
init_routes monitoring =
    prefix_router "/kubewatch/debug/pprof/"
      ∷ prefix_router "/kubewatch"
      ∷ monitoring "/kubewatch/debug/pprof/" "/kubewatch" "/kubewatch"
    ++ library_handler "/metrics" ∷ health_handler "/health" ∷ []
