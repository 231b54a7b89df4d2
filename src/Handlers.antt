-- ===== src/Handlers.antt =====
-- The handlers that tell of events (pkg/handlers), and the choice of one (pkg/client/run.go).
pub mod Slack
pub mod Hipchat
pub mod Mattermost
pub mod Flock
pub mod Webhook
pub mod Choice
pub mod Selection
pub mod Notices
pub mod Delivery
pub mod Told
use kubewatch.Common.{String, if◌then◌else◌, int_eq, nat_eq, string_eq, ◌==◌}
use kubewatch.Common.Result.{Result}
use kubewatch.Config.{Environment}

-- `net/http` and `encoding/json`, as the handlers use them.
pub record Net : Type 1 where
  pub Request : Type 0
  pub Response : Type 0
  pub new_request : String → String → String → Result Request
  pub add_header : String → String → Request → Request
  pub send : Request → Result Response

-- `if value == "" { value = os.Getenv(name) }`.
abbrev pub fallback : Environment → String → String → String
fallback env name value = if value == "" then env.getenv name else value

-- The error of a handler, made by `fmt.Errorf`: its text.
pub data InitError : Type 0 where
  missing : String → InitError
