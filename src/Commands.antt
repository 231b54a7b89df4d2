-- ===== src/Commands.antt =====
-- The commands that edit the configuration (cmd/resource.go, cmd/slack.go, cmd/hipchat.go,
-- cmd/mattermost.go, cmd/flock.go, cmd/webhook.go).
pub mod Resources
pub mod Settings
pub mod Root
pub mod Tree
use kubewatch.Common.{
  Bool, List, Option, String, [], false, if◌then◌else◌, int_eq, nat_eq, none, not, some, string_eq,
  true, ◌==◌, ◌∷◌,
}
use kubewatch.Common.Result.{Result, err, ok, ◌>>=◌}
use kubewatch.Config.{Config, Environment, Files, Resource, new_config, write}

-- The flags of a command: `GetBool` and `GetString` of cobra, which fail for a flag that is not
-- declared.
pub record Flags : Type 0 where
  pub get_bool : String → Result Bool
  pub get_string : String → Result String

-- `resource add` and `resource remove`.
pub data Operation : Type 0 where
  add : Operation
  remove : Operation

-- A flag and the field that it points to, as what it does to the value of the field.
abbrev pub FlagEntry : Type 0
FlagEntry = String × ((Bool → Bool) → Resource → Resource)

abbrev pub resource_flags : List FlagEntry
resource_flags =
    ("svc", λ f r. record r { services = f r.services })
    ∷ ("deploy", λ f r. record r { deployment = f r.deployment })
    ∷ ("po", λ f r. record r { pod = f r.pod })
    ∷ ("rs", λ f r. record r { replica_set = f r.replica_set })
    ∷ ("rc", λ f r. record r { replication_controller = f r.replication_controller })
    ∷ ("ns", λ f r. record r { namespace = f r.namespace })
    ∷ ("job", λ f r. record r { job = f r.job })
    ∷ ("pv", λ f r. record r { persistent_volume = f r.persistent_volume })
    ∷ ("ds", λ f r. record r { daemon_set = f r.daemon_set })
    ∷ ("secret", λ f r. record r { secret = f r.secret })
    ∷ ("cm", λ f r. record r { config_map = f r.config_map })
    ∷ ("ing", λ f r. record r { ingress = f r.ingress })
    ∷ ("events", λ f r. record r { events = f r.events })
    ∷ []

-- The value of a field after its flag `b` was read.
abbrev pub watched_after : Operation → Bool → Bool → Bool
watched_after add b current = if b then true else current
watched_after remove b current = if b then false else current

-- The loop over the flags. An error ends the program.
unfoldable pub apply_flags : Operation → Flags → List FlagEntry → Resource → Result Resource
apply_flags operation flags [] r = ok r
apply_flags operation flags ((name, update) ∷ entries) r = elim (flags.get_bool name) [
  | err e ↦ err e
  | ok b ↦ apply_flags operation flags entries (update (watched_after operation b) r)
]

-- `configureResource`, up to the write.
unfoldable pub configure_resource : Operation → Flags → Config → Result Config
configure_resource operation flags conf = do
  r ← apply_flags operation flags resource_flags conf.resource
  ok (record conf { resource = r })

-- `if len(value) > 0 { field = value }`.
abbrev pub set_if_given : String → String → String
set_if_given value field = if not (value == "") then value else field

unfoldable pub configure_slack : Flags → Config → Result Config
configure_slack flags conf = do
  token ← flags.get_string "token"
  channel ← flags.get_string "channel"
  let s = conf.handler.slack
  ok (record conf {
    handler = record conf.handler {
      slack = record {
        token = set_if_given token s.token;
        channel = set_if_given channel s.channel;
      };
    };
  })

unfoldable pub configure_hipchat : Flags → Config → Result Config
configure_hipchat flags conf = do
  token ← flags.get_string "token"
  room ← flags.get_string "room"
  let s = conf.handler.hipchat
  ok (record conf {
    handler = record conf.handler {
      hipchat = record s { token = set_if_given token s.token; room = set_if_given room s.room };
    };
  })

-- The user name is set where the URL is given.
unfoldable pub configure_mattermost : Flags → Config → Result Config
configure_mattermost flags conf = do
  channel ← flags.get_string "channel"
  url ← flags.get_string "url"
  username ← flags.get_string "username"
  let s = conf.handler.mattermost
  ok (record conf {
    handler = record conf.handler {
      mattermost = record {
        channel = set_if_given channel s.channel;
        url = set_if_given url s.url;
        username = if not (url == "") then username else s.username;
      };
    };
  })

unfoldable pub configure_flock : Flags → Config → Result Config
configure_flock flags conf = do
  url ← flags.get_string "url"
  ok (record conf {
    handler = record conf.handler {
      flock = record { url = set_if_given url conf.handler.flock.url };
    };
  })

unfoldable pub configure_webhook : Flags → Config → Result Config
configure_webhook flags conf = do
  url ← flags.get_string "url"
  ok (record conf {
    handler = record conf.handler {
      webhook = record { url = set_if_given url conf.handler.webhook.url };
    };
  })

-- How a command ends: by `logrus.Fatal`, or well.
pub data Ending (E : Type 0) : Type 0 where
  file_failed : E → Ending E
  flag_failed : String → Ending E
  finished : Ending E

module _ (fs : Files) (env : Environment) where
  -- After the write.
  unfoldable pub finish : Option fs.FileError × fs.Disk → Ending fs.FileError × fs.Disk
  finish (some e, disk) = (file_failed e, disk)
  finish (none, disk) = (finished, disk)

  -- After the edit.
  unfoldable pub save : Result Config → fs.Disk → Ending fs.FileError × fs.Disk
  save (err e) disk = (flag_failed e, disk)
  save (ok conf) disk = finish (write fs env conf disk)

  -- After the configuration was read.
  unfoldable pub edit_loaded :
      (Config → Result Config)
      → Option fs.FileError × Config × fs.Disk
      → Ending fs.FileError × fs.Disk
  edit_loaded edit (some e, conf, disk) = (file_failed e, disk)
  edit_loaded edit (none, conf, disk) = save (edit conf) disk

  -- A command: the configuration is read, edited and written.
  unfoldable pub command : (Config → Result Config) → fs.Disk → Ending fs.FileError × fs.Disk
  command edit disk = edit_loaded edit (new_config fs env disk)
