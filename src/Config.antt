-- ===== src/Config.antt =====
-- The configuration: its file, and the environment variables that complete it (config/config.go).
pub mod Completed
pub mod Saved
use kubewatch.Common.{
  Bool, Option, String, false, if◌then◌else◌, inl, inr, int_eq, nat_eq, none, not, some, string_eq,
  true, ◌&&◌, ◌==◌, ◌⊎◌,
}

pub record Slack : Type 0 where
  pub token : String
  pub channel : String

pub record Hipchat : Type 0 where
  pub token : String
  pub room : String
  pub url : String

pub record Mattermost : Type 0 where
  pub channel : String
  pub url : String
  pub username : String

pub record Flock : Type 0 where
  pub url : String

pub record Webhook : Type 0 where
  pub url : String

pub record Handler : Type 0 where
  pub slack : Slack
  pub hipchat : Hipchat
  pub mattermost : Mattermost
  pub flock : Flock
  pub webhook : Webhook

pub record Resource : Type 0 where
  pub deployment : Bool
  pub replication_controller : Bool
  pub replica_set : Bool
  pub daemon_set : Bool
  pub services : Bool
  pub pod : Bool
  pub job : Bool
  pub persistent_volume : Bool
  pub namespace : Bool
  pub secret : Bool
  pub config_map : Bool
  pub ingress : Bool
  pub events : Bool
  pub workflow : Bool

pub record Config : Type 0 where
  pub handler : Handler
  pub resource : Resource
  pub namespace : String

-- `&Config{}`.
abbrev pub zero_config : Config
zero_config = record {
  handler = record {
    slack = record { token = ""; channel = "" };
    hipchat = record { token = ""; room = ""; url = "" };
    mattermost = record { channel = ""; url = ""; username = "" };
    flock = record { url = "" };
    webhook = record { url = "" };
  };
  resource = record {
    deployment = false;
    replication_controller = false;
    replica_set = false;
    daemon_set = false;
    services = false;
    pod = false;
    job = false;
    persistent_volume = false;
    namespace = false;
    secret = false;
    config_map = false;
    ingress = false;
    events = false;
    workflow = false;
  };
  namespace = "";
}

-- The environment: `os.Getenv`, which is empty for a variable that is not set, and `runtime.GOOS`.
pub record Environment : Type 0 where
  pub getenv : String → String
  pub goos : String

-- The files and yaml.v2. `stat` gives the error, if there is one, `unmarshal` what it makes of a
-- configuration, also where it fails.
pub record Files : Type 1 where
  pub Disk : Type 0
  pub FileError : Type 0
  pub join : String → String → String
  pub stat : String → Disk → Option FileError
  pub is_not_exist : FileError → Bool
  pub create : String → Disk → Option FileError × Disk
  pub open_and_read : String → Disk → FileError ⊎ String
  pub write_file : String → String → Disk → Option FileError × Disk
  pub unmarshal : String → Config → Option FileError × Config
  pub marshal : Config → FileError ⊎ String

abbrev pub config_file_name : String
config_file_name = ".kubewatch.yaml"

unfoldable pub config_dir : Environment → String
config_dir env =
    if not (env.getenv "KW_CONFIG" == "")
    then env.getenv "KW_CONFIG"
    else if env.goos == "windows"
    then env.getenv "USERPROFILE"
    else env.getenv "HOME"

module _ (fs : Files) (env : Environment) where
  abbrev pub config_path : String
  config_path = fs.join (config_dir env) config_file_name

  unfoldable pub get_config_file : fs.Disk → String
  get_config_file disk = elim (fs.stat config_path disk) [ none ↦ config_path | some e ↦ "" ]

  unfoldable pub create_if_not_exist : fs.Disk → Option fs.FileError × fs.Disk
  create_if_not_exist disk = elim (fs.stat config_path disk) [
    | none ↦ (none, disk)
    | some e ↦ if fs.is_not_exist e then fs.create config_path disk else (some e, disk)
  ]

  -- The rest of `Load`, after the file was created or not.
  unfoldable pub read_file :
      Config → Option fs.FileError × fs.Disk → Option fs.FileError × Config × fs.Disk
  read_file c (some e, disk) = (some e, c, disk)
  read_file c (none, disk) = elim (fs.open_and_read (get_config_file disk) disk) [
    | inl e ↦ (some e, c, disk)
    | inr b ↦
        if not (b == "")
        then ((fs.unmarshal b c).0, (fs.unmarshal b c).1, disk)
        else (none, c, disk)
  ]

  -- `Load`: the error, the configuration and the disk.
  unfoldable pub load : Config → fs.Disk → Option fs.FileError × Config × fs.Disk
  load c disk = read_file c (create_if_not_exist disk)

  unfoldable pub new_config : fs.Disk → Option fs.FileError × Config × fs.Disk
  new_config disk = load zero_config disk

  unfoldable pub write : Config → fs.Disk → Option fs.FileError × fs.Disk
  write c disk = elim (fs.marshal c) [
    | inl e ↦ (some e, disk)
    | inr b ↦ fs.write_file (get_config_file disk) b disk
  ]

-- `if !flag && os.Getenv(name) == "true" { flag = true }`.
abbrev pub turned_on : Environment → String → Bool → Bool
turned_on env name flag = if not flag && env.getenv name == "true" then true else flag

-- `if value == "" && os.Getenv(name) != "" { value = os.Getenv(name) }`.
abbrev pub filled_in : Environment → String → String → String
filled_in env name value =
    if value == "" && not (env.getenv name == "") then env.getenv name else value

unfoldable pub check_missing_resource_envvars : Environment → Config → Config
check_missing_resource_envvars env c =
    let r = c.resource in
    let slack = c.handler.slack in
    record c {
      resource = record r {
        daemon_set = turned_on env "KW_DAEMONSET" r.daemon_set;
        replica_set = turned_on env "KW_REPLICASET" r.replica_set;
        namespace = turned_on env "KW_NAMESPACE" r.namespace;
        deployment = turned_on env "KW_DEPLOYMENT" r.deployment;
        pod = turned_on env "KW_POD" r.pod;
        replication_controller = turned_on env "KW_REPLICATION_CONTROLLER" r.replication_controller;
        services = turned_on env "KW_SERVICE" r.services;
        job = turned_on env "KW_JOB" r.job;
        persistent_volume = turned_on env "KW_PERSISTENT_VOLUME" r.persistent_volume;
        secret = turned_on env "KW_SECRET" r.secret;
        config_map = turned_on env "KW_CONFIGMAP" r.config_map;
        ingress = turned_on env "KW_INGRESS" r.ingress;
        events = turned_on env "KW_EVENTS" r.events;
      };
      handler = record c.handler {
        slack = record {
          channel = filled_in env "SLACK_CHANNEL" slack.channel;
          token = filled_in env "SLACK_TOKEN" slack.token;
        };
      };
    }
