-- ===== src/Config/Completed.antt =====
-- How the environment completes a configuration (config/config.go).
use kubewatch.Common.{Bool, String, arith, eq_iff, refl, true, ◌↔◌, ◌≡◌, ◌≢◌, ◌⊎◌}
use kubewatch.Config.{Config, Environment, check_missing_resource_envvars, filled_in, turned_on}

-- Whether a variable is set to "true".
abbrev pub IsOn : Environment → String → Type 0
IsOn env name = env.getenv name ≡ "true"

-- A switch ends on exactly when it was on or its variable is "true".
abbrev pub Switches : Environment → String → Bool → Bool → Type 0
Switches env name before after = (after ≡ true) ↔ ((before ≡ true) ⊎ IsOn env name)

turned_on_iff :
    (env : Environment) (name : String) (flag : Bool)
    → Switches env name flag (turned_on env name flag)
turned_on_iff env name flag = ground (arith, eq_iff (env.getenv name) "true")

turned_on_idem :
    (env : Environment) (name : String) (flag : Bool)
    → turned_on env name (turned_on env name flag) ≡ turned_on env name flag
turned_on_idem env name flag = ground arith

filled_in_idem :
    (env : Environment) (name value : String)
    → filled_in env name (filled_in env name value) ≡ filled_in env name value
filled_in_idem env name value = ground arith

filled_in_set :
    (env : Environment) (name value : String) → value ≢ "" → filled_in env name value ≡ value
filled_in_set env name value h = ground (arith, eq_iff value "")

-- Completing a configuration twice is completing it once.
pub check_missing_resource_envvars_idem :
    (env : Environment) (c : Config)
    → check_missing_resource_envvars env (check_missing_resource_envvars env c)
      ≡ check_missing_resource_envvars env c
unfolding check_missing_resource_envvars
check_missing_resource_envvars_idem env c = λ i.
    let r = c.resource in
    let s = c.handler.slack in
    record c {
      resource = record r {
        daemon_set = turned_on_idem env "KW_DAEMONSET" r.daemon_set i;
        replica_set = turned_on_idem env "KW_REPLICASET" r.replica_set i;
        namespace = turned_on_idem env "KW_NAMESPACE" r.namespace i;
        deployment = turned_on_idem env "KW_DEPLOYMENT" r.deployment i;
        pod = turned_on_idem env "KW_POD" r.pod i;
        replication_controller =
            turned_on_idem env "KW_REPLICATION_CONTROLLER" r.replication_controller i;
        services = turned_on_idem env "KW_SERVICE" r.services i;
        job = turned_on_idem env "KW_JOB" r.job i;
        persistent_volume = turned_on_idem env "KW_PERSISTENT_VOLUME" r.persistent_volume i;
        secret = turned_on_idem env "KW_SECRET" r.secret i;
        config_map = turned_on_idem env "KW_CONFIGMAP" r.config_map i;
        ingress = turned_on_idem env "KW_INGRESS" r.ingress i;
        events = turned_on_idem env "KW_EVENTS" r.events i;
      };
      handler = record c.handler {
        slack = record {
          channel = filled_in_idem env "SLACK_CHANNEL" s.channel i;
          token = filled_in_idem env "SLACK_TOKEN" s.token i;
        };
      };
    }

-- What completion promises of a configuration `c` and the configuration `after`.
abbrev pub Completes : Environment → Config → Config → Type 0
Completes env c after =
    let r = c.resource in
    let s = after.resource in
    Switches env "KW_DAEMONSET" r.daemon_set s.daemon_set
    × Switches env "KW_REPLICASET" r.replica_set s.replica_set
    × Switches env "KW_NAMESPACE" r.namespace s.namespace
    × Switches env "KW_DEPLOYMENT" r.deployment s.deployment
    × Switches env "KW_POD" r.pod s.pod
    × Switches env "KW_REPLICATION_CONTROLLER" r.replication_controller s.replication_controller
    × Switches env "KW_SERVICE" r.services s.services
    × Switches env "KW_JOB" r.job s.job
    × Switches env "KW_PERSISTENT_VOLUME" r.persistent_volume s.persistent_volume
    × Switches env "KW_SECRET" r.secret s.secret
    × Switches env "KW_CONFIGMAP" r.config_map s.config_map
    × Switches env "KW_INGRESS" r.ingress s.ingress
    × Switches env "KW_EVENTS" r.events s.events
    × (s.workflow ≡ r.workflow)
    × (after.namespace ≡ c.namespace)
    × (after.handler ≡ record c.handler { slack = after.handler.slack })
    × (c.handler.slack.channel ≢ "" → after.handler.slack.channel ≡ c.handler.slack.channel)
    × (c.handler.slack.token ≢ "" → after.handler.slack.token ≡ c.handler.slack.token)

-- After completion, each of thirteen resources is watched exactly when it was before or its variable
-- is "true". Workflows, the namespace and the handlers but Slack are as they were, and the Slack
-- channel and token are those of the configuration where it has them.
pub check_missing_resource_envvars_lem :
    (env : Environment) (c : Config) → Completes env c (check_missing_resource_envvars env c)
unfolding check_missing_resource_envvars
check_missing_resource_envvars_lem env c =
    let r = c.resource in
    let s = c.handler.slack in
    (
      turned_on_iff env "KW_DAEMONSET" r.daemon_set,
      turned_on_iff env "KW_REPLICASET" r.replica_set,
      turned_on_iff env "KW_NAMESPACE" r.namespace,
      turned_on_iff env "KW_DEPLOYMENT" r.deployment,
      turned_on_iff env "KW_POD" r.pod,
      turned_on_iff env "KW_REPLICATION_CONTROLLER" r.replication_controller,
      turned_on_iff env "KW_SERVICE" r.services,
      turned_on_iff env "KW_JOB" r.job,
      turned_on_iff env "KW_PERSISTENT_VOLUME" r.persistent_volume,
      turned_on_iff env "KW_SECRET" r.secret,
      turned_on_iff env "KW_CONFIGMAP" r.config_map,
      turned_on_iff env "KW_INGRESS" r.ingress,
      turned_on_iff env "KW_EVENTS" r.events,
      refl,
      refl,
      refl,
      λ h. filled_in_set env "SLACK_CHANNEL" s.channel h,
      λ h. filled_in_set env "SLACK_TOKEN" s.token h,
    )
