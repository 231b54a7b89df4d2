-- ===== src/Informer/Events.antt =====
-- The handlers of cluster secrets, the start of all informers and the shutdown
-- (pkg/informer/K8sInformer.go). `none` is a panic. Each query is given the database as it stands
-- then.
pub mod Invariant
pub mod Start
pub mod Safety
pub mod Shutdown
pub mod View
pub mod Sync
pub mod Identity
pub mod Spec
pub mod Runs
pub mod Refinement
pub mod Restart
pub mod Service
use kubewatch.Common.{
  Bool, List, Option, String, [], false, if◌then◌else◌, int_eq, lookup, nat_eq, none, not, some,
  string_eq, true, ◌==◌, ◌∷◌,
}
use kubewatch.Common.Int.{ℤ}
use kubewatch.Common.Result.{Result, err, ok}
use kubewatch.Common.Strconv.{atoi}
use kubewatch.Cluster.{Cluster, Pg, find_all_active, find_by_id, find_by_id_with_active_false}
use kubewatch.Informer.{
  GoError, K8s, Registry, RestConfig, default_cluster, errors_new, foreign,
  get_k8s_client_for_config, inc_un_unreachable_cluster, informer_already_exist_message, same_error,
  start_system_workflow_informer, stop_system_workflow_informer,
}

pub record ClusterInfo : Type 0 where
  pub cluster_id : ℤ
  pub cluster_name : String
  pub bearer_token : String
  pub server_url : String

-- A secret: its type and its data, the bytes of a value read as a text.
pub record Secret : Type 0 where
  pub type : String
  pub content : List (String × String)

pub data WatchedSecret : Type 0 where
  secret_object : Secret → WatchedSecret
  other_object : WatchedSecret

abbrev pub cluster_modify_event_secret_type : String
cluster_modify_event_secret_type = "cluster.request/modify"

abbrev pub add_action : String
add_action = "add"

abbrev pub update_action : String
update_action = "update"

abbrev pub delete_action : String
delete_action = "delete"

abbrev text_of : Option String → String
text_of none = ""
text_of (some text) = text

-- `string(data[key])`, which is empty where the key is missing.
abbrev pub text_at : String → List (String × String) → String
text_at key content = text_of (lookup key content)

-- `err != nil && err != errors.New(INFORMER_ALREADY_EXIST_MESSAGE)`, which makes an error to
-- compare with.
unfoldable pub is_other_error : Option GoError → Registry → Bool × Registry
is_other_error none r = (false, r)
is_other_error (some e) r =
    let (fresh, r') = errors_new informer_already_exist_message r in (not (same_error e fresh), r')

-- `strconv.Atoi` of the text of the cluster's id, with its error dropped.
unfoldable pub cluster_id_of : Secret → ℤ
cluster_id_of secret = atoi (text_at "cluster_id" secret.content)

-- The error is returned if it is another one than the one compared with.
unfoldable pub return_other_error : Option GoError → Registry → Option GoError × Registry
return_other_error e r =
    let (other, r') = is_other_error e r in if other then (e, r') else (none, r')

-- After an addition or an update: the comparison of the error only decides what is logged.
unfoldable pub after_change : Option (Option GoError × Registry) → Option Registry
after_change none = none
after_change (some (e, r)) = some (is_other_error e r).1

abbrev pub second : Option (Bool × Registry) → Option Registry
second none = none
second (some (b, r)) = some r

-- The configuration that `startSystemWorkflowInformerForCluster` makes, and does not use.
unfoldable pub reach_config : K8s → ClusterInfo → Result RestConfig
reach_config k8s info =
    if info.cluster_name == default_cluster
    then k8s.in_cluster_config
    else ok (record { host = info.server_url; bearer_token = info.bearer_token; insecure = true })

-- What the informer of cluster secrets reports, with the database at each query.
pub data SecretEvent : Type 0 where
  added : Pg → Pg → WatchedSecret → SecretEvent
  updated : Pg → Pg → WatchedSecret → SecretEvent
  deleted : Pg → WatchedSecret → SecretEvent

module _ (k8s : K8s) where
  -- `startSystemWorkflowInformerForCluster`: its result, and the state.
  unfoldable pub start_system_workflow_informer_for_cluster :
      Pg → ClusterInfo → Registry → Option GoError × Registry
  start_system_workflow_informer_for_cluster pg info r = elim (reach_config k8s info) [
    | err e ↦ (some (foreign e), r)
    | ok config ↦
        let (e, r') = start_system_workflow_informer k8s pg info.cluster_id r in
        return_other_error e r'
  ]

  unfoldable pub sync_system_workflow_informer :
      Pg → Pg → ℤ → Registry → Option (Option GoError × Registry)
  sync_system_workflow_informer pg pg' id r = elim (find_by_id pg id) [
    | err e ↦ some (some (foreign e), r)
    | ok cluster ↦ elim (stop_system_workflow_informer cluster.id r) [
      | none ↦ none
      | some r' ↦ some (start_system_workflow_informer k8s pg' id r')
    ]
  ]

  unfoldable pub handle_cluster_change_event : Pg → Pg → Secret → Registry → Option Registry
  handle_cluster_change_event pg pg' secret r =
      let action = text_at "action" secret.content in
      let id = cluster_id_of secret in
      if not (secret.type == cluster_modify_event_secret_type)
      then some r
      else if action == add_action
      then after_change (some (start_system_workflow_informer k8s pg id r))
      else if action == update_action
      then after_change (sync_system_workflow_informer pg pg' id r)
      else some r

  -- The second test of the error, after the stop, never passes: it is nil.
  unfoldable pub handle_cluster_delete : Pg → ℤ → Registry → Option (Bool × Registry)
  handle_cluster_delete pg id r = elim (find_by_id_with_active_false pg id) [
    | err e ↦ some (true, r)
    | ok cluster ↦ elim (stop_system_workflow_informer cluster.id r) [
      | none ↦ none
      | some r' ↦ some (false, r')
    ]
  ]

  unfoldable pub handle_cluster_delete_event : Pg → Secret → Registry → Option (Bool × Registry)
  handle_cluster_delete_event pg secret r =
      let id = cluster_id_of secret in
      if not (secret.type == cluster_modify_event_secret_type)
      then some (true, r)
      else if text_at "action" secret.content == delete_action
      then handle_cluster_delete pg id r
      else some (false, r)

  -- `AddFunc`, `UpdateFunc` and `DeleteFunc` of `startClusterInformer`.
  unfoldable pub on_secret_event : SecretEvent → Registry → Option Registry
  on_secret_event (added pg pg' (secret_object secret)) r =
      handle_cluster_change_event pg pg' secret r
  on_secret_event (updated pg pg' (secret_object secret)) r =
      handle_cluster_change_event pg pg' secret r
  on_secret_event (deleted pg (secret_object secret)) r =
      second (handle_cluster_delete_event pg secret r)
  on_secret_event _ r = some r

  unfoldable pub on_secret_events : List SecretEvent → Registry → Option Registry
  on_secret_events [] r = some r
  on_secret_events (event ∷ events) r = elim (on_secret_event event r) [
    | none ↦ none
    | some r' ↦ on_secret_events events r'
  ]

  unfoldable pub start_cluster_informer : Registry → Registry
  start_cluster_informer r = elim (get_k8s_client_for_config k8s k8s.default_k8s_config) [
    | err e ↦ inc_un_unreachable_cluster "Default cluster" "1" r
    | ok client ↦ record r { watching = true }
  ]

  -- The loop over the clusters, whose errors are dropped.
  unfoldable pub start_each : Pg → List Cluster → Registry → Registry
  start_each pg [] r = r
  start_each pg (model ∷ models) r =
      start_each pg models (start_system_workflow_informer k8s pg model.id r).1

  -- The error, if there is one, and the state.
  unfoldable pub build_informer_for_all_clusters : Pg → Registry → Option String × Registry
  build_informer_for_all_clusters pg given =
      let r = start_cluster_informer given in
      elim (find_all_active pg) [ err e ↦ (some e, r) | ok models ↦ (none, start_each pg models r) ]
