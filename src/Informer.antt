-- ===== src/Informer.antt =====
-- The informers that kubewatch runs in the clusters (pkg/informer/K8sInformer.go,
-- pkg/middleware/instrument.go). A channel is a number, and `Registry` is the state that the code
-- changes: the map of stop channels, the channels made and closed, the informers started, the
-- counter of unreachable clusters.
pub mod Events
pub mod Race
use kubewatch.Common.{
  Bool, List, Option, String, [], contains, delete, false, if◌then◌else◌, insert, int_eq, keys,
  lookup, nat_eq, none, not, some, sprint_int, string_eq, suc, true, ℕ, ◌==◌, ◌∷◌,
}
use kubewatch.Common.Int.{ℤ}
use kubewatch.Common.Result.{Result, err, ok, ◌>>=◌}
use kubewatch.Cluster.{Cluster, Pg, find_by_id}

pub record RestConfig : Type 0 where
  pub host : String
  pub bearer_token : String
  pub insecure : Bool

-- What the code calls to reach a cluster: common-lib's transport and client-go, on configurations
-- that are not nil. The one of the default cluster is what `GetDefaultK8sConfig` found; where it
-- found none its error is dropped and the start panics on nil, as `build_informer` of App.antt says.
pub record K8s : Type 1 where
  pub HttpClient : Type 0
  pub Clientset : Type 0
  pub override_config_with_custom_transport : RestConfig → Result RestConfig
  pub http_client_for : RestConfig → Result HttpClient
  pub new_for_config_and_client : RestConfig → HttpClient → Result Clientset
  pub in_cluster_config : Result RestConfig
  pub default_k8s_config : RestConfig

-- An error made by `errors.New`, which has an address of its own, or one that a library returned.
pub data GoError : Type 0 where
  created : ℕ → String → GoError
  foreign : String → GoError

pub record Registry : Type 0 where
  -- `informerStopper`: the stop channel of the informer of a cluster.
  pub informer_stopper : List (ℤ × ℕ)
  pub next_channel : ℕ
  pub closed : List ℕ
  -- Each informer that was started: its cluster and its stop channel.
  pub started : List (ℤ × ℕ)
  -- The calls of `IncUnUnreachableCluster`: the name and the id of a cluster.
  pub unreachable : List (String × String)
  -- Whether the informer of cluster secrets runs.
  pub watching : Bool
  pub next_error : ℕ

abbrev pub default_cluster : String
default_cluster = "default_cluster"

abbrev pub informer_already_exist_message : String
informer_already_exist_message = "INFORMER_ALREADY_EXIST"

-- `make(map[int]chan struct{})` of `NewK8sInformerImpl`.
unfoldable pub new_registry : Registry
new_registry = record {
  informer_stopper = [];
  next_channel = 0;
  closed = [];
  started = [];
  unreachable = [];
  watching = false;
  next_error = 0;
}

unfoldable pub errors_new : String → Registry → GoError × Registry
errors_new message r = (created r.next_error message, record r { next_error = suc r.next_error })

-- `==` on errors compares addresses; an error of a library is none that this code made.
abbrev pub same_error : GoError → GoError → Bool
same_error (created a _) (created b _) = a == b
same_error _ _ = false

unfoldable pub inc_un_unreachable_cluster : String → String → Registry → Registry
inc_un_unreachable_cluster name id r = record r { unreachable = (name, id) ∷ r.unreachable }

-- `close`, which panics on a channel that is closed: `none`.
unfoldable pub close : ℕ → Registry → Option Registry
close channel r =
    if contains channel r.closed then none else some (record r { closed = channel ∷ r.closed })

unfoldable pub stop_system_workflow_informer : ℤ → Registry → Option Registry
stop_system_workflow_informer id r = elim (lookup id r.informer_stopper) [
  | none ↦ some r
  | some stopper ↦ elim (close stopper r) [
    | none ↦ none
    | some r' ↦ some (record r' { informer_stopper = delete id r'.informer_stopper })
  ]
]

-- The loop over `maps.Keys`, whose order Go leaves open.
unfoldable pub stop_each : List ℤ → Registry → Option Registry
stop_each [] r = some r
stop_each (id ∷ ids) r = elim (stop_system_workflow_informer id r) [
  | none ↦ none
  | some r' ↦ stop_each ids r'
]

unfoldable pub stop_all_system_workflow_informer : (List ℤ → List ℤ) → Registry → Option Registry
stop_all_system_workflow_informer key_order r = stop_each (key_order (keys r.informer_stopper)) r

-- The last lines of `startSystemWorkflowInformer`: the informer runs, and its channel is kept.
unfoldable pub install : ℤ → Registry → Registry
install id r = record r {
  informer_stopper = insert id r.next_channel r.informer_stopper;
  next_channel = suc r.next_channel;
  started = (id, r.next_channel) ∷ r.started;
}

abbrev token_of : Option String → String
token_of none = ""
token_of (some token) = token

-- `if len(clusterInfo.ErrorInConnecting) > 0`.
unfoldable pub note_connecting_error : Cluster → Registry → Registry
note_connecting_error cluster r =
    if not (cluster.error_in_connecting == "")
    then inc_un_unreachable_cluster cluster.cluster_name (sprint_int cluster.id) r
    else r

module _ (k8s : K8s) where
  open k8s use {
    Clientset, override_config_with_custom_transport, http_client_for, new_for_config_and_client,
    in_cluster_config, default_k8s_config,
  }

  unfoldable pub get_k8s_client_for_config : RestConfig → Result Clientset
  get_k8s_client_for_config given = do
    config ← override_config_with_custom_transport given
    http_client ← http_client_for config
    new_for_config_and_client config http_client

  -- A missing key of the configuration is the empty token.
  unfoldable pub get_k8s_client_for_cluster : Cluster → Result Clientset
  unfolding get_k8s_client_for_config
  get_k8s_client_for_cluster cluster = get_k8s_client_for_config (
      if cluster.cluster_name == default_cluster then default_k8s_config else record {
        host = cluster.server_url;
        bearer_token = token_of (lookup "bearer_token" cluster.config);
        insecure = true;
      })

  -- `startSystemWorkflowInformer` once the cluster is found.
  unfoldable pub start_found : Cluster → ℤ → Registry → Option GoError × Registry
  start_found cluster id given =
      let r = note_connecting_error cluster given in
      elim (lookup id r.informer_stopper) [
        | some stopper ↦ let (e, r') = errors_new informer_already_exist_message r in (some e, r')
        | none ↦ elim (get_k8s_client_for_cluster cluster) [
          | err e ↦ (
            some (foreign e),
            inc_un_unreachable_cluster cluster.cluster_name (sprint_int cluster.id) r,
          )
          | ok client ↦ (none, install id r)
        ]
      ]

  unfoldable pub start_system_workflow_informer : Pg → ℤ → Registry → Option GoError × Registry
  start_system_workflow_informer pg id r = elim (find_by_id pg id) [
    | err e ↦ (some (foreign e), r)
    | ok cluster ↦ start_found cluster id r
  ]
