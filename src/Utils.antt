-- ===== src/Utils.antt =====
-- The helpers of pkg/utils: random names (pkg/utils/CommonUtils.go) and the ways to a Kubernetes
-- configuration (pkg/utils/k8sutil.go). The random source, the files that client-go reads and the
-- environment are parameters.
pub mod Random
pub mod Flags
use Prim.Native.Char.{Char}
use Prim.Native.String
use kubewatch.Common.{
  Bool, List, Option, String, [], concat, contains, if◌then◌else◌, int_eq, nat_eq, none, not, some,
  string_eq, suc, true, zero, ℕ, ◌&&◌, ◌==◌, ◌∷◌,
}
use kubewatch.Common.Int.{negsuc, pos, ℤ}
use kubewatch.Common.Result.{Result, err, ok}
use kubewatch.Informer.{RestConfig}

-- `chars`.
abbrev pub chars : String
chars = "abcdefghijklmnopqrstuvwxyz0123456789"

abbrev pub rune_count : String → ℕ
rune_count String.[] = 0
rune_count (String.◌∷◌ c s) = suc (rune_count s)

-- The rune at an index, or `none` for a panic.
abbrev pub rune_at : String → ℕ → Option Char
rune_at String.[] k = none
rune_at (String.◌∷◌ c s) zero = some c
rune_at (String.◌∷◌ c s) (suc k) = rune_at s k

-- The source of `math/rand`, once it is seeded.
pub record Rand : Type 1 where
  pub State : Type 0
  pub intn : ℕ → State → ℕ × State

module _ (r : Rand) where
  abbrev write_rune : Option Char → Option (String × r.State) → Option (String × r.State)
  write_rune (some c) (some (text, s)) = some (String.◌∷◌ c text, s)
  write_rune _ _ = none

  -- The loop of `Generate`: the runes that are still to be written.
  unfoldable pub runes : ℕ → r.State → Option (String × r.State)
  runes zero s = some ("", s)
  runes (suc n) s =
      let (k, s') = r.intn (rune_count chars) s in write_rune (rune_at chars k) (runes n s')

  -- `Generate`, which writes nothing for a negative size.
  unfoldable pub generate : ℤ → r.State → Option (String × r.State)
  generate (pos n) s = runes n s
  generate (negsuc n) s = some ("", s)

-- What the operating system and client-go give: the configuration inside of a cluster, the home
-- directory of the user, the joining of a path, the configuration in a file, the client of a
-- configuration, and the variables of the environment.
pub record Host : Type 1 where
  pub Client : Type 0
  pub in_cluster_config : Result RestConfig
  pub current_user : Result String
  pub join : List String → String
  pub build_config_from_flags : String → Result RestConfig
  pub new_for_config : Option RestConfig → Result Client
  pub getenv : String → String

-- An end of the program by `logrus.Fatalf`, or a result.
pub data Ended (A : Type 0) : Type 0 where
  fatal : String → Ended A
  returned : A → Ended A

-- The flags that are defined, and the arguments of the program, each `-name=value`.
pub record CommandLine : Type 0 where
  pub defined : List String
  pub arguments : List (String × String)

-- Of the package `flag`: an end by a panic or by `os.Exit(2)`, or a result.
pub data FlagEnd (A : Type 0) : Type 0 where
  panics : FlagEnd A
  exits : FlagEnd A
  gives : A → FlagEnd A

-- `flag.Parse` ends the program on an argument whose flag is not defined.
abbrev pub all_defined : List String → List (String × String) → Bool
all_defined names [] = true
all_defined names ((name, text) ∷ rest) = contains name names && all_defined names rest

-- The last argument for a flag wins.
abbrev pub flag_text : String → String → List (String × String) → String
flag_text name default [] = default
flag_text name default ((other, text) ∷ rest) =
    flag_text name (if other == name then text else default) rest

module _ (host : Host) where
  -- `GetClient`.
  abbrev client_or_fatal : Result host.Client → Ended (Option host.Client)
  client_or_fatal (err e) = fatal (concat ("Can not create kubernetes client: " ∷ e ∷ []))
  client_or_fatal (ok client) = returned (some client)

  abbrev client_of : Result RestConfig → Ended (Option host.Client)
  client_of (err e) = fatal (concat ("Can not get kubernetes config: " ∷ e ∷ []))
  client_of (ok config) = client_or_fatal (host.new_for_config (some config))

  unfoldable pub get_client : Ended (Option host.Client)
  get_client = client_of host.in_cluster_config

  unfoldable pub build_out_of_cluster_config : Result RestConfig
  build_out_of_cluster_config =
      let path = host.getenv "KUBECONFIG" in
      host.build_config_from_flags
        (if path == "" then concat (host.getenv "HOME" ∷ "/.kube/config" ∷ []) else path)

  -- The client that is returned with an error is nil.
  abbrev client_or_nil : Result host.Client → Option host.Client
  client_or_nil (err e) = none
  client_or_nil (ok client) = some client

  abbrev outside_client_of : Result RestConfig → Ended (Option host.Client)
  outside_client_of (err e) = fatal (concat ("Can not get kubernetes config: " ∷ e ∷ []))
  outside_client_of (ok config) = returned (client_or_nil (host.new_for_config (some config)))

  -- `GetClientOutOfCluster`, which drops the error of the client.
  unfoldable pub get_client_out_of_cluster : Ended (Option host.Client)
  get_client_out_of_cluster = outside_client_of build_out_of_cluster_config

  -- `flag.String`, which panics on a name that is defined, then `flag.Parse`, then the file.
  unfoldable pub config_from_flag :
      String → String → CommandLine → FlagEnd (Result RestConfig × CommandLine)
  config_from_flag config_name home line =
      let default = host.join (home ∷ ".kube" ∷ "config" ∷ []) in
      let names = config_name ∷ line.defined in
      if contains config_name line.defined
      then panics
      else if not (all_defined names line.arguments)
      then exits
      else gives (
        host.build_config_from_flags (flag_text config_name default line.arguments),
        record line { defined = names },
      )

  abbrev from_home :
      String → Result String → CommandLine → FlagEnd (Result RestConfig × CommandLine)
  from_home config_name (err e) line = gives (err e, line)
  from_home config_name (ok home) line = config_from_flag config_name home line

  abbrev unless_inside :
      String → Result RestConfig → CommandLine → FlagEnd (Result RestConfig × CommandLine)
  unless_inside config_name (ok config) line = gives (ok config, line)
  unless_inside config_name (err e) line = from_home config_name host.current_user line

  -- `GetDefaultK8sConfig`.
  unfoldable pub get_default_k8s_config :
      String → CommandLine → FlagEnd (Result RestConfig × CommandLine)
  get_default_k8s_config config_name line = unless_inside config_name host.in_cluster_config line

  abbrev with_second :
      Option (Result RestConfig)
      → FlagEnd (Result RestConfig × CommandLine)
      → FlagEnd (Option (Result RestConfig) × Result RestConfig)
  with_second first panics = panics
  with_second first exits = exits
  with_second first (gives (second, line)) = gives (first, second)

  abbrev after_first :
      FlagEnd (Result RestConfig × CommandLine)
      → FlagEnd (Option (Result RestConfig) × Result RestConfig)
  after_first panics = panics
  after_first exits = exits
  after_first (gives (first, line)) =
      with_second (some first) (get_default_k8s_config "kubeconfig" line)

  -- The configurations that `main` has made: that of the informers of the clusters, if there are
  -- such, and then that of the informers of workflows and applications.
  unfoldable pub load_configs :
      Bool → CommandLine → FlagEnd (Option (Result RestConfig) × Result RestConfig)
  load_configs clusters line =
      if clusters
      then after_first (get_default_k8s_config "kubeconfigK8s" line)
      else with_second none (get_default_k8s_config "kubeconfig" line)
