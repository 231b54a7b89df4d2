-- ===== src/Tests/UtilsTests.antt =====
-- Runs and instances for the helpers (pkg/utils).
use kubewatch.Common.{List, String, [], concat, false, refl, some, suc, ℕ, ◌%◌, ◌∷◌, ◌≡◌}
use kubewatch.Common.Int.{pos}
use kubewatch.Common.Result.{err, ok}
use kubewatch.Informer.{RestConfig}
use kubewatch.Utils.{Host, Rand, generate, runes}

-- A source that counts, from a bound on downwards to zero.
abbrev counting : Rand
counting = record { State = ℕ; intn = λ n s. (s % n, suc s) }

generate_run : generate counting (pos 4) 34 ≡ some ("89ab", 38)
unfolding generate runes
generate_run = refl

abbrev config_at : String → RestConfig
config_at path = record { host = path; bearer_token = ""; insecure = false }

abbrev laptop : Host
laptop = record {
  Client = String;
  in_cluster_config = err "not in a cluster";
  current_user = ok "/home/dev";
  join = λ parts. concat parts;
  build_config_from_flags = λ path. ok (config_at path);
  new_for_config = λ config. ok "client";
  getenv = λ name. "";
}

abbrev arguments_of_run : List (String × String)
arguments_of_run = ("kubeconfigK8s", "/tmp/a") ∷ []
