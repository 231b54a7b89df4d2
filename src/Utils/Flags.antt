-- ===== src/Utils/Flags.antt =====
-- Which command lines let the server load its configurations outside of a cluster
-- (pkg/utils/k8sutil.go, pkg/informer/K8sInformer.go, pkg/controller/informer.go).
use kubewatch.Common.{List, String, [], ◌∷◌}

abbrev own_flag : List String
own_flag = "kubeconfigK8s" ∷ []

-- The names that are defined before the second configuration is loaded.
abbrev both_flags : List String
both_flags = "kubeconfig" ∷ own_flag
