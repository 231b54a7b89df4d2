-- ===== src/Informer/Events/Identity.antt =====
-- The cluster that a secret is about: its id is read from the text of the secret
-- (`handleClusterChangeEvent` and `handleClusterDeleteEvent` of pkg/informer/K8sInformer.go).
use kubewatch.Common.{int_eq, lookup, nat_eq, some, sprint_int, string_eq, ◌≡◌}
use kubewatch.Common.Int.{ℤ}
use kubewatch.Common.Strconv.{IsInt64, atoi-IsInt64, atoi-sprint_int}
use kubewatch.Informer.Events.{Secret, cluster_id_of, text_at}

-- The id of the cluster is a 64-bit integer, whatever the secret holds: a text that is no number,
-- a number out of range or no text at all.
pub cluster_id_of-IsInt64 : (secret : Secret) → IsInt64 (cluster_id_of secret)
unfolding cluster_id_of
cluster_id_of-IsInt64 secret = atoi-IsInt64 (text_at "cluster_id" secret.content)

-- A secret that holds the decimal text of a 64-bit id is about the cluster of that id.
pub cluster_id_of-sprint_int :
    (secret : Secret) (id : ℤ)
    → IsInt64 id
    → lookup "cluster_id" secret.content ≡ some (sprint_int id)
    → cluster_id_of secret ≡ id
unfolding cluster_id_of
cluster_id_of-sprint_int secret id bound e = rw (cluster_id_of, e) (atoi-sprint_int id bound)
