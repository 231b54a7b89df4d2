-- ===== src/Cluster.antt =====
-- The clusters in the database (pkg/cluster/ClusterRepository.go, pkg/sql/UtilStructs.go). The
-- queries run through go-pg, which stands here as the record `Pg`.
use kubewatch.Common.{All, Bool, List, String, [], false, true, ◌∷◌, ◌≡◌}
use kubewatch.Common.Int.{ℤ}
use kubewatch.Common.Result.{Result, ok}
use kubewatch.Pod.{Time}

pub record AuditLog : Type 0 where
  pub created_on : Time
  pub created_by : ℤ
  pub updated_on : Time
  pub updated_by : ℤ

pub record Cluster : Type 0 where
  pub id : ℤ
  pub cluster_name : String
  pub server_url : String
  pub prometheus_endpoint : String
  pub active : Bool
  pub cd_argo_setup : Bool
  pub config : List (String × String)
  pub p_user_name : String
  pub p_password : String
  pub p_tls_client_cert : String
  pub p_tls_client_key : String
  pub agent_installation_stage : ℤ
  pub k8s_version : String
  pub error_in_connecting : String
  pub audit_log : AuditLog

-- A condition of a query: `Where("id= ? ", id)` and `Where("active =?", b)`.
pub data Where : Type 0 where
  id_is : ℤ → Where
  active_is : Bool → Where

abbrev pub Holds : Cluster → Where → Type 0
Holds c (id_is id) = c.id ≡ id
Holds c (active_is b) = c.active ≡ b

-- go-pg: `Select` into a slice and into a single row, under the conditions given. An error leaves
-- nothing that the callers use.
pub record Pg : Type 0 where
  pub select_all : List Where → Result (List Cluster)
  pub select_one : List Where → Result Cluster

-- The rows that a query returns meet its conditions.
pub record PgLaws (pg : Pg) : Type 0 where
  pub all_hold :
      (ws : List Where) {cs : List Cluster}
      → pg.select_all ws ≡ ok cs
      → All (λ c. All (Holds c) ws) cs
  pub one_holds : (ws : List Where) {c : Cluster} → pg.select_one ws ≡ ok c → All (Holds c) ws

unfoldable pub find_all_active : Pg → Result (List Cluster)
find_all_active pg = pg.select_all (active_is true ∷ [])

unfoldable pub find_by_id : Pg → ℤ → Result Cluster
find_by_id pg id = pg.select_one (id_is id ∷ active_is true ∷ [])

unfoldable pub find_by_id_with_active_false : Pg → ℤ → Result Cluster
find_by_id_with_active_false pg id = pg.select_one (id_is id ∷ active_is false ∷ [])

pub find_by_id-id :
    {pg : Pg}
    → PgLaws pg
    → (id : ℤ) {c : Cluster} → find_by_id pg id ≡ ok c
    → (c.id ≡ id) × (c.active ≡ true)
unfolding find_by_id
find_by_id-id laws id h = let held = laws.one_holds _ h in (held.0, held.1.0)

pub find_inactive-id :
    {pg : Pg}
    → PgLaws pg
    → (id : ℤ) {c : Cluster} → find_by_id_with_active_false pg id ≡ ok c
    → (c.id ≡ id) × (c.active ≡ false)
unfolding find_by_id_with_active_false
find_inactive-id laws id h = let held = laws.one_holds _ h in (held.0, held.1.0)
