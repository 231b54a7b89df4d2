-- ===== src/Tests/InformerTests.antt =====
-- Runs and instances for the registry of informers (pkg/informer/K8sInformer.go).
use kubewatch.Common.{
  All, Bool, Has, Has-left, Has-snoc, List, Option, Permᴰ, String, [], contains, delete, false,
  here, if◌then◌else◌, insert, int_eq, keys, lookup, nat_eq, none, refl, some, sprint_int,
  string_eq, subst, there, true, ℕ, ◌++◌, ◌==◌, ◌∷◌, ◌≡◌,
}
use kubewatch.Common.Int.{pos, ℤ}
use kubewatch.Common.Result.{Result, err, ok, ok_eq}
use kubewatch.Cluster.{
  Cluster, Holds, Pg, PgLaws, Where, active_is, find_all_active, find_by_id, id_is,
}
use kubewatch.Informer.{
  GoError, K8s, Registry, RestConfig, foreign, get_k8s_client_for_cluster,
  get_k8s_client_for_config, inc_un_unreachable_cluster, install, new_registry,
  note_connecting_error, start_found, start_system_workflow_informer,
  stop_all_system_workflow_informer,
}
use kubewatch.Informer.Events.{
  SecretEvent, WatchedSecret, build_informer_for_all_clusters, cluster_modify_event_secret_type,
  delete_action, deleted, on_secret_events, secret_object, start_cluster_informer, start_each,
  sync_system_workflow_informer, update_action, updated,
}
use kubewatch.Informer.Events.Safety.{build-Inv, one_informer}
use kubewatch.Informer.Events.Shutdown.{stop_all_lem}
use kubewatch.Informer.Events.Sync.{IsClosedIn, sync_lem}
use kubewatch.Informer.Events.View.{stop_all-stop_views, stop_views, view_of}

abbrev pub cluster_at : ℤ → Bool → Cluster
cluster_at id active = record {
  id = id;
  cluster_name = "east";
  server_url = "https://east";
  prometheus_endpoint = "";
  active = active;
  cd_argo_setup = false;
  config = ("bearer_token", "t") ∷ [];
  p_user_name = "";
  p_password = "";
  p_tls_client_cert = "";
  p_tls_client_key = "";
  agent_installation_stage = pos 0;
  k8s_version = "1.28";
  error_in_connecting = "";
  audit_log = record { created_on = 0; created_by = pos 1; updated_on = 0; updated_by = pos 1 };
}

-- A database that has one row for every query by id, and rows 1 and 2 active.
abbrev row : List Where → Result Cluster
row (id_is id ∷ active_is b ∷ []) = ok (cluster_at id b)
row _ = err "no rows"

abbrev rows : List Where → Result (List Cluster)
rows (active_is true ∷ []) = ok (cluster_at (pos 1) true ∷ cluster_at (pos 2) true ∷ [])
rows _ = err "no rows"

abbrev pub pg : Pg
pg = record { select_all = rows; select_one = row }

found : find_by_id pg (pos 1) ≡ ok (cluster_at (pos 1) true)
unfolding find_by_id
found = refl

row-Holds : (ws : List Where) {c : Cluster} → row ws ≡ ok c → All (Holds c) ws
row-Holds [] h = tt
row-Holds (id_is id ∷ active_is b ∷ []) {c} h =
    let p : cluster_at id b ≡ c = ok_eq h in
    subst (λ c. All (Holds c) (id_is id ∷ active_is b ∷ [])) p (refl, (refl, tt))
row-Holds (id_is id ∷ []) h = cc
row-Holds (id_is id ∷ id_is j ∷ ws) h = cc
row-Holds (id_is id ∷ active_is b ∷ w ∷ ws) h = cc
row-Holds (active_is b ∷ ws) h = cc

rows_hold : (ws : List Where) {cs : List Cluster} → rows ws ≡ ok cs → All (λ c. All (Holds c) ws) cs
rows_hold [] h = cc
rows_hold (active_is true ∷ []) {cs} h =
    subst (λ cs. All (λ c. All (Holds c) (active_is true ∷ [])) cs) (ok_eq h)
      ((refl, tt), ((refl, tt), tt))
rows_hold (active_is true ∷ w ∷ ws) h = cc
rows_hold (active_is false ∷ ws) h = cc
rows_hold (id_is id ∷ ws) h = cc

pub pg-PgLaws : PgLaws pg
pg-PgLaws = record { all_hold = rows_hold; one_holds = row-Holds }

abbrev pub backwards : List ℤ → List ℤ
backwards [] = []
backwards (id ∷ ids) = backwards ids ++ id ∷ []

pub Has-backwards : (ids : List ℤ) (id : ℤ) → Has id ids → Has id (backwards ids)
Has-backwards [] id h = elim h [ ]
Has-backwards (a ∷ ids) id (here p) =
    subst (λ x. Has id (backwards ids ++ x ∷ [])) p (Has-snoc (backwards ids))
Has-backwards (a ∷ ids) id (there h) = Has-left (a ∷ []) (Has-backwards ids id h)

-- Every configuration but one with no token gives a client.
abbrev client_for : RestConfig → String → Result ℕ
client_for c _ = if c.bearer_token == "" then err "unauthorized" else ok 7

abbrev pub reach : K8s
reach = record {
  HttpClient = String;
  Clientset = ℕ;
  override_config_with_custom_transport = λ c. ok c;
  http_client_for = λ c. ok "client";
  new_for_config_and_client = client_for;
  in_cluster_config = ok (record { host = "here"; bearer_token = "own"; insecure = false });
  default_k8s_config = record { host = "here"; bearer_token = "own"; insecure = false };
}

abbrev pub modify : String → String → WatchedSecret
modify id action = secret_object (record {
  type = cluster_modify_event_secret_type;
  content = ("cluster_id", id) ∷ ("action", action) ∷ [];
})

-- Cluster 1 is updated, then cluster 2 is deleted.
abbrev pub events : List SecretEvent
events = updated pg pg (modify "1" update_action) ∷ deleted pg (modify "2" delete_action) ∷ []

abbrev pub built : Registry
built = (build_informer_for_all_clusters reach pg new_registry).1

built_run : (built.started ≡ (pos 2, 1) ∷ (pos 1, 0) ∷ []) × (built.watching ≡ true)
unfolding build_informer_for_all_clusters find_all_active start_cluster_informer start_each
    start_system_workflow_informer start_found note_connecting_error get_k8s_client_for_cluster
    get_k8s_client_for_config new_registry find_by_id install insert delete
    inc_un_unreachable_cluster
built_run = (refl, refl)

one_informer_example :
    (r : Registry) × (on_secret_events reach events built ≡ some r)
    × ((id : ℤ) (a b : ℕ)
        → Has (id, a) r.started
        → Has (id, b) r.started
        → contains a r.closed ≡ false
        → contains b r.closed ≡ false
        → (a ≡ b) × (lookup id r.informer_stopper ≡ some a))
one_informer_example = one_informer reach pg events

stop_all_lem_example :
    (s : Registry) × (stop_all_system_workflow_informer backwards built ≡ some s)
    × (s.started ≡ built.started)
    × ((id : ℤ) (ch : ℕ) → Has (id, ch) s.started → contains ch s.closed ≡ true)
    × ((id : ℤ) → lookup id s.informer_stopper ≡ none)
    × (s.watching ≡ built.watching)
stop_all_lem_example = stop_all_lem backwards Has-backwards (build-Inv reach pg)

sync_lem_example :
    (e : Option GoError) × (s : Registry) × (sync_system_workflow_informer reach pg pg (pos 1) built
      ≡ some (e, s))
    × IsClosedIn (lookup (pos 1) built.informer_stopper) s
    × ((client : ℕ)
        → get_k8s_client_for_cluster reach (cluster_at (pos 1) true) ≡ ok client
        → (e ≡ none) × (lookup (pos 1) s.informer_stopper ≡ some built.next_channel))
    × ((m : String)
        → get_k8s_client_for_cluster reach (cluster_at (pos 1) true) ≡ err m
        → (e ≡ some (foreign m))
          × (lookup (pos 1) s.informer_stopper ≡ none)
          × Has ("east", sprint_int (pos 1)) s.unreachable)
sync_lem_example = sync_lem reach pg pg pg-PgLaws (pos 1) (build-Inv reach pg) found found

backwards-perm : Permᴰ (keys built.informer_stopper) (backwards (keys built.informer_stopper))
unfolding build_informer_for_all_clusters find_all_active start_cluster_informer start_each
    start_system_workflow_informer start_found note_connecting_error get_k8s_client_for_cluster
    get_k8s_client_for_config new_registry find_by_id install insert delete
    inc_un_unreachable_cluster
backwards-perm = Permᴰ.swap refl refl

stop_all-stop_views_example :
    (s : Registry) × (stop_all_system_workflow_informer backwards built ≡ some s)
    × (view_of s ≡ stop_views (keys built.informer_stopper) (view_of built))
stop_all-stop_views_example = stop_all-stop_views backwards backwards-perm (build-Inv reach pg)
