-- ===== src/Tests/PodSamples.antt =====
-- Pods, a clock and a model of argo-workflows.
use kubewatch.Common.{
  Bool, Option, String, [], arith, concat, eq_iff, false, if◌then◌else◌, int_eq, nat_eq, none, not,
  refl, some, string_eq, true, ℕ, ◌+◌, ◌==◌, ◌||◌, ◌↔◌, ◌∷◌, ◌≡◌, ◌⊎◌,
}
use kubewatch.Common.Int.{pos}
use kubewatch.Pod.{
  ContainerStatus, Pod, Terminated, Time, init_container_name, main_container_name, node_error,
  node_failed, node_succeeded, wait_container_name,
}
use kubewatch.Pod.Status.{Argo, ArgoLaws, IsFinal, node_omitted, node_skipped}
use kubewatch.Pod.Workflow.{Fetched, Sender, failed, status_error, status_reason_not_found}

abbrev pub clock : ℕ → Time
clock k = 1000 + k

abbrev pub is_final : String → Bool
is_final p = p == node_succeeded || (p == node_failed || p == node_error)

abbrev is_fulfilled : String → Bool
is_fulfilled p = is_final p || (p == node_skipped || p == node_omitted)

abbrev daemon : Option Bool → Bool
daemon none = false
daemon (some b) = b

abbrev pub argo : Argo
argo = record {
  node_completed = λ n. is_final n.phase;
  node_fulfilled = λ n. is_fulfilled n.phase;
  node_daemoned = λ n. daemon n.daemoned;
  progress_valid = λ p. not (p == "");
  parse_progress = λ p. if p == "" then none else some p;
  workflow_completed = is_final;
}

is_final_iff : (p : String) → (is_final p ≡ true) ↔ IsFinal p
is_final_iff p = ground (arith, eq_iff p node_succeeded, eq_iff p node_failed, eq_iff p node_error)

is_fulfilled_iff :
    (p : String) → (is_fulfilled p ≡ true) ↔ (IsFinal p ⊎ (p ≡ node_skipped) ⊎ (p ≡ node_omitted))
is_fulfilled_iff p = ground (
  arith,
  eq_iff p node_succeeded,
  eq_iff p node_failed,
  eq_iff p node_error,
  eq_iff p node_skipped,
  eq_iff p node_omitted,
)

pub argo-ArgoLaws : ArgoLaws argo
argo-ArgoLaws = record {
  fulfilled_iff = λ n d. is_fulfilled_iff n.phase;
  not_daemoned = λ n d. rw d;
  completed_iff = λ p. is_final_iff p;
  empty_progress = refl;
}

abbrev pub killed : Terminated
killed = record { exit_code = pos 143; reason = "Error"; message = ""; finished_at = 900 }

abbrev pub done : Terminated
done = record { exit_code = pos 0; reason = "Completed"; message = ""; finished_at = 800 }

abbrev pub ended : String → Terminated → ContainerStatus
ended name t = record {
  name = name;
  state = record { waiting = none; running = false; terminated = some t };
}

abbrev pub main_killed : ContainerStatus
main_killed = ended main_container_name killed

-- The sidecar is reported first.
abbrev pub killed_pod : Pod
killed_pod = record {
  name = "build-7";
  namespace = "devtron-ci";
  labels = some (("app", "x") ∷ ("workflowType", "ci") ∷ []);
  annotations = [];
  owner_references = record { kind = "Job"; name = "build" } ∷ [];
  deletion_timestamp = none;
  node_name = "node-1";
  phase = "Failed";
  message = "";
  pod_ip = "10.0.0.7";
  conditions = [];
  init_container_statuses = ended init_container_name done ∷ [];
  container_statuses =
      ended "proxy" (record killed { exit_code = pos 1 })
      ∷ ended wait_container_name done
      ∷ main_killed
      ∷ [];
}

abbrev pub quiet_pod : Pod
quiet_pod = record killed_pod {
  phase = "Running";
  container_statuses = ended "proxy" killed ∷ ended main_container_name done ∷ [];
}

abbrev pub get_nothing : String → String → Fetched
get_nothing namespace name = failed (status_error status_reason_not_found)

abbrev pub sender : Sender
sender = record {
  marshal = λ s. some (concat (s.phase ∷ ": " ∷ s.message ∷ []));
  has_client = true;
}
