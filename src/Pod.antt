-- ===== src/Pod.antt =====
-- The pods that the cluster informers watch, and the node status that is made of one
-- (pkg/informer/K8sInformer.go). A record holds the fields that the code reads or writes; those of
-- `ObjectMeta`, `Spec` and `Status` stand side by side.
pub mod Reason
pub mod Harmless
pub mod Failure
pub mod Status
pub mod Assess
pub mod Pending
pub mod Message
pub mod Times
pub mod Verdict
pub mod Unordered
pub mod Workflow
use kubewatch.Common.{Bool, List, Option, String, none, ℕ}
use kubewatch.Common.Int.{ℤ}

-- `time.Time` as nanoseconds since Go's zero time, so that `IsZero` is equality with 0.
abbrev pub Time : Type 0
Time = ℕ

pub record Waiting : Type 0 where
  pub reason : String
  pub message : String

pub record Terminated : Type 0 where
  pub exit_code : ℤ
  pub reason : String
  pub message : String
  pub finished_at : Time

-- `running` says that the pointer `State.Running` is set: nothing behind it is read.
pub record ContainerState : Type 0 where
  pub waiting : Option Waiting
  pub running : Bool
  pub terminated : Option Terminated

pub record ContainerStatus : Type 0 where
  pub name : String
  pub state : ContainerState

pub record Condition : Type 0 where
  pub reason : String
  pub message : String

pub record OwnerReference : Type 0 where
  pub kind : String
  pub name : String

-- `labels` is a map that may be nil.
pub record Pod : Type 0 where
  pub name : String
  pub namespace : String
  pub labels : Option (List (String × String))
  pub annotations : List (String × String)
  pub owner_references : List OwnerReference
  pub deletion_timestamp : Option Time
  pub node_name : String
  pub phase : String
  pub message : String
  pub pod_ip : String
  pub conditions : List Condition
  pub init_container_statuses : List ContainerStatus
  pub container_statuses : List ContainerStatus

pub record Outputs : Type 0 where
  pub exit_code : Option String

-- `v1alpha1.NodeStatus`; its phase is a text.
pub record NodeStatus : Type 0 where
  pub id : String
  pub name : String
  pub template_name : String
  pub boundary_id : String
  pub phase : String
  pub message : String
  pub finished_at : Time
  pub pod_ip : String
  pub daemoned : Option Bool
  pub progress : String
  pub outputs : Option Outputs
  pub host_node_name : String

-- `v1alpha1.NodeStatus{}`.
abbrev pub zero_node : NodeStatus
zero_node = record {
  id = "";
  name = "";
  template_name = "";
  boundary_id = "";
  phase = "";
  message = "";
  finished_at = 0;
  pod_ip = "";
  daemoned = none;
  progress = "";
  outputs = none;
  host_node_name = "";
}

-- The values of the phases, container names and keys that the vendored packages declare.
abbrev pub pod_pending : String
pod_pending = "Pending"

abbrev pub pod_running : String
pod_running = "Running"

abbrev pub pod_succeeded : String
pod_succeeded = "Succeeded"

abbrev pub pod_failed : String
pod_failed = "Failed"

abbrev pub node_pending : String
node_pending = "Pending"

abbrev pub node_running : String
node_running = "Running"

abbrev pub node_succeeded : String
node_succeeded = "Succeeded"

abbrev pub node_failed : String
node_failed = "Failed"

abbrev pub node_error : String
node_error = "Error"

abbrev pub workflow_pending : String
workflow_pending = "Pending"

abbrev pub workflow_running : String
workflow_running = "Running"

abbrev pub init_container_name : String
init_container_name = "init"

abbrev pub main_container_name : String
main_container_name = "main"

abbrev pub wait_container_name : String
wait_container_name = "wait"

abbrev pub annotation_key_progress : String
annotation_key_progress = "workflows.argoproj.io/progress"

abbrev pub progress_default : String
progress_default = "0/1"

abbrev pub pod_reason_unschedulable : String
pod_reason_unschedulable = "Unschedulable"
