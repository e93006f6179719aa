-- ===== src/Application.antt =====
-- api/v1/arksapplication_types.go: `ArksApplication`, its phases, conditions and runtimes.
pub mod Commands
pub mod Workload
pub mod Stages
pub mod Reconcile
pub mod Order
pub mod Advance
pub mod Ended
pub mod Running
pub mod Safe
pub mod Removed
pub mod Selects
pub mod Tests
use arks.Prelude.{none, [], ◌∷◌, Option, if◌then◌else◌, List, some}
use arks.Prelude.Text.{Text, text_eq, text}
use arks.Prelude.Int.{ℤ}
use arks.ArksModel.{ArksModelCondition, condition_false}
use arks.InstanceSpec.{ArksInstanceSpec}

-- The struct has the fields of `ArksModelCondition`.
abbrev pub ArksApplicationCondition : Type 0
ArksApplicationCondition = ArksModelCondition

-- The object with its metadata, spec and status; `model` is the name of a local reference.
pub record ArksApplication : Type 0 where
  pub name : Text
  pub namespace : Text
  pub uid : Text
  pub deletion_timestamp : Option ℤ
  pub finalizers : List Text
  pub replicas : ℤ
  pub size : ℤ
  pub runtime : Text
  pub runtime_image : Text
  pub runtime_image_pull_secrets : List Text
  pub model : Text
  pub served_model_name : Text
  pub tensor_parallel_size : ℤ
  pub runtime_common_args : List Text
  pub instance_spec : ArksInstanceSpec
  pub phase : Text
  pub status_replicas : ℤ
  pub ready_replicas : ℤ
  pub updated_replicas : ℤ
  pub conditions : List ArksApplicationCondition

abbrev pub phase_pending : Text
phase_pending = text "Pending"

abbrev pub phase_checking : Text
phase_checking = text "Checking"

abbrev pub phase_loading : Text
phase_loading = text "Loading"

abbrev pub phase_creating : Text
phase_creating = text "Creating"

abbrev pub phase_running : Text
phase_running = text "Running"

abbrev pub phase_failed : Text
phase_failed = text "Failed"

abbrev pub precheck : Text
precheck = text "Precheck"

abbrev pub loaded : Text
loaded = text "Loaded"

abbrev pub ready : Text
ready = text "Ready"

-- The runtimes that a `switch` on the runtime's name tells apart; any other name is `none`.
pub data ArksRuntime : Type 0 where
  vllm sglang dynamo : ArksRuntime

abbrev pub runtime_default : Text
runtime_default = text "vllm"

unfoldable pub runtime_of : Text → Option ArksRuntime
runtime_of name =
    if text_eq name (text "vllm")
    then some vllm
    else if text_eq name (text "sglang")
    then some sglang
    else if text_eq name (text "dynamo")
    then some dynamo
    else none

abbrev pub key_application : Text
key_application = text "arks.ai/application"

abbrev pub key_model : Text
key_model = text "arks.ai/model"

abbrev pub key_work_load_role : Text
key_work_load_role = text "arks.ai/work-load-role"

abbrev pub role_leader : Text
role_leader = text "leader"

abbrev pub role_worker : Text
role_worker = text "worker"

new_condition : Text → Text → ℤ → ArksApplicationCondition
new_condition type message now = record {
  type = type;
  status = condition_false;
  reason = text "NewIncomming";
  message = message;
  last_transition_time = now;
}

-- `initializeApplicationCondition`; the decoder leaves nil, never an empty list.
unfoldable pub initialize_conditions :
    List ArksApplicationCondition → ℤ → List ArksApplicationCondition
unfolding new_condition
initialize_conditions (c ∷ rest) now = c ∷ rest
initialize_conditions [] now =
    new_condition precheck (text "Wait the controller to check the application") now
    ∷ new_condition loaded (text "Wait the controller to load the model") now
    ∷ new_condition ready (text "Wait the controller to check the application status") now
    ∷ []

-- `getServedModelName`
abbrev pub served_name : Text → Text → Text
served_name model served = if text_eq served [] then model else served
