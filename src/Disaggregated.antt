-- ===== src/Disaggregated.antt =====
-- api/v1/arksdisaggregatedapplication_types.go: `ArksDisaggregatedApplication`.
pub mod Commands
pub mod Workload
pub mod Stages
pub mod Steps
pub mod Reconcile
pub mod Labelled
pub mod Requeue
pub mod Scaled
pub mod Tests
use arks.Prelude.{Option, List}
use arks.Application.{ArksApplicationCondition}
use arks.Prelude.Text.{Text, text}
use arks.Prelude.Int.{ℤ}
use arks.InstanceSpec.{ArksInstanceSpec}

pub record ArksDisaggregatedRouter : Type 0 where
  pub replicas : Option ℤ
  pub command_override : List Text
  pub port : ℤ
  pub metric_port : ℤ
  pub router_args : List Text
  pub instance_spec : ArksInstanceSpec

pub record ArksDisaggregatedWorkload : Type 0 where
  pub replicas : Option ℤ
  pub size : ℤ
  pub leader_command_override : List Text
  pub worker_command_override : List Text
  pub runtime_common_args : List Text
  pub instance_spec : ArksInstanceSpec

pub record ArksComponentStatus : Type 0 where
  pub replicas : ℤ
  pub ready_replicas : ℤ
  pub updated_replicas : ℤ

-- The object with its metadata, spec and status; `model` is the name of a local reference.
pub record ArksDisaggregatedApplication : Type 0 where
  pub name : Text
  pub namespace : Text
  pub uid : Text
  pub deletion_timestamp : Option ℤ
  pub finalizers : List Text
  pub runtime : Text
  pub router_image : Text
  pub runtime_image : Text
  pub runtime_image_pull_secrets : List Text
  pub model : Text
  pub served_model_name : Text
  pub router : ArksDisaggregatedRouter
  pub prefill : ArksDisaggregatedWorkload
  pub decode : ArksDisaggregatedWorkload
  pub phase : Text
  pub router_status : ArksComponentStatus
  pub prefill_status : ArksComponentStatus
  pub decode_status : ArksComponentStatus
  pub conditions : List ArksApplicationCondition

-- The two workloads of an application; the code tells them apart by their names.
pub data Role : Type 0 where
  prefill_role decode_role : Role

abbrev pub role_name : Role → Text
role_name prefill_role = text "prefill"
role_name decode_role = text "decode"

abbrev pub workload_of : ArksDisaggregatedApplication → Role → ArksDisaggregatedWorkload
workload_of app prefill_role = app.prefill
workload_of app decode_role = app.decode

abbrev pub key_disaggregation_role : Text
key_disaggregation_role = text "arks.ai/disaggregation-role"
