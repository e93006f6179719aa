-- ===== src/Disaggregated/Stages.antt =====
-- internal/controller/arksdisaggregatedapplication_controller.go: the stages of `reconcile` up to a
-- loaded model. Logs are left out. The Kubernetes clients are the parameter `Cluster`.
use arks.Prelude.{none, some, Bool, false, ◌++◌, ◌⊎◌, if◌then◌else◌, Option, inl, inr}
use arks.Controller.{Action, ◌>>=◌, ◌>>◌, object, ask, pure, change, return}
use arks.Disaggregated.Workload.{Deployment, checked_replicas}
use arks.Disaggregated.{
  ArksDisaggregatedApplication, ArksDisaggregatedWorkload, Role, ℤ, Text, workload_of, text,
  prefill_role, decode_role,
}
use arks.Disaggregated.Commands.{Images}
use arks.Application.Stages.{names_models, mounts_models}
use arks.Prelude.Int.{ℤ, pos}
use arks.Prelude.Text.{Text, Result, text_eq, text}
use arks.ArksModel.{
  ConditionStatus, check_condition, update_condition, ArksModel, condition_true, condition_false,
}
use arks.ArksModel.Steps.{Returned, failing, no_error, is_not_found}
use arks.ArksModel.Kube.{ApiError}
use arks.Application.{precheck, loaded, phase_loading, phase_checking, phase_failed}
use arks.Application.Workload.{LeaderWorkerSet, Service}
use arks.Application.Commands.{generated}
use arks.InstanceSpec.{Labels}

pub record Cluster (W : Type 0) : Type 0 where
  pub get_application : Text → Text → W → ArksDisaggregatedApplication ⊎ ApiError
  pub update_application :
      ArksDisaggregatedApplication → W → Result ArksDisaggregatedApplication × W
  pub update_application_status : ArksDisaggregatedApplication → W → Option ApiError × W
  pub get_model : Text → Text → W → ArksModel ⊎ ApiError
  pub get_lws : Text → Text → W → LeaderWorkerSet ⊎ ApiError
  pub create_lws : LeaderWorkerSet → W → Option ApiError × W
  pub update_lws : LeaderWorkerSet → W → Option ApiError × W
  pub delete_lws : Text → Text → W → Option ApiError × W
  pub get_deployment : Text → Text → W → Deployment ⊎ ApiError
  pub create_deployment : Deployment → W → Option ApiError × W
  pub update_deployment : Deployment → W → Option ApiError × W
  pub delete_deployment : Text → Text → W → Option ApiError × W
  pub get_service : Text → Text → W → Option ApiError
  pub create_service : Service → W → Option ApiError × W
  pub delete_service : Text → Text → W → Option ApiError × W
  -- A role, a service account and a role binding of a namespace, each with the name of the router's.
  pub get_role_binding : (namespace name : Text) → W → Option ApiError
  pub create_role : (namespace name : Text) → W → Option ApiError × W
  pub create_service_account : (namespace name : Text) → W → Option ApiError × W
  pub create_role_binding : (namespace name : Text) → W → Option ApiError × W
  pub quoted : Text → Text
  pub images : Images
  -- The order in which Go visits the labels.
  pub order : Labels → Labels

abbrev pub in_phase : Text → ArksDisaggregatedApplication → ArksDisaggregatedApplication
in_phase phase app = record app { phase = phase }

-- `updateApplicationCondition`
abbrev pub with_condition :
    Text
    → ConditionStatus
    → Text
    → Text
    → ℤ
    → ArksDisaggregatedApplication
    → ArksDisaggregatedApplication
with_condition type status reason message now app = record app {
  conditions = update_condition app.conditions type status reason message now;
}

-- `checkApplicationCondition`
abbrev pub has_condition : ArksDisaggregatedApplication → Text → Bool
has_condition app type = check_condition app.conditions type

-- `checkApplicationVolumes`: the message of the error.
unfoldable pub check_volumes : ArksDisaggregatedWorkload → Option Text
check_volumes workload =
    if names_models workload.instance_spec.volumes
    then some (text "Volume name 'models' is reserved for ArksModel")
    else if mounts_models workload.instance_spec.volume_mounts
    then some (text "Volume mount path '/models' is reserved for ArksModel")
    else none

abbrev pub with_workload :
    Role → ArksDisaggregatedWorkload → ArksDisaggregatedApplication → ArksDisaggregatedApplication
with_workload prefill_role workload app = record app { prefill = workload }
with_workload decode_role workload app = record app { decode = workload }

-- `generateDisaggregatedLws` writes through the pointer to a negative number of replicas.
abbrev pub with_replicas_checked :
    Role → ArksDisaggregatedApplication → ArksDisaggregatedApplication
with_replicas_checked role app =
    let workload = workload_of app role in
    elim (checked_replicas workload.replicas) [
      | generated n ↦ with_workload role (record workload { replicas = some n }) app
      | _ ↦ app
    ]

abbrev pub sglang_router : Text
sglang_router = text "sglang-router"

module _ {W : Type 0} (k : Cluster W) (now : ℤ) where
  abbrev pub Run : Type 0 → Type 0
  Run A = Action (ArksDisaggregatedApplication × W) A

  abbrev pub unless_condition : Text → Run (Unit {0}) → Run (Unit {0})
  unless_condition type stage = do app ← object; (if has_condition app type then pure tt else stage)

  abbrev pub failing_with : Text → Text → Returned
  failing_with what message = failing (what ++ k.quoted message)

  abbrev pub fail_with : {A : Type 0} → Text → Text → Text → Returned → Run A
  fail_with type reason message r = do
    change
        (λ app. with_condition type condition_false reason message now (in_phase phase_failed app))
    return r

  abbrev pub fail_precheck : Text → Text → Run (Unit {0})
  fail_precheck reason message = fail_with precheck reason message no_error

  -- What follows where the volumes of a workload pass.
  abbrev pub unless_invalid : Option Text → Run (Unit {0}) → Run (Unit {0})
  unless_invalid none stage = stage
  unless_invalid (some message) stage = fail_precheck (text "InvalidVolumeDefinitions") message

  abbrev pub prechecks : ArksDisaggregatedApplication → Run (Unit {0})
  prechecks app =
      if text_eq app.runtime (text "sglang")
      then unless_invalid (check_volumes app.prefill) (
          unless_invalid (check_volumes app.decode) (
            change (
              with_condition precheck condition_true (text "PrecheckPass")
                (text "The application passed the pre-checking") now)))
      else fail_precheck (text "RuntimeNotSupport")
          (text "LWS not support the specified runtime: " ++ app.runtime)

  unfoldable pub ensure_prechecked : Run (Unit {0})
  unfolding check_volumes check_condition update_condition
  ensure_prechecked =
      unless_condition precheck (do change (in_phase phase_checking); app ← object; prechecks app)

  abbrev pub find_model : Run ArksModel
  find_model = do
    app ← object
    got ← ask (k.get_model app.namespace app.model)
    elim got [
      | inl m ↦ pure m
      | inr e ↦
          if is_not_found e.kind
          then fail_with loaded (text "ModelNotExist") (text "The referenced model doesn't exist")
              no_error
          else return (failing e.message)
    ]

  -- `RequeueAfter: 3 * time.Second`
  abbrev pub later : Returned
  later = record { requeue = false; requeue_after = pos 3000000000; error = none }

  abbrev pub load_checks : ArksModel → Run (Unit {0})
  load_checks m =
      if text_eq m.phase (text "Failed")
      then fail_with loaded (text "ModelLoadFailed") (text "Failed to load the referenced model")
          no_error
      else if text_eq m.phase (text "Ready")
      then change (
          with_condition loaded condition_true (text "ModelLoadSucceeded")
            (text "The referenced model is loaded") now)
      else return later

  unfoldable pub ensure_loaded : ArksModel → Run (Unit {0})
  unfolding check_condition update_condition
  ensure_loaded m = unless_condition loaded (do change (in_phase phase_loading); load_checks m)
