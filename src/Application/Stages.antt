-- ===== src/Application/Stages.antt =====
-- internal/controller/arksapplication_controller.go: the stages of `reconcile`, from the prechecks to
-- the status. Logs are left out. The Kubernetes clients are the parameter `Cluster`.
use arks.Controller.{◌>>=◌, ◌>>◌, object, return, ask, panic, call, pure, unless_exists}
use arks.Prelude.{
  none, List, true, Option, if◌then◌else◌, some, [], ◌++◌, false, ◌∷◌, ◌⊎◌, Bool, inr, inl,
}
use arks.InstanceSpec.{Volume, VolumeMount}
use arks.Application.{
  ArksApplication, runtime_of, text_eq, text, precheck, ready, condition_false, phase_failed,
  loaded, phase_running, phase_loading, phase_checking, phase_creating,
}
use arks.Prelude.Int.{ℤ, pos}
use arks.Prelude.Text.{Text, text_eq, text, Result}
use arks.ArksModel.{
  ConditionStatus, check_condition, update_condition, condition_true, ArksModel, condition_false,
}
use arks.Controller.{Action, change}
use arks.ArksModel.Kube.{ApiError}
use arks.ArksModel.Steps.{Returned, no_error, failing, is_not_found}
use arks.Application.Workload.{
  models_volume, models_mount_path, LeaderWorkerSet, Service, ReplicaStatus,
  generate_application_service_name, generate_lws, application_service,
}
use arks.Application.Commands.{Images, Generated, refused, generated, dereferenced}

pub record Cluster (W : Type 0) : Type 0 where
  pub get_application : Text → Text → W → ArksApplication ⊎ ApiError
  pub update_application : ArksApplication → W → Result ArksApplication × W
  pub update_application_status : ArksApplication → W → Option ApiError × W
  pub get_model : Text → Text → W → ArksModel ⊎ ApiError
  pub get_lws : Text → Text → W → LeaderWorkerSet ⊎ ApiError
  pub create_lws : LeaderWorkerSet → W → Option ApiError × W
  pub delete_lws : Text → Text → W → Option ApiError × W
  pub get_service : Text → Text → W → Option ApiError
  pub create_service : Service → W → Option ApiError × W
  pub delete_service : Text → Text → W → Option ApiError × W
  pub quoted : Text → Text
  pub images : Images

abbrev pub finalizer : Text
finalizer = text "application.arks.ai/controller"

abbrev pub in_phase : Text → ArksApplication → ArksApplication
in_phase phase app = record app { phase = phase }

abbrev pub with_condition :
    Text → ConditionStatus → Text → Text → ℤ → ArksApplication → ArksApplication
with_condition type status reason message now app = record app {
  conditions = update_condition app.conditions type status reason message now;
}

-- `checkApplicationCondition`
abbrev pub has_condition : ArksApplication → Text → Bool
has_condition app type = check_condition app.conditions type

abbrev pub names_models : List Volume → Bool
names_models [] = false
names_models (v ∷ rest) = if text_eq v.name models_volume then true else names_models rest

abbrev pub mounts_models : List VolumeMount → Bool
mounts_models [] = false
mounts_models (m ∷ rest) =
    if text_eq m.mount_path models_mount_path then true else mounts_models rest

module _ {W : Type 0} (k : Cluster W) (now : ℤ) where
  abbrev pub Run : Type 0 → Type 0
  Run A = Action (ArksApplication × W) A

  -- A stage of the application is skipped once its condition is true.
  abbrev pub unless_condition : Text → Run (Unit {0}) → Run (Unit {0})
  unless_condition type stage = do app ← object; (if has_condition app type then pure tt else stage)

  abbrev pub fail_with : {A : Type 0} → Text → Text → Text → Returned → Run A
  fail_with type reason message r = do
    change
        (λ app. with_condition type condition_false reason message now (in_phase phase_failed app))
    return r

  abbrev pub fail_precheck : Text → Text → Run (Unit {0})
  fail_precheck reason message = fail_with precheck reason message no_error

  -- The runtime, then the names of the volumes, then the mount paths.
  abbrev pub prechecks : ArksApplication → Run (Unit {0})
  prechecks app = elim (runtime_of app.runtime) [
    | none ↦
        fail_precheck (text "RuntimeNotSupport")
          (text "LWS not support the specified runtime: " ++ app.runtime)
    | some runtime ↦
        if names_models app.instance_spec.volumes
        then fail_precheck (text "ReservedVolumeName")
            (text "Volume name 'models' is reserved for ArksModel")
        else if mounts_models app.instance_spec.volume_mounts
        then fail_precheck (text "ReservedVolumeMountPath")
            (text "Volume mount path '/models' is reserved for ArksModel")
        else change (
            with_condition precheck condition_true (text "PrecheckPass")
              (text "The application passed the pre-checking") now)
  ]

  unfoldable pub ensure_prechecked : Run (Unit {0})
  unfolding runtime_of check_condition update_condition
  ensure_prechecked =
      unless_condition precheck (do change (in_phase phase_checking); app ← object; prechecks app)

  abbrev pub find_model : Run ArksModel
  find_model = do
    app ← object
    got ← ask (k.get_model app.namespace app.model)
    elim got [
      | inl m ↦ pure m
      | inr e ↦
          if is_not_found e.kind
          then fail_with loaded (text "ModelNotExist") (text "The referenced model doesn't exist")
              no_error
          else return (failing e.message)
    ]

  -- `RequeueAfter: 3 * time.Second`
  abbrev pub later : Returned
  later = record { requeue = false; requeue_after = pos 3000000000; error = none }

  abbrev pub load_checks : ArksModel → Run (Unit {0})
  load_checks m =
      if text_eq m.phase (text "Failed")
      then fail_with loaded (text "ModelLoadFailed") (text "Failed to load the referenced model")
          no_error
      else if text_eq m.phase (text "Ready")
      then change (
          with_condition loaded condition_true (text "ModelLoadSucceeded")
            (text "The referenced model is loaded") now)
      else return later

  unfoldable pub ensure_loaded : ArksModel → Run (Unit {0})
  unfolding check_condition update_condition
  ensure_loaded m = unless_condition loaded (do change (in_phase phase_loading); load_checks m)

  abbrev pub failing_with : Text → Text → Returned
  failing_with what message = failing (what ++ k.quoted message)

  abbrev pub lws_failed : ApiError → Run (Unit {0})
  lws_failed e = do
    change (
        with_condition ready condition_false (text "UnderlayCreatedFailed")
          (text "Failed to create underlay: " ++ k.quoted e.message) now)
    return (failing_with (text "failed to create underlying LWS: ") e.message)

  abbrev pub create_generated : Generated LeaderWorkerSet → Run (Unit {0})
  create_generated dereferenced = panic
  create_generated (refused message) =
      fail_with precheck (text "UnderlayGenerateFailed")
        (text "Failed to generate underlay: " ++ k.quoted message)
        (failing_with (text "failed to generate underlying LWS: ") message)
  create_generated (generated lws) = do
    failure ← call (k.create_lws lws)
    unless_exists failure lws_failed

  unfoldable pub ensure_lws : ArksModel → Run (Unit {0})
  unfolding generate_lws update_condition
  ensure_lws m = do
    app ← object
    got ← ask (k.get_lws app.namespace app.name)
    elim got [
      | inl lws ↦ pure tt
      | inr e ↦
          if is_not_found e.kind
          then create_generated (generate_lws k.images app m)
          else return (failing_with (text "failed to check the underlying LWS: ") e.message)
    ]

  unfoldable pub ensure_service : Run (Unit {0})
  unfolding generate_application_service_name
  ensure_service = do
    app ← object
    got ← ask (k.get_service app.namespace (generate_application_service_name app.name))
    elim got [
      | none ↦ pure tt
      | some e ↦
          if is_not_found e.kind
          then (do
            failure ← call (k.create_service (application_service app))
            unless_exists failure (λ x.
                return (failing_with (text "failed to create application service: ") x.message)))
          else return (failing_with (text "failed to check the service: ") e.message)
    ]

  unfoldable pub ensure_running : ArksModel → Run (Unit {0})
  unfolding ensure_lws ensure_service check_condition update_condition
  ensure_running m = unless_condition ready (do
    change (in_phase phase_creating)
    ensure_lws m
    ensure_service
    change (λ a.
        with_condition ready condition_true (text "Running") (text "The LLM service is running") now
          (in_phase phase_running a)))

  abbrev pub with_replicas : ReplicaStatus → ArksApplication → ArksApplication
  with_replicas status app = record app {
    status_replicas = status.replicas;
    ready_replicas = status.ready_replicas;
    updated_replicas = status.updated_replicas;
  }

  unfoldable pub sync_status : Run (Unit {0})
  unfolding update_condition
  sync_status = do
    app ← object
    got ← ask (k.get_lws app.namespace app.name)
    elim got [
      | inl lws ↦ change (with_replicas lws.status)
      | inr e ↦
          if is_not_found e.kind
          then change (λ a.
            with_condition ready condition_false (text "UnderlyingNotExit")
              (text "The underlying LWS doesn't exist") now (in_phase phase_running a))
          else return (failing_with (text "failed to query the underlying LWS status: ") e.message)
    ]
