-- ===== src/ArksModel/Kube.antt =====
-- The Kubernetes clients of the ArksModel controller, a parameter of the model, and their objects.
use arks.Prelude.{Option, ◌⊎◌, List}
use arks.Prelude.Text.{Text, Result}
use arks.ArksModel.{ArksModel}
use arks.InstanceSpec.{PodFields, EnvVar, Probe}

pub data ApiErrorKind : Type 0 where
  not_found : ApiErrorKind
  already_exists : ApiErrorKind
  other_kind : ApiErrorKind

pub record ApiError : Type 0 where
  pub kind : ApiErrorKind
  pub message : Text

-- What a container waits for or ended with.
pub record ContainerState : Type 0 where
  pub waiting : Option Text
  pub terminated : Option Text

pub record PodStatus : Type 0 where
  pub phase : Text
  pub containers : List ContainerState

pub record WorkerPod : Type 0 where
  pub name : Text
  pub namespace : Text
  pub model_label : Text
  pub pod : PodFields
  pub image_pull_secrets : List Text
  pub image : Text
  pub envs : List EnvVar
  pub liveness_probe : Option Probe
  pub readiness_probe : Option Probe
  pub claim_name : Text

pub record VolumeClaim : Type 0 where
  pub name : Text
  pub namespace : Text
  pub model_label : Text
  pub spec : Text

-- The calls of the Kubernetes clients. A read takes a namespace and a name; `update_model` gives the
-- object that the server returns. `quoted` is `%q` of an error, `scripts_image` the environment's
-- ARKS_SCRIPTS_IMAGE.
pub record Kube (W : Type 0) : Type 0 where
  pub get_model : Text → Text → W → ArksModel ⊎ ApiError
  pub update_model : ArksModel → W → Result ArksModel × W
  pub update_model_status : ArksModel → W → Option ApiError × W
  pub get_pvc : Text → Text → W → Option ApiError
  pub create_pvc : VolumeClaim → W → Option ApiError × W
  pub get_pod : Text → Text → W → PodStatus ⊎ ApiError
  pub create_pod : WorkerPod → W → Option ApiError × W
  pub delete_pod : Text → Text → W → Option ApiError × W
  pub quoted : Text → Text
  pub scripts_image : Text
