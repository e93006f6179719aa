-- ===== src/InstanceSpec.antt =====
-- api/v1/arksapplication_types.go: `ArksInstanceSpec`, and the parts of pods that controllers set.
use arks.Prelude.{List, Option, Bool}
use arks.Prelude.Int.{ℤ}
use arks.Prelude.Text.{Text}

-- A Go map of labels or annotations.
abbrev pub Labels : Type 0
Labels = List (Text × Text)

-- An environment variable with a value, the key of a secret, or a field of its pod.
pub data EnvVar : Type 0 where
  env_value : Text → Text → EnvVar
  env_secret : Text → Text → Text → EnvVar
  env_field : Text → Text → EnvVar

-- `claim` is the claim of a volume of that kind; `other_volume` is any other volume.
pub data VolumeSource : Type 0 where
  claim : Text → VolumeSource
  other_volume : Text → VolumeSource

pub record Volume : Type 0 where
  pub name : Text
  pub source : VolumeSource

pub record VolumeMount : Type 0 where
  pub name : Text
  pub mount_path : Text
  pub read_only : Bool

-- The probes that the controllers make, with the numbers that they set, and any other one.
pub data Probe : Type 0 where
  tcp_socket : (port initial_delay period : ℤ) → Probe
  http_get : Text → (port initial_delay period timeout failures : ℤ) → Probe
  other_probe : Text → Probe

-- The fields of a pod with a text; the other ones are copied to the pods in the same way.
pub record PodFields : Type 0 where
  pub scheduler_name : Text
  pub node_name : Text
  pub subdomain : Text
  pub priority_class_name : Text
  pub service_account_name : Text

-- `resources` and `init_containers` are copied as they are.
pub record ArksInstanceSpec : Type 0 where
  pub pod : PodFields
  pub resources : Text
  pub labels : Labels
  pub annotations : Labels
  pub env : List EnvVar
  pub volume_mounts : List VolumeMount
  pub volumes : List Volume
  pub liveness_probe : Option Probe
  pub readiness_probe : Option Probe
  pub startup_probe : Option Probe
  pub init_containers : List Text
