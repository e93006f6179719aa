-- ===== src/Application/Workload.antt =====
-- internal/controller/arksapplication_controller.go: the LeaderWorkerSet and the service of an
-- application.
use arks.Prelude.{none, List, true, Option, if◌then◌else◌, some, [], ◌++◌, ◌∷◌}
use arks.ArksModel.{ArksModel, ArksModelStorage}
use arks.Application.{
  ArksApplication, text_eq, text, key_application, key_work_load_role, role_leader, key_model,
  role_worker,
}
use arks.Prelude.Int.{ℤ, pos, ltb_ℤ, int32}
use arks.Application.Commands.{
  get_runtime_image, Generated, generated, generate_leader_command, dereferenced, refused,
  generate_worker_command, Images,
}
use arks.InstanceSpec.{
  VolumeMount, EnvVar, Labels, Probe, env_field, Volume, PodFields, claim, tcp_socket,
}
use arks.Prelude.Text.{Result, Text, ok, text_eq, text, err}
use arks.RateLimiter.{insert}
use arks.ArksModel.Steps.{generate_model_path}

-- The fields of `corev1.Container` and of its pod that the controllers set.
pub record PodTemplate : Type 0 where
  pub annotations : Labels
  pub labels : Labels
  pub pod : PodFields
  pub image_pull_secrets : List Text
  pub init_containers : List Text
  pub container : Text
  pub image : Text
  pub command : List Text
  pub resources : Text
  pub volume_mounts : List VolumeMount
  pub env : List EnvVar
  pub ports : List ℤ
  pub readiness_probe : Option Probe
  pub liveness_probe : Option Probe
  pub startup_probe : Option Probe
  pub volumes : List Volume

pub record ReplicaStatus : Type 0 where
  pub replicas : ℤ
  pub ready_replicas : ℤ
  pub updated_replicas : ℤ

abbrev pub no_replicas : ReplicaStatus
no_replicas = record { replicas = pos 0; ready_replicas = pos 0; updated_replicas = pos 0 }

-- Its startup and restart policies are the same for every one that the controllers make.
pub record LeaderWorkerSet : Type 0 where
  pub name : Text
  pub namespace : Text
  pub labels : Labels
  pub replicas : ℤ
  pub size : ℤ
  pub leader : PodTemplate
  pub worker : PodTemplate
  pub status : ReplicaStatus

-- A service with the port `http`.
pub record Service : Type 0 where
  pub name : Text
  pub namespace : Text
  pub labels : Labels
  pub selector : Labels
  pub port : ℤ

abbrev pub models_volume : Text
models_volume = text "models"

abbrev pub models_mount_path : Text
models_mount_path = text "/models"

-- The loop that copies a map.
abbrev pub copy_labels : Labels → Labels → Labels
copy_labels copy [] = copy
copy_labels copy ((k, v) ∷ rest) = copy_labels (insert k v copy) rest

unfoldable pub generate_lws_labels : ArksApplication → Text → Labels
generate_lws_labels app role = insert key_work_load_role role (
    insert key_model app.model
      (insert key_application app.name (copy_labels [] app.instance_spec.labels)))

abbrev pub model_volume : Text → Volume
model_volume claim_name = record { name = models_volume; source = claim claim_name }

abbrev pub model_mount : VolumeMount
model_mount = record { name = models_volume; mount_path = models_mount_path; read_only = true }

abbrev pub worker_index : EnvVar
worker_index =
    env_field (text "LWS_WORKER_INDEX")
      (text "metadata.labels['leaderworkerset.sigs.k8s.io/worker-index']")

abbrev pub with_worker_index : Text → List EnvVar → List EnvVar
with_worker_index runtime env =
    if text_eq runtime (text "sglang") then env ++ (worker_index ∷ []) else env

abbrev pub or_probe : Option Probe → Probe → Option Probe
or_probe none probe = some probe
or_probe (some probe) _ = some probe

abbrev pub at_least : ℤ → ℤ → ℤ
at_least low n = if ltb_ℤ n low then low else n

abbrev pub generated_then : {A B : Type 0} → Generated A → (A → Generated B) → Generated B
generated_then (generated a) f = f a
generated_then (refused message) f = refused message
generated_then dereferenced f = dereferenced

abbrev pub from_result : {A : Type 0} → Result A → Generated A
from_result (ok a) = generated a
from_result (err message) = refused message

abbrev pub from_option : {A : Type 0} → Option A → Generated A
from_option none = dereferenced
from_option (some a) = generated a

-- `generateModelPath(model)`, where the model has a storage.
abbrev pub model_path : ArksModel → Option Text
model_path m = elim m.storage [
  | none ↦ none
  | some storage ↦ some (generate_model_path m.namespace storage m.name)
]

abbrev pub claim_of : Option ArksModelStorage → Option Text
claim_of none = none
claim_of (some storage) = elim storage.pvc [ none ↦ none | some pvc ↦ some pvc.name ]

abbrev pub template : ArksApplication → Text → Text → Text → Text → List Text → PodTemplate
template app role container claim_name image command =
    let spec = app.instance_spec in
    record {
      annotations = spec.annotations;
      labels = generate_lws_labels app role;
      pod = spec.pod;
      image_pull_secrets = app.runtime_image_pull_secrets;
      init_containers = spec.init_containers;
      container = container;
      image = image;
      command = command;
      resources = spec.resources;
      volume_mounts = model_mount ∷ spec.volume_mounts;
      env = with_worker_index app.runtime spec.env;
      ports = [];
      readiness_probe = none;
      liveness_probe = none;
      startup_probe = none;
      volumes = model_volume claim_name ∷ spec.volumes;
    }

-- `int32` of an `int` wraps.
abbrev pub leader_worker_set :
    ArksApplication → Text → Text → List Text → List Text → LeaderWorkerSet
leader_worker_set app claim_name image leader worker = record {
  name = app.name;
  namespace = app.namespace;
  labels = (key_application, app.name) ∷ [];
  replicas = int32 (at_least (pos 0) app.replicas);
  size = int32 (at_least (pos 1) app.size);
  leader = record (template app role_leader (text "leader") claim_name image leader) {
    ports = pos 8080 ∷ [];
    readiness_probe =
        or_probe app.instance_spec.readiness_probe (tcp_socket (pos 8080) (pos 15) (pos 10));
    liveness_probe = app.instance_spec.liveness_probe;
  };
  worker = template app role_worker (text "worker") claim_name image worker;
  status = no_replicas;
}

unfoldable pub generate_lws : Images → ArksApplication → ArksModel → Generated LeaderWorkerSet
unfolding get_runtime_image generate_leader_command generate_worker_command generate_lws_labels
generate_lws env app m = generated_then (from_result (get_runtime_image env app)) (λ image.
    generated_then (generate_leader_command app (model_path m)) (λ leader.
      generated_then (generate_worker_command app (model_path m)) (λ worker.
        generated_then (from_option (claim_of m.storage))
          (λ claim_name. generated (leader_worker_set app claim_name image leader worker)))))

unfoldable pub generate_application_service_name : Text → Text
generate_application_service_name name = text "arks-application-" ++ name

abbrev pub application_service : ArksApplication → Service
application_service app = record {
  name = generate_application_service_name app.name;
  namespace = app.namespace;
  labels = (text "prometheus-discovery", text "true") ∷ (text "managed-by", text "arks") ∷ [];
  selector = (key_application, app.name) ∷ (key_work_load_role, role_leader) ∷ [];
  port = pos 8080;
}
