-- ===== src/Disaggregated/Workload.antt =====
-- internal/controller/arksdisaggregatedapplication_controller.go: the LeaderWorkerSets, the router's
-- deployment and the router's service.
use arks.Prelude.{none, some, [], List, Option, ◌∷◌, ◌++◌, if◌then◌else◌}
use arks.Application.Workload.{
  LeaderWorkerSet, PodTemplate, model_volume, model_mount, Service, ReplicaStatus, generated_then,
  with_worker_index, or_probe, from_result, no_replicas, model_path, from_option, claim_of,
  at_least,
}
use arks.Disaggregated.{
  ArksDisaggregatedApplication, ℤ, Text, Role, ArksInstanceSpec, workload_of, text, role_name,
  key_disaggregation_role,
}
use arks.Disaggregated.Commands.{
  Images, get_runtime_image, get_router_image, generate_leader_command, generate_worker_command,
  generate_lws_labels, generate_router_labels, generate_router_command,
}
use arks.InstanceSpec.{Labels, ArksInstanceSpec, Probe, EnvVar, env_value, http_get}
use arks.Prelude.Text.{Text, Result, ok, text, err}
use arks.Prelude.Int.{ℤ, pos, is_zero_ℤ, ltb_ℤ, int32}
use arks.ArksModel.{ArksModel}
use arks.Application.Commands.{Generated, dereferenced, generated}
use arks.Application.{key_application, role_leader, key_model, role_worker}

-- `appsv1.Deployment`, with the fields that the controller sets.
pub record Deployment : Type 0 where
  pub name : Text
  pub namespace : Text
  pub labels : Labels
  pub replicas : Option ℤ
  pub selector : Labels
  pub template : PodTemplate
  pub status : ReplicaStatus

abbrev pub bash : Text → List Text
bash args = text "/bin/bash" ∷ text "-c" ∷ args ∷ []

-- An override replaces the command, which the environment keeps under `name`.
abbrev pub command_or : List Text → Text → List Text
command_or [] command = bash command
command_or (c ∷ rest) command = c ∷ rest

abbrev pub env_or : List Text → Text → Text → List EnvVar → List EnvVar
env_or [] name command env = env
env_or (c ∷ rest) name command env = env ++ (env_value name command ∷ [])

-- The path, and the numbers of both probes of the kind.
abbrev pub http_probe : Text → Probe
http_probe path = http_get path (pos 8080) (pos 30) (pos 10) (pos 3) (pos 120)

abbrev pub pod_of : ArksDisaggregatedApplication → ArksInstanceSpec → Labels → Text → PodTemplate
pod_of app spec labels image = record {
  annotations = spec.annotations;
  labels = labels;
  pod = spec.pod;
  image_pull_secrets = app.runtime_image_pull_secrets;
  init_containers = spec.init_containers;
  container = text "main";
  image = image;
  command = [];
  resources = spec.resources;
  volume_mounts = spec.volume_mounts;
  env = spec.env;
  ports = [];
  readiness_probe = none;
  liveness_probe = none;
  startup_probe = none;
  volumes = spec.volumes;
}

abbrev pub workload_pod : ArksDisaggregatedApplication → Role → Text → Text → Text → PodTemplate
workload_pod app role work_load_role claim_name image =
    let spec = (workload_of app role).instance_spec in
    record (pod_of app spec (generate_lws_labels app role work_load_role) image) {
      volume_mounts = model_mount ∷ spec.volume_mounts;
      env = with_worker_index app.runtime spec.env;
      volumes = model_volume claim_name ∷ spec.volumes;
    }

abbrev pub leader_pod : ArksDisaggregatedApplication → Role → Text → Text → Text → PodTemplate
leader_pod app role claim_name image command =
    let workload = workload_of app role in
    let spec = workload.instance_spec in
    let override = workload.leader_command_override in
    record (workload_pod app role role_leader claim_name image) {
      command = command_or override command;
      env =
          env_or override (text "ARKS_LEADER_COMMAND") command
            (with_worker_index app.runtime spec.env);
      ports = pos 8080 ∷ [];
      readiness_probe = or_probe spec.readiness_probe (http_probe (text "/health"));
      liveness_probe = spec.liveness_probe;
      startup_probe = spec.startup_probe;
    }

abbrev pub worker_pod : ArksDisaggregatedApplication → Role → Text → Text → Text → PodTemplate
worker_pod app role claim_name image command =
    let workload = workload_of app role in
    let override = workload.worker_command_override in
    record (workload_pod app role role_worker claim_name image) {
      command = command_or override command;
      env =
          env_or override (text "ARKS_WORKER_COMMAND") command
            (with_worker_index app.runtime workload.instance_spec.env);
    }

-- A nil pointer is dereferenced; a negative number becomes 1, in the object too.
abbrev pub checked_replicas : Option ℤ → Generated ℤ
checked_replicas none = dereferenced
checked_replicas (some n) = generated (if ltb_ℤ n (pos 0) then pos 1 else n)

abbrev pub workload_name : ArksDisaggregatedApplication → Role → Text
workload_name app role = app.name ++ (text "-" ++ role_name role)

abbrev pub disaggregated_lws :
    ArksDisaggregatedApplication
    → Role
    → (claim_name image leader worker : Text) → ℤ
    → LeaderWorkerSet
disaggregated_lws app role claim_name image leader worker replicas = record {
  name = workload_name app role;
  namespace = app.namespace;
  labels = (key_application, app.name) ∷ [];
  replicas = replicas;
  size = int32 (at_least (pos 1) (workload_of app role).size);
  leader = leader_pod app role claim_name image leader;
  worker = worker_pod app role claim_name image worker;
  status = no_replicas;
}

unfoldable pub generate_disaggregated_lws :
    Images → ArksDisaggregatedApplication → ArksModel → Role → Generated LeaderWorkerSet
unfolding get_runtime_image generate_leader_command generate_worker_command generate_lws_labels
generate_disaggregated_lws env app m role =
    generated_then (from_result (get_runtime_image env app)) (λ image.
      generated_then (generate_leader_command app role (model_path m)) (λ leader.
        generated_then (generate_worker_command app role (model_path m)) (λ worker.
          generated_then (checked_replicas (workload_of app role).replicas) (λ replicas.
            generated_then (from_option (claim_of m.storage)) (λ claim_name.
              generated (disaggregated_lws app role claim_name image leader worker replicas))))))

abbrev pub router_name : Text → Text
router_name name = name ++ text "-router"

abbrev pub port_or : ℤ → ℤ → ℤ
port_or port default = if is_zero_ℤ port then default else port

abbrev pub router_port : ArksDisaggregatedApplication → ℤ
router_port app = port_or app.router.port (pos 8080)

-- One replica where the number is missing or negative.
abbrev pub replicas_or_one : Option ℤ → ℤ
replicas_or_one none = pos 1
replicas_or_one (some n) = if ltb_ℤ n (pos 0) then pos 1 else n

-- `generateRouterDeployment`, with the image and the command that it computes.
abbrev pub router_deployment : ArksDisaggregatedApplication → Text → Text → Text → Deployment
router_deployment app account image command =
    let spec = app.router.instance_spec in
    let override = app.router.command_override in
    record {
      name = app.name;
      namespace = app.namespace;
      labels = (key_application, app.name) ∷ [];
      replicas = some (replicas_or_one app.router.replicas);
      selector = (key_application, app.name) ∷ [];
      template = record (pod_of app spec (generate_router_labels app) image) {
        pod = record spec.pod { service_account_name = account };
        command = command_or override command;
        env = env_or override (text "ARKS_ROUTER_COMMAND") command spec.env;
        ports = router_port app ∷ [];
        readiness_probe = or_probe spec.readiness_probe (http_probe (text "/readiness"));
        liveness_probe = spec.liveness_probe;
        startup_probe = spec.startup_probe;
      };
      status = no_replicas;
    }

abbrev pub result_then : {A B : Type 0} → Result A → (A → Result B) → Result B
result_then (ok a) f = f a
result_then (err message) f = err message

unfoldable pub generate_router_deployment :
    (Labels → Labels) → Images → ArksDisaggregatedApplication → Text → Result Deployment
unfolding get_router_image generate_router_command generate_router_labels
generate_router_deployment order env app account = result_then (get_router_image env app) (λ image.
    result_then
      (generate_router_command order app (router_port app)
        (port_or app.router.metric_port (pos 9090)))
      (λ command. ok (router_deployment app account image command)))

-- The name of the service is set by the caller.
unfoldable pub generate_router_svc : ArksDisaggregatedApplication → Service
generate_router_svc app = record {
  name = app.name ++ text "-router-svc";
  namespace = app.namespace;
  labels = (key_application, app.name) ∷ (key_model, app.model) ∷ [];
  selector =
      (key_application, app.name)
      ∷ (key_model, app.model)
      ∷ (key_disaggregation_role, text "router")
      ∷ [];
  port = router_port app;
}
