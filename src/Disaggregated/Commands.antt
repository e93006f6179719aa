-- ===== src/Disaggregated/Commands.antt =====
-- internal/controller/arksdisaggregatedapplication_controller.go: the images and the commands of a
-- disaggregated application.
use arks.Prelude.{none, ◌∷◌, some, ◌++◌, Option, if◌then◌else◌, []}
use arks.Application.Commands.{
  append_args, option, has_substring, with_metrics, Generated, sglang_launch, dereferenced,
  or_default, generated, refused,
}
use arks.Disaggregated.{
  ArksDisaggregatedApplication, Role, ArksInstanceSpec, ℤ, Text, text, key_disaggregation_role,
  role_name, prefill_role, workload_of, decode_role,
}
use arks.Prelude.Text.{Result, Text, text_eq, text, ok, err}
use arks.Prelude.Int.{ℤ}
use arks.InstanceSpec.{ArksInstanceSpec, Labels}
use arks.RateLimiter.{insert}
use arks.Prelude.Decimal.{format_int}
use arks.Application.{served_name, key_model, key_work_load_role, key_application, role_leader}
use arks.Application.Workload.{copy_labels}

-- ARKS_DEFAULT_SGLANG_ROUTER_IMAGE and ARKS_DEFAULT_SGLANG_IMAGE of the environment.
pub record Images : Type 0 where
  pub sglang_router_image : Text
  pub sglang_image : Text

abbrev pub default_image : Text
default_image = text "lmsysorg/sglang:v0.5.1.post1-cu126"

abbrev pub if_sglang : {A : Type 0} → Text → A → Result A
if_sglang runtime a =
    if text_eq runtime (text "sglang") then ok a else err (text "unsupported runtime")

unfoldable pub get_router_image : Images → ArksDisaggregatedApplication → Result Text
get_router_image env app =
    if text_eq app.router_image []
    then if_sglang app.runtime
        (or_default env.sglang_router_image (or_default env.sglang_image default_image))
    else ok app.router_image

unfoldable pub get_runtime_image : Images → ArksDisaggregatedApplication → Result Text
get_runtime_image env app =
    if text_eq app.runtime_image []
    then if_sglang app.runtime (or_default env.sglang_image default_image)
    else ok app.runtime_image

abbrev pub get_served_model_name : ArksDisaggregatedApplication → Text
get_served_model_name app = served_name app.model app.served_model_name

unfoldable pub generate_workload_labels : ArksInstanceSpec → Text → Labels
generate_workload_labels spec role =
    insert key_disaggregation_role role (copy_labels [] spec.labels)

abbrev pub named_labels : ArksDisaggregatedApplication → Labels → Labels
named_labels app labels = insert key_model app.model (insert key_application app.name labels)

unfoldable pub generate_router_labels : ArksDisaggregatedApplication → Labels
unfolding generate_workload_labels
generate_router_labels app =
    named_labels app (generate_workload_labels app.router.instance_spec (text "router"))

-- `generatePrefillWorkloadLwsLabels` and `generateDecodeWorkloadLwsLabels`
unfoldable pub generate_lws_labels : ArksDisaggregatedApplication → Role → Text → Labels
unfolding generate_workload_labels
generate_lws_labels app role work_load_role = insert key_work_load_role work_load_role (
    named_labels app
      (generate_workload_labels (workload_of app role).instance_spec (role_name role)))

abbrev pub append_labels : Text → Labels → Text
append_labels args [] = args
append_labels args ((k, v) ∷ rest) = append_labels (args ++ (b' ' ∷ (k ++ (text "=" ++ v)))) rest

abbrev pub with_policy : Text → Text
with_policy args =
    if has_substring (text "-policy") args then args else args ++ text " --policy cache_aware"

abbrev pub with_prometheus : ℤ → Text → Text
with_prometheus metric_port args =
    if has_substring (text "prometheus-port") args
    then args
    else option (args ++ text " --prometheus-host 0.0.0.0") (text "--prometheus-port")
        (format_int metric_port)

abbrev pub router_launch : Text
router_launch =
    text "python3 -m sglang_router.launch_router --pd-disaggregation --service-discovery"
    ++ text " --service-discovery-port 8080 --host 0.0.0.0 --port "

-- `order` is the order in which Go visits a map.
unfoldable pub generate_router_command :
    (Labels → Labels) → ArksDisaggregatedApplication → (port metric_port : ℤ) → Result Text
unfolding generate_lws_labels has_substring
generate_router_command order app port metric_port =
    let found =
      option (router_launch ++ format_int port) (text "--service-discovery-namespace")
        app.namespace in
    let prefills =
      append_labels (found ++ text " --prefill-selector")
        (order (generate_lws_labels app prefill_role role_leader)) in
    let decodes =
      append_labels (prefills ++ text " --decode-selector")
        (order (generate_lws_labels app decode_role role_leader)) in
    if_sglang app.runtime
      (with_prometheus metric_port (with_policy (append_args decodes app.router.router_args)))

abbrev pub serving_args : ArksDisaggregatedApplication → Role → Text → Text → Text
serving_args app role launch path = with_metrics (
    append_args
      (option
        (option (option launch (text "--model-path") path) (text "--served-model-name")
          (get_served_model_name app))
        (text "--disaggregation-mode") (role_name role))
      (workload_of app role).runtime_common_args)

-- The path of the model is read for the runtime sglang only.
abbrev pub command_of : ArksDisaggregatedApplication → Role → Text → Option Text → Generated Text
command_of app role launch path =
    if text_eq app.runtime (text "sglang")
    then elim path [ none ↦ dereferenced | some p ↦ generated (serving_args app role launch p) ]
    else refused (text "unsupported runtime")

unfoldable pub generate_leader_command :
    ArksDisaggregatedApplication → Role → Option Text → Generated Text
unfolding has_substring
generate_leader_command app role path =
    command_of app role
      (sglang_launch ++ text " --host 0.0.0.0 --port 8080 --disaggregation-mode prefill") path

unfoldable pub generate_worker_command :
    ArksDisaggregatedApplication → Role → Option Text → Generated Text
unfolding has_substring
generate_worker_command app role path = command_of app role sglang_launch path
