-- ===== src/Application/Commands.antt =====
-- internal/controller/arksapplication_controller.go: the images and the commands of an application.
-- `sub_path` and the names of the model make the path where it is mounted.
use arks.Prelude.{none, [], ◌∷◌, Option, Bool, true, ◌++◌, if◌then◌else◌, List, some}
use arks.Application.{
  ArksApplication, runtime_of, ArksRuntime, text, ℤ, text_eq, served_name, vllm, sglang, dynamo,
}
use arks.Prelude.Text.{Text, Result, err, ok, text_eq, text, strip_prefix}
use arks.Prelude.Int.{ℤ, ltb_ℤ, pos}
use arks.Prelude.Decimal.{format_int}

-- `strings.Contains`
unfoldable pub has_substring : Text → Text → Bool
has_substring sub [] = text_eq sub []
has_substring sub (c ∷ s) =
    let rest = has_substring sub s in
    elim (strip_prefix sub (c ∷ s)) [ some t ↦ true | none ↦ rest ]

-- The loop that appends the arguments, each after a blank.
abbrev pub append_args : Text → List Text → Text
append_args args [] = args
append_args args (a ∷ rest) = append_args (args ++ (b' ' ∷ a)) rest

abbrev pub option : Text → Text → Text → Text
option args name value = args ++ (b' ' ∷ (name ++ (b' ' ∷ value)))

abbrev pub positive_option : Text → Text → ℤ → Text
positive_option args name n = if ltb_ℤ (pos 0) n then option args name (format_int n) else args

abbrev pub with_metrics : Text → Text
with_metrics args =
    if has_substring (text "enable-metrics") args then args else args ++ text " --enable-metrics"

abbrev pub bash : Text → List Text
bash args = text "/bin/bash" ∷ text "-c" ∷ args ∷ []

-- The images of the environment: ARKS_RUNTIME_DEFAULT_VLLM_IMAGE, ..._SGLANG_IMAGE and
-- ..._DYNAMO_IMAGE.
pub record Images : Type 0 where
  pub vllm_image : Text
  pub sglang_image : Text
  pub dynamo_image : Text

abbrev pub or_default : Text → Text → Text
or_default image default = if text_eq image [] then default else image

abbrev pub not_supported : {A : Type 0} → Result A
not_supported = err (text "runtime not support")

abbrev pub runtime_image : Images → Option ArksRuntime → Result Text
runtime_image env (some vllm) = ok (or_default env.vllm_image (text "vllm/vllm-openai:v0.8.2"))
runtime_image env (some sglang) =
    ok (or_default env.sglang_image (text "lmsysorg/sglang:v0.4.5-cu124"))
runtime_image env (some dynamo) = ok (or_default env.dynamo_image (text "scitixai/k8s/dynamo:vllm"))
runtime_image env none = not_supported

-- `getApplicationRuntimeImage`
unfoldable pub get_runtime_image : Images → ArksApplication → Result Text
unfolding runtime_of
get_runtime_image env app =
    if text_eq app.runtime_image []
    then runtime_image env (runtime_of app.runtime)
    else ok app.runtime_image

abbrev pub get_served_model_name : ArksApplication → Text
get_served_model_name app = served_name app.model app.served_model_name

-- `path` is the path of the model, which not every runtime reads: `none` is a nil dereference.
abbrev pub serving : ArksApplication → Text → Text → Text
serving app args path =
    option (option args (text "--model") path) (text "--served-model-name")
      (get_served_model_name app)

abbrev pub sglang_args : ArksApplication → Text → Text → Text
sglang_args app args path = with_metrics (
    append_args
      (positive_option
        (option (option args (text "--model-path") path) (text "--served-model-name")
          (get_served_model_name app))
        (text "--tp") app.tensor_parallel_size)
      app.runtime_common_args)

abbrev pub sglang_launch : Text
sglang_launch =
    text "python3 -m sglang.launch_server --dist-init-addr $(LWS_LEADER_ADDRESS):20000"
    ++ text " --nnodes $(LWS_GROUP_SIZE) --node-rank $(LWS_WORKER_INDEX) --trust-remote-code"

abbrev pub vllm_leader : Text
vllm_leader =
    text "/bin/bash /vllm-workspace/examples/online_serving/multi-node-serving.sh leader"
    ++ (text " --ray_cluster_size=$(LWS_GROUP_SIZE);"
        ++ text " python3 -m vllm.entrypoints.openai.api_server --port 8080")

abbrev pub vllm_worker : Text
vllm_worker =
    text "/bin/bash /vllm-workspace/examples/online_serving/multi-node-serving.sh worker"
    ++ text " --ray_address=$(LWS_LEADER_ADDRESS)"

-- A command, an error, or a nil dereference of the model's storage.
pub data Generated {ℓ} (A : Type ℓ) : Type ℓ where
  generated : A → Generated A
  refused : Text → Generated A
  dereferenced : Generated A

abbrev pub with_path : Option Text → (Text → List Text) → Generated (List Text)
with_path none f = dereferenced
with_path (some path) f = generated (f path)

abbrev pub leader_command :
    ArksApplication → Option Text → Option ArksRuntime → Generated (List Text)
leader_command app path (some vllm) = with_path path (λ p. bash (
    append_args
      (positive_option (serving app vllm_leader p) (text "--tensor-parallel-size")
        app.tensor_parallel_size)
      app.runtime_common_args))
leader_command app path (some sglang) =
    with_path path
      (λ p. bash (sglang_args app (sglang_launch ++ text " --host 0.0.0.0 --port 8080") p))
leader_command app path (some dynamo) = generated (
    bash (
      append_args (text "dynamo run in=http out=dyn://$(LWS_LEADER_ADDRESS)")
        app.runtime_common_args))
leader_command app path none = refused (text "runtime not support")

abbrev pub worker_command :
    ArksApplication → Option Text → Option ArksRuntime → Generated (List Text)
worker_command app path (some vllm) = generated (bash vllm_worker)
worker_command app path (some sglang) = with_path path (λ p. bash (sglang_args app sglang_launch p))
worker_command app path (some dynamo) = with_path path (λ p. bash (
    append_args
      (option (text "dynamo run in=dyn://$(LWS_LEADER_ADDRESS) out=vllm " ++ p)
        (text "--model-name") (get_served_model_name app))
      app.runtime_common_args))
worker_command app path none = refused (text "runtime not support")

unfoldable pub generate_leader_command : ArksApplication → Option Text → Generated (List Text)
unfolding runtime_of has_substring
generate_leader_command app path = leader_command app path (runtime_of app.runtime)

unfoldable pub generate_worker_command : ArksApplication → Option Text → Generated (List Text)
unfolding runtime_of has_substring
generate_worker_command app path = worker_command app path (runtime_of app.runtime)
