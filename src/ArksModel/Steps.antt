-- ===== src/ArksModel/Steps.antt =====
-- internal/controller/arksmodel_controller.go: the storage and the loading of an ArksModel.
-- Logs are left out.
use arks.Prelude.{
  none, Option, ◌⊎◌, inl, true, List, ◌++◌, inr, some, ◌∷◌, [], false, Bool, if◌then◌else◌,
}
use arks.Prelude.Text.{Text, text_eq, text}
use arks.ArksModel.{
  ArksModelStoragePvc, ArksModel, phase_model_loading, storage_created, text, check_condition,
  ArksModelSource, text_eq, ConditionStatus, update_condition, ArksModelStorage, condition_false,
  condition_true, ArksModelSourceHuggingFace, model_loaded, phase_failed, phase_storage_creating,
}
use arks.Prelude.Int.{ℤ, pos}
use arks.ArksModel.Kube.{
  not_found, already_exists, ApiErrorKind, Kube, ContainerState, WorkerPod, PodStatus, ApiError,
  VolumeClaim,
}
use arks.InstanceSpec.{EnvVar, env_value, env_secret}

-- `ctrl.Result` and the error that goes with it; `requeue_after` counts nanoseconds.
pub record Returned : Type 0 where
  pub requeue : Bool
  pub requeue_after : ℤ
  pub error : Option Text

abbrev pub no_error : Returned
no_error = record { requeue = false; requeue_after = pos 0; error = none }

abbrev pub requeued : Returned
requeued = record { requeue = true; requeue_after = pos 0; error = none }

abbrev pub failing : Text → Returned
failing message = record { requeue = false; requeue_after = pos 0; error = some message }

-- What a step leaves: what it returns, the object in memory, and the cluster.
pub record Left (W : Type 0) : Type 0 where
  pub returned : Returned
  pub model : ArksModel
  pub world : W

abbrev pub left : {W : Type 0} → Returned → ArksModel → W → Left W
left returned model w = record { returned = returned; model = model; world = w }

abbrev pub set_condition : ArksModel → Text → ConditionStatus → Text → Text → ℤ → ArksModel
set_condition m type status reason message now = record m {
  conditions = update_condition m.conditions type status reason message now;
}

abbrev pub set_phase : ArksModel → Text → ArksModel
set_phase m phase = record m { phase = phase }

unfoldable pub generate_worker_pod_name : ArksModel → Text
generate_worker_pod_name m = text "arks-worker-" ++ m.name

unfoldable pub generate_model_path : Text → ArksModelStorage → Text → Text
generate_model_path namespace storage name =
    if text_eq storage.sub_path []
    then text "/models/models/" ++ (namespace ++ (text "/" ++ name))
    else text "/models/" ++ storage.sub_path

-- `getJobFailureMessage`
unfoldable pub get_job_failure_message : List ContainerState → Text
get_job_failure_message [] = text "Unknown failure reason"
get_job_failure_message (c ∷ rest) =
    let more = get_job_failure_message rest in
    elim c.waiting [
      | some message ↦ message
      | none ↦ elim c.terminated [ some message ↦ message | none ↦ more ]
    ]

abbrev pub is_not_found : ApiErrorKind → Bool
is_not_found not_found = true
is_not_found _ = false

abbrev pub is_already_exists : ApiErrorKind → Bool
is_already_exists already_exists = true
is_already_exists _ = false

abbrev pub storage_name : ArksModelStoragePvc → Text → Text
storage_name pvc name = if text_eq pvc.name [] then name else pvc.name

-- A step that ends the reconciliation, or goes on with a value.
pub data Step (W : Type 0) (A : Type 0) : Type 0 where
  stop : Left W → Step W A
  go_on : A → ArksModel → W → Step W A

module _ {W : Type 0} (k : Kube W) (now : ℤ) where
  abbrev pub storage_message :
      (what close : Text) → ArksModel → ArksModelStoragePvc → ApiError → Text
  storage_message what close m pvc e =
      what
      ++ (text " storage volume ("
          ++ (m.namespace ++ (text "/" ++ (pvc.name ++ (close ++ k.quoted e.message)))))

  abbrev pub created : ArksModel → ArksModelStoragePvc → ArksModel
  created m pvc =
      set_condition m storage_created condition_true (text "CreateSucceeded")
        (text "Create model storage successfully(" ++ (pvc.name ++ text ")")) now

  -- A claim that exists already is as good as one that is created.
  abbrev pub after_create_pvc :
      Option ApiError → Text → ArksModelStoragePvc → ArksModel → W → Step W Text
  after_create_pvc none name pvc m w = go_on name (created m pvc) w
  after_create_pvc (some e) name pvc m w =
      if is_already_exists e.kind
      then go_on name (created m pvc) w
      else stop (
          left (failing (storage_message (text "failed to create") (text "): ") m pvc e))
            (set_condition m storage_created condition_false (text "BoundFailed")
              (storage_message (text "Failed to create") (text "): ") m pvc e) now)
            w)

  abbrev pub new_claim : ArksModel → Text → ArksModelStoragePvc → VolumeClaim
  new_claim m name pvc = record {
    name = name;
    namespace = m.namespace;
    model_label = m.name;
    spec = pvc.spec;
  }

  abbrev pub after_get_pvc :
      Option ApiError → Text → ArksModelStoragePvc → ArksModel → W → Step W Text
  after_get_pvc none name pvc m w = go_on name (created m pvc) w
  after_get_pvc (some e) name pvc m w =
      let (failure, w') = k.create_pvc (new_claim m name pvc) w in
      if is_not_found e.kind
      then after_create_pvc failure name pvc m w'
      else stop
          (left (failing (storage_message (text "failed to check") (text ") : ") m pvc e)) m w)

  -- The storage; the name of the claim is known only while the storage is not yet created.
  unfoldable pub ensure_storage : Option ArksModelStoragePvc → ArksModel → W → Step W Text
  unfolding update_condition check_condition
  ensure_storage none m w = stop (
      left no_error
        (set_condition (set_phase m phase_failed) storage_created condition_false
          (text "CreateFailed") (text "Failed to create model storage: no storage PVC specified")
          now)
        w)
  ensure_storage (some pvc) m w =
      if check_condition m.conditions storage_created
      then go_on [] m w
      else after_get_pvc (k.get_pvc m.namespace (storage_name pvc m.name) w)
          (storage_name pvc m.name) pvc (set_phase m phase_storage_creating) w

  abbrev pub token_env : Option Text → List EnvVar
  token_env none = []
  token_env (some secret) = env_secret (text "HF_TOKEN") secret (text "HF_TOKEN") ∷ []

  abbrev pub get_scripts_image : Text
  get_scripts_image =
      if text_eq k.scripts_image [] then text "scitixai/arks-scripts:latest" else k.scripts_image

  unfoldable pub worker_pod :
      ArksModel → ArksModelStorage → ArksModelSourceHuggingFace → Text → WorkerPod
  worker_pod m storage source claim = record {
    name = generate_worker_pod_name m;
    namespace = m.namespace;
    model_label = m.name;
    pod = m.instance_spec.pod;
    liveness_probe = m.instance_spec.liveness_probe;
    readiness_probe = m.instance_spec.readiness_probe;
    image_pull_secrets = m.image_pull_secrets;
    image = get_scripts_image;
    envs =
        env_value (text "MODEL_NAME") m.model
        ∷ env_value (text "MODEL_PATH") (generate_model_path m.namespace storage m.name)
        ∷ token_env source.token_secret_ref;
    claim_name = claim;
  }

  abbrev pub loading : ArksModel → Text → Text → ArksModel
  loading m reason message =
      set_condition (set_phase m phase_model_loading) model_loaded condition_false reason message
        now

  abbrev pub waiting : ArksModel → W → Step W Unit
  waiting m w =
      stop (left no_error (loading m (text "ModelLoading") (text "The model is loading now")) w)

  abbrev pub after_create_pod : Option ApiError → ArksModel → W → Step W Unit
  after_create_pod none m w = waiting m w
  after_create_pod (some e) m w =
      if is_already_exists e.kind
      then waiting m w
      else stop (
          left (failing (text "failed to create worker pod to load model: " ++ k.quoted e.message))
            (loading m (text "CreateWorkerPodFailed")
              (text "Failed to create worker pod to load model: " ++ k.quoted e.message))
            w)

  -- The pod that loads the model: there is none yet, or its phase decides.
  abbrev pub after_get_pod :
      PodStatus ⊎ ApiError
      → ArksModelStorage
      → ArksModelSourceHuggingFace
      → Text
      → ArksModel
      → W
      → Step W Unit
  after_get_pod (inr e) storage source claim m w =
      let (failure, w') = k.create_pod (worker_pod m storage source claim) w in
      if is_not_found e.kind
      then after_create_pod failure m w'
      else stop (
          left
            (failing (text "failed to query worker pod for loading model: " ++ k.quoted e.message))
            m w)
  after_get_pod (inl pod) storage source claim m w =
      if text_eq pod.phase (text "Failed")
      then stop (
          left no_error
            (set_condition (set_phase m phase_failed) model_loaded condition_false
              (text "ModelLoadFailed")
              (text "Failed to load the model: " ++ get_job_failure_message pod.containers) now)
            w)
      else if text_eq pod.phase (text "Succeeded")
      then go_on tt
          (set_condition m model_loaded condition_true (text "ModelLoadSucceeded")
            (text "Load the model successfully") now)
          w
      else stop (left no_error m w)

  abbrev pub load_from :
      Option ArksModelSource → ArksModelStorage → Text → ArksModel → W → Step W Unit
  load_from none storage claim m w =
      go_on tt
        (set_condition m model_loaded condition_true (text "ModelLoadSucceeded")
          (text "The model is in existing storage") now)
        w
  load_from (some source) storage claim m w = elim source.huggingface [
    | none ↦ go_on tt m w
    | some hf ↦
        after_get_pod (k.get_pod m.namespace (generate_worker_pod_name m) w) storage hf claim m w
  ]

  unfoldable pub ensure_loaded : ArksModelStorage → Text → ArksModel → W → Step W Unit
  unfolding worker_pod generate_worker_pod_name get_job_failure_message update_condition
      check_condition
  ensure_loaded storage claim m w =
      if check_condition m.conditions model_loaded
      then go_on tt m w
      else load_from m.source storage claim m w
