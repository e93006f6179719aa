-- ===== src/Application/Tests.antt =====
-- Examples for the ArksApplication controller: a cluster in which the model is ready and every call
-- succeeds, and whose world is the LeaderWorkerSet that was created.
use arks.Prelude.{
  none, [], inl, Option, ◌∷◌, inr, true, ◌≡◌, some, refl, false, ◌++◌, if◌then◌else◌, Bool,
}
use arks.Samples.{sample_instance}
use arks.Application.Reconcile.{reconcile_application, advance}
use arks.Application.Stages.{Cluster, finalizer}
use arks.Application.Removed.{IsRemoved, remove_application-IsRemoved}
use arks.Application.Reconcile.{remove_application}
use arks.Application.Running.{advance-Ended}
use arks.Application.Ended.{Ends, KeepsService}
use arks.Application.Safe.{HasClaim}
use arks.Application.Advance.{reconcile_application-Ordered}
use arks.Application.Selects.{generate_lws-selects, selects}
use arks.ArksModel.{check_condition, ArksModel, ArksModelStorage, ArksModelStoragePvc}
use arks.Controller.Hoare.{Post}
use arks.ArksModel.Kube.{ApiError, not_found}
use arks.Application.Workload.{
  generate_lws, LeaderWorkerSet, application_service, leader_worker_set,
}
use arks.Application.{ArksApplication, text, text_eq, Text, runtime_of}
use arks.Application.Commands.{
  Images, get_runtime_image, bash, generate_leader_command, sglang_args, generate_worker_command,
  sglang_launch, generated,
}
use arks.Application.Order.{Ordered, Returns}
use arks.Prelude.Int.{pos}
use arks.Prelude.Text.{text, ok, text_eq, Text}
use arks.ArksModel.Steps.{generate_model_path, Returned}
use arks.Controller.{returns}
use mathlib.Core.Path.{subst}

abbrev pub sample_application : ArksApplication
sample_application = record {
  name = text "qwen-app";
  namespace = text "team";
  uid = text "u7";
  deletion_timestamp = none;
  finalizers = finalizer ∷ [];
  replicas = pos 2;
  size = pos 0;
  runtime = text "sglang";
  runtime_image = [];
  runtime_image_pull_secrets = [];
  model = text "qwen";
  served_model_name = [];
  tensor_parallel_size = pos 1;
  runtime_common_args = [];
  instance_spec = sample_instance;
  phase = [];
  status_replicas = pos 0;
  ready_replicas = pos 0;
  updated_replicas = pos 0;
  conditions = [];
}

abbrev pub sample_images : Images
sample_images = record { vllm_image = []; sglang_image = []; dynamo_image = [] }

abbrev pub sample_pvc : ArksModelStoragePvc
sample_pvc = record { name = text "models-pvc"; spec = text "10Gi" }

abbrev pub sample_storage : ArksModelStorage
sample_storage = record { pvc = some sample_pvc; sub_path = [] }

abbrev pub loaded_model : ArksModel
loaded_model = record {
  name = text "qwen";
  namespace = text "team";
  uid = text "u1";
  deletion_timestamp = none;
  finalizers = [];
  model = text "Qwen/QwQ-32B";
  source = none;
  storage = some sample_storage;
  image_pull_secrets = [];
  instance_spec = sample_instance;
  phase = text "Ready";
  conditions = [];
}

abbrev pub absent : ApiError
absent = record { kind = not_found; message = text "not found" }

-- An update of the object answers with the status that is stored.
abbrev sample_cluster : Cluster (Option LeaderWorkerSet)
sample_cluster = record {
  get_application = λ namespace name w. inl sample_application;
  update_application = λ app w. (ok (record app { phase = []; conditions = [] }), w);
  update_application_status = λ app w. (none, w);
  get_model = λ namespace name w. inl loaded_model;
  get_lws = λ namespace name w. elim w [ some lws ↦ inl lws | none ↦ inr absent ];
  create_lws = λ lws w. (none, some lws);
  delete_lws = λ namespace name w. (none, none);
  get_service = λ namespace name w. some absent;
  create_service = λ service w. (none, w);
  delete_service = λ namespace name w. (none, w);
  quoted = λ t. t;
  images = sample_images;
}

unstarted : (app : ArksApplication) → Ordered (record app { phase = []; conditions = [] })
unfolding check_condition text_eq
unstarted app = inr (record {
  ready_loaded = λ h. cc;
  loaded_checked = λ h. cc;
  running_loaded = λ h. cc;
  creating_loaded = λ h. cc;
  loading_checked = λ h. cc;
})

reconcile_application-Ordered_example :
    Post
      (λ _ t. Ordered t.0)
      (Returns sample_cluster (pos 0) (λ app w. unstarted app))
      (reconcile_application sample_cluster (pos 0) (sample_application, none))
reconcile_application-Ordered_example =
    reconcile_application-Ordered sample_cluster (pos 0) (λ app w. unstarted app) sample_application
      none (unstarted sample_application)

abbrev sample_path : Text
sample_path = generate_model_path (text "team") sample_storage (text "qwen")

abbrev sample_lws : LeaderWorkerSet
sample_lws =
    leader_worker_set sample_application (text "models-pvc") (text "lmsysorg/sglang:v0.4.5-cu124")
      (bash (
        sglang_args sample_application (sglang_launch ++ text " --host 0.0.0.0 --port 8080")
          sample_path))
      (bash (sglang_args sample_application sglang_launch sample_path))

sample_generated : generate_lws sample_images sample_application loaded_model ≡ generated sample_lws
unfolding generate_lws get_runtime_image generate_leader_command generate_worker_command runtime_of
    text_eq
sample_generated = refl

generate_lws-selects_example :
    (selects (application_service sample_application).selector sample_lws.leader.labels ≡ true)
    × (selects (application_service sample_application).selector sample_lws.worker.labels ≡ false)
generate_lws-selects_example =
    generate_lws-selects sample_images sample_application loaded_model sample_lws sample_generated

-- A cluster whose world also knows whether the service was created.
abbrev service_cluster : Cluster (Option LeaderWorkerSet × Bool)
service_cluster = record {
  get_application = λ namespace name w. inl sample_application;
  update_application = λ app w. (ok app, w);
  update_application_status = λ app w. (none, w);
  get_model = λ namespace name w. inl loaded_model;
  get_lws = λ namespace name w. elim w.0 [ some lws ↦ inl lws | none ↦ inr absent ];
  create_lws = λ lws w. (none, (some lws, w.1));
  delete_lws = λ namespace name w. (none, (none, w.1));
  get_service = λ namespace name w. if w.1 then none else some absent;
  create_service = λ service w. (none, (w.0, true));
  delete_service = λ namespace name w. (none, (w.0, false));
  quoted = λ t. t;
  images = sample_images;
}

service_cluster-KeepsService : KeepsService service_cluster
service_cluster-KeepsService = record {
  created = λ service w e. refl;
  exists = λ service w x e a. refl;
}

loaded_model-HasClaim : HasClaim loaded_model
loaded_model-HasClaim = record {
  storage = sample_storage;
  pvc = sample_pvc;
  storage_eq = refl;
  pvc_eq = refl;
}

advance-Ended_example :
    (r : Returned) × (s : ArksApplication × (Option LeaderWorkerSet × Bool)) × (advance
        service_cluster
        (pos 0)
        (sample_application, (none, false))
      ≡ (returns r, s))
    × Ends service_cluster (pos 0) sample_application r s
unfolding check_condition
advance-Ended_example =
    advance-Ended service_cluster (pos 0) sample_application service_cluster-KeepsService
      (λ namespace name w m e.
        let p : loaded_model ≡ m = cc in subst HasClaim p loaded_model-HasClaim)
      (none, false) refl

abbrev deleted_application : ArksApplication
deleted_application = record sample_application { deletion_timestamp = some (pos 9) }

remove_application-IsRemoved_example :
    IsRemoved sample_cluster
      (pos 9)
      deleted_application
      none
      (remove_application sample_cluster (pos 9) (deleted_application, none))
unfolding remove_application
remove_application-IsRemoved_example =
    remove_application-IsRemoved sample_cluster (pos 9) deleted_application none refl
