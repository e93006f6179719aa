-- ===== src/Disaggregated/Tests.antt =====
-- Examples for the ArksDisaggregatedApplication controller: a cluster whose world is one
-- LeaderWorkerSet.
use arks.Prelude.{none, refl, if◌then◌else◌, inl, false, ◌∷◌, inr, true, ◌≡◌, some, [], ◌⊎◌}
use arks.Samples.{sample_instance}
use arks.Application.Tests.{loaded_model, absent, sample_storage, sample_pvc}
use arks.Application.{initialize_conditions}
use arks.Application.Stages.{finalizer}
use arks.ArksModel.{check_condition, update_condition, has_finalizer}
use arks.Disaggregated.Stages.{Cluster, ensure_prechecked, ensure_loaded, check_volumes}
use arks.Disaggregated.Commands.{Images, generate_lws_labels, generate_router_labels}
use arks.Disaggregated.Reconcile.{
  reconcile, reconcile_application, advance, prepared, sync_workload, component_status,
}
use arks.ArksModel.Steps.{no_error}
use arks.Disaggregated.Requeue.{reconcile-Final}
use arks.Application.Workload.{PodTemplate, LeaderWorkerSet, no_replicas}
use arks.Disaggregated.{
  ArksDisaggregatedApplication, ArksDisaggregatedWorkload, ArksComponentStatus, text, workload_of,
  prefill_role, decode_role, Role, Text, ℤ,
}
use arks.Prelude.Text.{text_eq, ok, text, Text}
use arks.Application.Selects.{selects}
use arks.Disaggregated.Scaled.{KeepsLws, Unscaled, status_of, Scaled, sync_workload-Scaled}
use arks.Disaggregated.Workload.{pod_of, generate_router_svc, generate_disaggregated_lws}
use arks.Prelude.Int.{pos, ℤ, ltb_ℤ}
use arks.Application.Commands.{dereferenced, generated}
use arks.Disaggregated.Labelled.{generate_router_svc-selects, generate_disaggregated_lws-replicas}
use arks.Controller.{goes_on}

abbrev sample_workload : ArksDisaggregatedWorkload
sample_workload = record {
  replicas = some (pos 3);
  size = pos 1;
  leader_command_override = [];
  worker_command_override = [];
  runtime_common_args = [];
  instance_spec = sample_instance;
}

abbrev sample_component : ArksComponentStatus
sample_component = record { replicas = pos 0; ready_replicas = pos 0; updated_replicas = pos 0 }

abbrev pub sample_disaggregated : ArksDisaggregatedApplication
sample_disaggregated = record {
  name = text "qwen-pd";
  namespace = text "team";
  uid = text "u9";
  deletion_timestamp = none;
  finalizers = finalizer ∷ [];
  runtime = text "sglang";
  router_image = [];
  runtime_image = [];
  runtime_image_pull_secrets = [];
  model = text "qwen";
  served_model_name = [];
  router = record {
    replicas = none;
    command_override = [];
    port = pos 0;
    metric_port = pos 0;
    router_args = [];
    instance_spec = sample_instance;
  };
  prefill = sample_workload;
  decode = record sample_workload { replicas = none };
  phase = [];
  router_status = sample_component;
  prefill_status = sample_component;
  decode_status = sample_component;
  conditions = [];
}

abbrev sample_images : Images
sample_images = record { sglang_router_image = []; sglang_image = [] }

-- A model that is not loaded yet: the application waits.
abbrev sample_cluster : Cluster LeaderWorkerSet
sample_cluster = record {
  get_application = λ namespace name w. inl sample_disaggregated;
  update_application = λ app w. (ok app, w);
  update_application_status = λ app w. (none, w);
  get_model = λ namespace name w. inl (record loaded_model { phase = text "ModelLoading" });
  get_lws = λ namespace name w. inl w;
  create_lws = λ lws w. (none, lws);
  update_lws = λ lws w. (none, record lws { status = w.status });
  delete_lws = λ namespace name w. (none, w);
  get_deployment = λ namespace name w. inr absent;
  create_deployment = λ deployment w. (none, w);
  update_deployment = λ deployment w. (none, w);
  delete_deployment = λ namespace name w. (none, w);
  get_service = λ namespace name w. some absent;
  create_service = λ service w. (none, w);
  delete_service = λ namespace name w. (none, w);
  get_role_binding = λ namespace name w. none;
  create_role = λ namespace name w. (none, w);
  create_service_account = λ namespace name w. (none, w);
  create_role_binding = λ namespace name w. (none, w);
  quoted = λ t. t;
  images = sample_images;
  order = λ labels. labels;
}

abbrev sample_pod : PodTemplate
sample_pod = pod_of sample_disaggregated sample_instance [] []

abbrev sample_lws : LeaderWorkerSet
sample_lws = record {
  name = text "qwen-pd-prefill";
  namespace = text "team";
  labels = [];
  replicas = pos 1;
  size = pos 1;
  leader = sample_pod;
  worker = sample_pod;
  status = no_replicas;
}

reconcile-Final_example : (no_error.requeue ≡ false) × (no_error.requeue_after ≡ pos 0)
unfolding reconcile reconcile_application text_eq has_finalizer advance ensure_prechecked
    check_condition update_condition ensure_loaded prepared initialize_conditions check_volumes
reconcile-Final_example =
    reconcile-Final sample_cluster (pos 0) (text "team") (text "qwen-pd") sample_lws no_error
      (λ app h. cc) refl refl

generate_router_svc-selects_example :
    (selects
        (generate_router_svc sample_disaggregated).selector
        (generate_router_labels sample_disaggregated)
      ≡ true)
    × ((role : Role) (work_load_role : Text)
        → selects
            (generate_router_svc sample_disaggregated).selector
            (generate_lws_labels sample_disaggregated role work_load_role)
          ≡ false)
generate_router_svc-selects_example = generate_router_svc-selects sample_disaggregated

generate_disaggregated_lws-replicas_example :
    ((workload_of sample_disaggregated decode_role).replicas ≡ none
      → generate_disaggregated_lws sample_images sample_disaggregated loaded_model decode_role
        ≡ dereferenced)
    × ((n : ℤ)
        → (workload_of sample_disaggregated decode_role).replicas ≡ some n
        → (lws : LeaderWorkerSet) × ((generate_disaggregated_lws sample_images sample_disaggregated
                loaded_model decode_role
              ≡ generated lws)
            × (lws.replicas ≡ (if ltb_ℤ n (pos 0) then pos 1 else n))))
unfolding text_eq
generate_disaggregated_lws-replicas_example =
    generate_disaggregated_lws-replicas sample_images sample_disaggregated loaded_model decode_role
      sample_storage sample_pvc refl refl refl

sample_cluster-KeepsLws : KeepsLws sample_cluster
sample_cluster-KeepsLws stored lws w h u = let p : w ≡ stored = cc in rw p refl

sync_workload-Scaled_example :
    (a : Unit {0}) × (s : ArksDisaggregatedApplication × LeaderWorkerSet) × (sync_workload
        sample_cluster
        (pos 0)
        prefill_role
        (sample_disaggregated, sample_lws)
      ≡ (goes_on a, s))
    × (status_of s.0 prefill_role ≡ component_status no_replicas)
    × (Unscaled sample_cluster (pos 0) sample_cluster-KeepsLws sample_lws (pos 3) sample_lws
        ⊎ (Scaled sample_cluster (pos 0) sample_cluster-KeepsLws sample_lws (pos 3) s.1
            × ((sync_workload sample_cluster (pos 0) prefill_role s).1.1 ≡ s.1)))
sync_workload-Scaled_example =
    sync_workload-Scaled sample_cluster (pos 0) sample_cluster-KeepsLws prefill_role
      sample_disaggregated sample_lws sample_lws refl refl refl
