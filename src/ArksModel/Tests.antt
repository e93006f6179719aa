-- ===== src/ArksModel/Tests.antt =====
-- Examples for the ArksModel controller: a cluster in which every call succeeds and nothing exists.
use arks.Prelude.{none, inr, ◌∷◌, inl, false, ℕ, [], suc, refl, some, List, ◌≡◌}
use arks.ArksModel.Kube.{Kube, ApiError, not_found}
use arks.ArksModel.{
  ArksModelStoragePvc, has_finalizer, ArksModel, ArksModelCondition, text, storage_created,
  add_finalizer, text_eq, condition_false,
}
use arks.ArksModel.Worker.{Claims, ensure_storage-Claims}
use arks.ArksModel.Reconcile.{reconcile, reconcile_model}
use arks.Prelude.Int.{pos}
use arks.Prelude.Text.{text, ok, text_eq}
use arks.ArksModel.Steps.{ensure_storage, no_error}
use arks.ArksModel.Requeue.{reconcile-requeue}
use arks.Samples.{sample_instance}

abbrev sample_pvc : ArksModelStoragePvc
sample_pvc = record { name = []; spec = text "10Gi" }

abbrev sample_conditions : List ArksModelCondition
sample_conditions =
    record {
      type = storage_created;
      status = condition_false;
      reason = [];
      message = [];
      last_transition_time = pos 0;
    }
    ∷ []

abbrev sample_model : ArksModel
sample_model = record {
  name = text "qwen";
  namespace = text "team";
  uid = text "u1";
  deletion_timestamp = none;
  finalizers = [];
  model = text "Qwen/QwQ-32B";
  source = some (record { huggingface = some (record { token_secret_ref = none }) });
  storage = some (record { pvc = some sample_pvc; sub_path = [] });
  image_pull_secrets = [];
  instance_spec = sample_instance;
  phase = [];
  conditions = sample_conditions;
}

abbrev absent : ApiError
absent = record { kind = not_found; message = text "not found" }

-- The world counts the calls that change the cluster.
abbrev sample_kube : Kube ℕ
sample_kube = record {
  get_model = λ namespace name w. inl sample_model;
  update_model = λ m w. (ok m, suc w);
  update_model_status = λ m w. (none, suc w);
  get_pvc = λ namespace name w. some absent;
  create_pvc = λ claim w. (none, suc w);
  get_pod = λ namespace name w. inr absent;
  create_pod = λ pod w. (none, suc w);
  delete_pod = λ namespace name w. (some absent, w);
  quoted = λ t. t;
  scripts_image = [];
}

ensure_storage-Claims_example :
    Claims sample_kube
      (pos 0)
      sample_pvc
      sample_model
      (ensure_storage sample_kube (pos 0) (some sample_pvc) sample_model 0)
ensure_storage-Claims_example = ensure_storage-Claims sample_kube (pos 0) sample_pvc sample_model 0

reconcile-requeue_example : (no_error.requeue ≡ false) × (no_error.requeue_after ≡ pos 0)
unfolding reconcile reconcile_model add_finalizer has_finalizer text_eq
reconcile-requeue_example =
    reconcile-requeue sample_kube (pos 0) (text "team") (text "qwen") 0 no_error 2 refl refl
