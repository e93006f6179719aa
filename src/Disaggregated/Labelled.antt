-- ===== src/Disaggregated/Labelled.antt =====
-- internal/controller/arksdisaggregatedapplication_controller.go: which pods the router's service
-- selects, and when a LeaderWorkerSet is generated.
use arks.Prelude.{
  none, ◌≡◌, [], inr, true, false, ◌∙◌, refl, some, if◌then◌else◌, inl, Bool-cases, Option, ap,
  ◌++◌,
}
use arks.Application.Selects.{selects, lookup-insert}
use arks.Disaggregated.{
  ArksDisaggregatedApplication, Text, ArksInstanceSpec, text, Role, role_name,
  key_disaggregation_role, workload_of, ℤ, prefill_role, decode_role,
}
use arks.Disaggregated.Commands.{
  generate_leader_command, generate_worker_command, get_runtime_image, Images,
  generate_router_labels, generate_lws_labels, generate_workload_labels, named_labels, command_of,
  serving_args, default_image,
}
use arks.Disaggregated.Workload.{generate_router_svc, generate_disaggregated_lws, disaggregated_lws}
use arks.ArksModel.{ArksModel, ArksModelStorage, ArksModelStoragePvc}
use arks.Prelude.Text.{Text, text_eq, text, text_eq_refl, ok}
use arks.InstanceSpec.{Labels, ArksInstanceSpec}
use arks.RateLimiter.{lookup, insert}
use arks.Application.{key_model, key_application, key_work_load_role}
use arks.Application.Workload.{copy_labels, LeaderWorkerSet, model_path, claim_of}
use arks.Application.Commands.{dereferenced, generated, or_default, sglang_launch}
use arks.Prelude.Int.{ℤ, ltb_ℤ, pos}
use arks.ArksModel.Steps.{generate_model_path}

-- Setting a label leaves the labels with other keys.
lookup-other :
    (k v i : Text) (m : Labels) → text_eq k i ≡ false → lookup i (insert k v m) ≡ lookup i m
lookup-other k v i m e = lookup-insert k v m i ∙ rw e refl

lookup-same : (k v : Text) (m : Labels) → lookup k (insert k v m) ≡ some v
lookup-same k v m = lookup-insert k v m k ∙ rw (text_eq_refl k) refl

-- The labels of the application, its model and its role, under the ones that are set after them.
selects-named :
    (app : ArksDisaggregatedApplication) (role : Text) (labels : Labels)
    → lookup key_application labels ≡ some app.name
    → lookup key_model labels ≡ some app.model
    → lookup key_disaggregation_role labels ≡ some role
    → selects (generate_router_svc app).selector labels ≡ text_eq role (text "router")
unfolding generate_router_svc
selects-named app role labels a m r =
    rw (selects, a, m, r, text_eq_refl app.name, text_eq_refl app.model)
      (elim (Bool-cases (text_eq role (text "router"))) [ inl e ↦ rw e refl | inr e ↦ rw e refl ])

module _ (app : ArksDisaggregatedApplication) (labels : Labels) where
  application_label : lookup key_application (named_labels app labels) ≡ some app.name
  unfolding text_eq
  application_label =
      lookup-other key_model app.model key_application (insert key_application app.name labels) refl
      ∙ lookup-same key_application app.name labels

  model_label : lookup key_model (named_labels app labels) ≡ some app.model
  model_label = lookup-same key_model app.model (insert key_application app.name labels)

  role_label :
      lookup key_disaggregation_role (named_labels app labels)
      ≡ lookup key_disaggregation_role labels
  unfolding text_eq
  role_label =
      lookup-other key_model app.model key_disaggregation_role
        (insert key_application app.name labels) refl
      ∙ lookup-other key_application app.name key_disaggregation_role labels refl

workload_role :
    (spec : ArksInstanceSpec) (role : Text)
    → lookup key_disaggregation_role (generate_workload_labels spec role) ≡ some role
unfolding generate_workload_labels
workload_role spec role = lookup-same key_disaggregation_role role (copy_labels [] spec.labels)

router-selected :
    (app : ArksDisaggregatedApplication)
    → selects (generate_router_svc app).selector (generate_router_labels app) ≡ true
unfolding generate_router_labels text_eq
router-selected app =
    let labels = generate_workload_labels app.router.instance_spec (text "router") in
    selects-named app (text "router") (named_labels app labels) (application_label app labels)
      (model_label app labels)
      (role_label app labels ∙ workload_role app.router.instance_spec (text "router"))

lws-unselected :
    (app : ArksDisaggregatedApplication) (role : Role) (work_load_role : Text)
    → selects (generate_router_svc app).selector (generate_lws_labels app role work_load_role)
      ≡ text_eq (role_name role) (text "router")
unfolding generate_lws_labels text_eq
lws-unselected app role work_load_role =
    let spec = (workload_of app role).instance_spec in
    let labels = generate_workload_labels spec (role_name role) in
    let named = named_labels app labels in
    let under = λ (k : Text) (e : text_eq key_work_load_role k ≡ false).
      lookup-other key_work_load_role work_load_role k named e in
    selects-named app (role_name role) (insert key_work_load_role work_load_role named)
      (under key_application refl ∙ application_label app labels)
      (under key_model refl ∙ model_label app labels)
      (under key_disaggregation_role refl
        ∙ role_label app labels
        ∙ workload_role spec (role_name role))

not_router : (role : Role) → text_eq (role_name role) (text "router") ≡ false
unfolding text_eq
not_router prefill_role = refl
not_router decode_role = refl

-- Whatever labels the user gives the pods, the service of a disaggregated application selects the
-- pods of its router and no leader or worker of the prefill or the decode workload.
pub generate_router_svc-selects :
    (app : ArksDisaggregatedApplication)
    → (selects (generate_router_svc app).selector (generate_router_labels app) ≡ true)
      × ((role : Role) (work_load_role : Text)
          → selects (generate_router_svc app).selector (generate_lws_labels app role work_load_role)
            ≡ false)
generate_router_svc-selects app = (
  router-selected app,
  λ role work_load_role. lws-unselected app role work_load_role ∙ not_router role,
)

runtime_image_ok :
    (env : Images) (app : ArksDisaggregatedApplication)
    → text_eq app.runtime (text "sglang") ≡ true
    → (image : Text) × (get_runtime_image env app ≡ ok image)
unfolding get_runtime_image
runtime_image_ok env app s = elim (Bool-cases (text_eq app.runtime_image [])) [
  | inl e ↦ (or_default env.sglang_image default_image, rw (e, s) refl)
  | inr e ↦ (app.runtime_image, rw e refl)
]

command_ok :
    (app : ArksDisaggregatedApplication) (role : Role) (launch : Text) (path : Option Text)
    (p : Text)
    → text_eq app.runtime (text "sglang") ≡ true
    → path ≡ some p
    → command_of app role launch path ≡ generated (serving_args app role launch p)
command_ok app role launch path p s e = rw (s, e) refl

model_path_ok :
    (m : ArksModel) (storage : ArksModelStorage)
    → m.storage ≡ some storage
    → model_path m ≡ some (generate_model_path m.namespace storage m.name)
model_path_ok m storage h =
    ap (λ o. elim o [ none ↦ none | some s ↦ some (generate_model_path m.namespace s m.name) ]) h

claim_ok :
    (m : ArksModel) (storage : ArksModelStorage) (pvc : ArksModelStoragePvc)
    → m.storage ≡ some storage
    → storage.pvc ≡ some pvc
    → claim_of m.storage ≡ some pvc.name
claim_ok m storage pvc h p =
    ap claim_of h ∙ ap (λ o. elim o [ none ↦ none | some pvc ↦ some pvc.name ]) p

-- Where the runtime is sglang and the model has a storage with a claim, a workload with no number of
-- replicas dereferences a nil pointer, and one with a number gets a LeaderWorkerSet with that number,
-- 1 where it is negative.
pub generate_disaggregated_lws-replicas :
    (env : Images) (app : ArksDisaggregatedApplication) (m : ArksModel) (role : Role)
    (storage : ArksModelStorage) (pvc : ArksModelStoragePvc)
    → text_eq app.runtime (text "sglang") ≡ true
    → m.storage ≡ some storage
    → storage.pvc ≡ some pvc
    → ((workload_of app role).replicas ≡ none
        → generate_disaggregated_lws env app m role ≡ dereferenced)
      × ((n : ℤ)
          → (workload_of app role).replicas ≡ some n
          → (lws : LeaderWorkerSet) × ((generate_disaggregated_lws env app m role ≡ generated lws)
              × (lws.replicas ≡ (if ltb_ℤ n (pos 0) then pos 1 else n))))
unfolding generate_disaggregated_lws generate_leader_command generate_worker_command
generate_disaggregated_lws-replicas env app m role storage pvc s h p =
    let image = runtime_image_ok env app s in
    let path = model_path_ok m storage h in
    let the_claim = claim_ok m storage pvc h p in
    let p = generate_model_path m.namespace storage m.name in
    let leader_launch =
      sglang_launch ++ text " --host 0.0.0.0 --port 8080 --disaggregation-mode prefill" in
    let leader = command_ok app role leader_launch (model_path m) p s path in
    let worker = command_ok app role sglang_launch (model_path m) p s path in
    (
      λ r. rw (image.1, leader, worker, r) refl,
      λ n r. (
        disaggregated_lws app role pvc.name image.0 (serving_args app role leader_launch p)
            (serving_args app role sglang_launch p) (if ltb_ℤ n (pos 0) then pos 1 else n),
        (rw (image.1, leader, worker, r, the_claim) refl, refl),
      ),
    )
