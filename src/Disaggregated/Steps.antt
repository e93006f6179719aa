-- ===== src/Disaggregated/Steps.antt =====
-- internal/controller/arksdisaggregatedapplication_controller.go: the creation of the components of a
-- disaggregated application.
use arks.Prelude.{none, some, ◌++◌, if◌then◌else◌, [], inl, inr}
use arks.Controller.{◌>>=◌, ◌>>◌, object, ask, pure, change, panic, call, return, unless_exists}
use arks.Disaggregated.Workload.{
  Deployment, generate_disaggregated_lws, generate_router_deployment, generate_router_svc,
  router_name, workload_name,
}
use arks.Disaggregated.{
  ArksDisaggregatedApplication, Role, ℤ, Text, text, prefill_role, decode_role, role_name,
}
use arks.Prelude.Int.{ℤ, pos}
use arks.Prelude.Text.{Text, Result, text_eq, text, err, ok}
use arks.ArksModel.{check_condition, update_condition, ArksModel, condition_true, condition_false}
use arks.ArksModel.Steps.{is_not_found}
use arks.ArksModel.Kube.{ApiError}
use arks.Application.{precheck, ready, phase_creating, phase_running}
use arks.Application.Workload.{at_least, generate_application_service_name, LeaderWorkerSet}
use arks.Application.Commands.{Generated, generated, refused, dereferenced}
use arks.Disaggregated.Stages.{
  Cluster, Run, fail_with, failing_with, in_phase, sglang_router, unless_condition, with_condition,
  with_replicas_checked,
}

module _ {W : Type 0} (k : Cluster W) (now : ℤ) where
  -- What a failed creation of a component leaves.
  abbrev pub create_failed : (component : Text) → ApiError → Run k now (Unit {0})
  create_failed component e = do
    change (
        with_condition ready condition_false (text "UnderlayCreatedFailed")
          (text "Failed to create " ++ (component ++ (text " underlay: " ++ k.quoted e.message)))
          now)
    return (
        failing_with k now (text "failed to create " ++ (component ++ (text " underlying LWS: ")))
          e.message)

  abbrev pub generate_failed : {A : Type 0} → (component what message : Text) → Run k now A
  generate_failed component what message =
      fail_with k now precheck (text "UnderlayGenerateFailed")
        (text "Failed to generate " ++ (component ++ (text " underlay: " ++ k.quoted message)))
        (failing_with k now (text "failed to generate " ++ (component ++ what)) message)

  abbrev pub create_generated : Role → Generated LeaderWorkerSet → Run k now (Unit {0})
  create_generated role dereferenced = panic
  create_generated role (refused message) =
      generate_failed (role_name role) (text " underlying LWS: ") message
  create_generated role (generated lws) = do
    change (with_replicas_checked role)
    failure ← call (k.create_lws lws)
    unless_exists failure (create_failed (role_name role))

  unfoldable pub ensure_lws : ArksModel → Role → Run k now (Unit {0})
  unfolding generate_disaggregated_lws update_condition
  ensure_lws m role = do
    app ← object
    got ← ask (k.get_lws app.namespace (workload_name app role))
    elim got [
      | inl lws ↦ pure tt
      | inr e ↦
          if is_not_found e.kind
          then create_generated role (generate_disaggregated_lws k.images app m role)
          else return (
              failing_with k now
                (text "failed to check the " ++ (role_name role ++ text " underlying LWS: "))
                e.message)
    ]

  -- An error of `applyRouterRBAC`, as `generateRouterDeployment` passes it on.
  abbrev pub rbac_failed : {A : Type 0} → Text → ApiError → Run k now A
  rbac_failed what e =
      generate_failed (text "router") (text " underlying deployment: ")
        (text "failed to apply sglang router rbac: " ++ k.quoted (what ++ k.quoted e.message))

  unfoldable pub apply_router_rbac : Run k now (Unit {0})
  unfolding update_condition
  apply_router_rbac = do
    app ← object
    got ← ask (k.get_role_binding app.namespace sglang_router)
    elim got [
      | none ↦ pure tt
      | some e ↦
          if is_not_found e.kind
          then (do
            role ← call (k.create_role app.namespace sglang_router)
            unless_exists role (rbac_failed (text "failed to create sglang router role: "))
            account ← call (k.create_service_account app.namespace sglang_router)
            unless_exists account
                (rbac_failed (text "failed to create sglang router service account: "))
            binding ← call (k.create_role_binding app.namespace sglang_router)
            unless_exists binding
                (rbac_failed (text "failed to create sglang router role binding: ")))
          else rbac_failed (text "failed to check sglang router role binding: ") e
    ]

  -- The account of the router's pods.
  abbrev pub router_account : Run k now Text
  router_account = do
    app ← object
    let account = app.router.instance_spec.pod.service_account_name
    (if text_eq account [] then apply_router_rbac >> pure sglang_router else pure account)

  abbrev pub create_router : Result Deployment → Run k now (Unit {0})
  create_router (err message) =
      generate_failed (text "router") (text " underlying deployment: ") message
  create_router (ok deployment) = do
    failure ← call (k.create_deployment (record deployment { name = router_name deployment.name }))
    unless_exists failure (create_failed (text "router"))

  unfoldable pub ensure_router : Run k now (Unit {0})
  unfolding apply_router_rbac generate_router_deployment update_condition
  ensure_router = do
    app ← object
    got ← ask (k.get_deployment app.namespace (router_name app.name))
    elim got [
      | inl deployment ↦ pure tt
      | inr e ↦
          if is_not_found e.kind
          then (do
            account ← router_account
            create_router (generate_router_deployment k.order k.images app account))
          else return
              (failing_with k now (text "failed to check the router underlying LWS: ") e.message)
    ]

  -- An error other than a missing service passes unseen.
  unfoldable pub ensure_service : Run k now (Unit {0})
  unfolding generate_application_service_name generate_router_svc
  ensure_service = do
    app ← object
    let name = generate_application_service_name app.name
    got ← ask (k.get_service app.namespace name)
    elim got [
      | none ↦ pure tt
      | some e ↦
          if is_not_found e.kind
          then (do
            failure ← call (k.create_service (record (generate_router_svc app) { name = name }))
            unless_exists failure (λ x. return (
                failing_with k now (text "failed to create application router service: ")
                  x.message)))
          else pure tt
    ]

  abbrev pub with_prefill_size : ArksDisaggregatedApplication → ArksDisaggregatedApplication
  with_prefill_size app = record app {
    prefill = record app.prefill { size = at_least (pos 1) app.prefill.size };
  }

  unfoldable pub ensure_running : ArksModel → Run k now (Unit {0})
  unfolding ensure_lws ensure_router ensure_service check_condition update_condition
  ensure_running m = unless_condition k now ready (do
    change (in_phase phase_creating)
    change with_prefill_size
    ensure_lws m prefill_role
    ensure_lws m decode_role
    ensure_router
    ensure_service
    change (λ a.
        with_condition ready condition_true (text "Running") (text "The LLM service is running") now
          (in_phase phase_running a)))
