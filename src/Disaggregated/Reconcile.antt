-- ===== src/Disaggregated/Reconcile.antt =====
-- internal/controller/arksdisaggregatedapplication_controller.go: the synchronisation of the
-- components, `remove`, `reconcile` and `Reconcile` of a disaggregated application.
use arks.Prelude.{none, ◌++◌, ◌⊎◌, inr, Option, if◌then◌else◌, [], some, Bool, inl}
use arks.Controller.{
  ◌>>=◌, ◌>>◌, returned, return, pure, change, object, ask, call, unless_not_found,
}
use arks.Disaggregated.Workload.{Deployment, replicas_or_one, router_name, workload_name}
use arks.Disaggregated.{
  ArksDisaggregatedApplication, Role, ℤ, ArksComponentStatus, Text, prefill_role, decode_role, text,
  workload_of, role_name,
}
use arks.Disaggregated.Steps.{ensure_running}
use arks.Disaggregated.Stages.{
  Cluster, Run, with_condition, in_phase, failing_with, ensure_prechecked, find_model,
  ensure_loaded,
}
use arks.Application.Stages.{finalizer}
use arks.Application.Workload.{ReplicaStatus, LeaderWorkerSet, generate_application_service_name}
use arks.Prelude.Int.{ℤ, pos, equal_ℤ, ltb_ℤ}
use arks.Application.{initialize_conditions, ready, phase_failed, phase_pending}
use arks.Prelude.Text.{Result, Text, text_eq, err, text, ok}
use arks.ArksModel.Steps.{Returned, requeued, is_not_found, failing, no_error}
use arks.ArksModel.{
  remove_finalizer, has_finalizer, update_condition, add_finalizer, condition_false,
}
use arks.ArksModel.Kube.{ApiError}

abbrev pub component_status : ReplicaStatus → ArksComponentStatus
component_status s = record {
  replicas = s.replicas;
  ready_replicas = s.ready_replicas;
  updated_replicas = s.updated_replicas;
}

abbrev pub with_workload_status :
    Role → ReplicaStatus → ArksDisaggregatedApplication → ArksDisaggregatedApplication
with_workload_status prefill_role s app = record app { prefill_status = component_status s }
with_workload_status decode_role s app = record app { decode_status = component_status s }

abbrev pub with_router_status :
    ReplicaStatus → ArksDisaggregatedApplication → ArksDisaggregatedApplication
with_router_status s app = record app { router_status = component_status s }

-- The router has one replica where the number is missing or not positive.
abbrev pub router_replicas : Option ℤ → ℤ
router_replicas none = pos 1
router_replicas (some n) = if ltb_ℤ (pos 0) n then n else pos 1

module _ {W : Type 0} (k : Cluster W) (now : ℤ) where
  -- A component that is gone fails the application, and the synchronisation goes on.
  abbrev pub component_gone : Text → Run k now (Unit {0})
  component_gone message = change (λ a.
      with_condition ready condition_false (text "UnderlyingNotExist") message now
        (in_phase phase_failed a))

  -- The server has filled in the replicas. A failed update is only logged.
  abbrev pub scale_lws : ℤ → LeaderWorkerSet → Run k now (Unit {0})
  scale_lws replicas lws =
      if equal_ℤ replicas lws.replicas
      then pure tt
      else (do failure ← call (k.update_lws (record lws { replicas = replicas })); pure tt)

  unfoldable pub sync_workload : Role → Run k now (Unit {0})
  unfolding update_condition
  sync_workload role = do
    app ← object
    got ← ask (k.get_lws app.namespace (workload_name app role))
    elim got [
      | inl lws ↦ (do
        change (with_workload_status role lws.status)
        scale_lws (replicas_or_one (workload_of app role).replicas) lws)
      | inr e ↦
          if is_not_found e.kind
          then component_gone
              (text "The underlying " ++ (role_name role ++ text " LWS doesn't exist"))
          else return (
              failing_with k now
                (text "failed to query the " ++ (role_name role ++ text " underlying LWS status: "))
                e.message)
    ]

  abbrev pub scale_router : ℤ → Deployment → Option ℤ → Run k now (Unit {0})
  scale_router replicas deployment none = pure tt
  scale_router replicas deployment (some n) = if equal_ℤ n replicas then pure tt else (do
    failure ← call (k.update_deployment (record deployment { replicas = some replicas }))
    elim failure [
      | none ↦ pure tt
      | some e ↦ return (failing_with k now (text "failed to update router deployment: ") e.message)
    ])

  unfoldable pub sync_router : Run k now (Unit {0})
  unfolding update_condition
  sync_router = do
    app ← object
    got ← ask (k.get_deployment app.namespace (router_name app.name))
    elim got [
      | inl deployment ↦ (do
        change (with_router_status deployment.status)
        scale_router (router_replicas app.router.replicas) deployment deployment.replicas)
      | inr e ↦
          if is_not_found e.kind
          then component_gone (text "The underlying router deployment doesn't exist")
          else return (
              failing_with k now (text "failed to query the underlying router deployment status: ")
                e.message)
    ]

  unfoldable pub prepared : ArksDisaggregatedApplication → ArksDisaggregatedApplication
  unfolding initialize_conditions
  prepared app = record app {
    phase = if text_eq app.phase [] then phase_pending else app.phase;
    conditions = initialize_conditions app.conditions now;
    runtime = if text_eq app.runtime [] then text "sglang" else app.runtime;
  }

  unfoldable pub advance : Run k now (Unit {0})
  unfolding ensure_prechecked ensure_loaded ensure_running sync_workload sync_router
  advance = do
    ensure_prechecked k now
    m ← find_model k now
    ensure_loaded k now m
    ensure_running k now m
    sync_workload prefill_role
    sync_workload decode_role
    sync_router
    return no_error

  -- A requeue refreshes the resource version.
  abbrev pub after_update : Result ArksDisaggregatedApplication → Run k now (Unit {0})
  after_update (err message) =
      return (failing_with k now (text "failed to add application finalizer: ") message)
  after_update (ok app) = do change (λ _. app); return requeued

  abbrev pub add_the_finalizer : Run k now (Unit {0})
  add_the_finalizer = do
    change (λ app. record app { finalizers = add_finalizer app.finalizers finalizer })
    app ← object
    answer ← call (k.update_application app)
    after_update answer

  abbrev pub start : Bool → Run k now (Unit {0})
  start has = do change prepared; (if has then advance else add_the_finalizer)

  abbrev pub reconcile_from : Option ℤ → ArksDisaggregatedApplication → Run k now (Unit {0})
  reconcile_from (some t) app = return requeued
  reconcile_from none app =
      if text_eq app.phase phase_failed
      then return no_error
      else start (has_finalizer app.finalizers finalizer)

  -- `reconcile`
  unfoldable pub reconcile_application : Run k now (Unit {0})
  unfolding prepared advance has_finalizer add_finalizer
  reconcile_application = do app ← object; reconcile_from app.deletion_timestamp app

  abbrev pub removed_or : Result ArksDisaggregatedApplication → Run k now (Unit {0})
  removed_or (err message) =
      return (failing_with k now (text "failed to remove application finalizer: ") message)
  removed_or (ok app) = do change (λ _. app); return no_error

  -- What `remove` deletes: the service, both LeaderWorkerSets and the deployment, in this order.
  abbrev pub delete_components : Run k now (Unit {0})
  delete_components = do
    app ← object
    let name = generate_application_service_name app.name
    service ← call (k.delete_service app.namespace name)
    unless_not_found service (λ e.
        failing_with k now
          (text "failed to delete application router service (" ++ (name ++ text "): ")) e.message)
    prefill ← call (k.delete_lws app.namespace (workload_name app prefill_role))
    unless_not_found prefill
        (λ e. failing_with k now (text "failed to delete underlying prefill LWS: ") e.message)
    decode ← call (k.delete_lws app.namespace (workload_name app decode_role))
    unless_not_found decode
        (λ e. failing_with k now (text "failed to delete underlying decode LWS: ") e.message)
    deployment ← call (k.delete_deployment app.namespace (router_name app.name))
    unless_not_found deployment
        (λ e. failing_with k now (text "failed to delete underlying router deployment: ") e.message)

  abbrev pub remove_from : Option ℤ → Run k now (Unit {0})
  remove_from none = return requeued
  remove_from (some t) = do
    delete_components
    change (λ a. record a { finalizers = remove_finalizer a.finalizers finalizer })
    app ← object
    answer ← call (k.update_application app)
    removed_or answer

  -- `remove`
  unfoldable pub remove_application : Run k now (Unit {0})
  unfolding remove_finalizer generate_application_service_name
  remove_application = do app ← object; remove_from app.deletion_timestamp

  -- A result without an error is replaced by an empty one.
  abbrev pub after_status : Option ApiError → ArksDisaggregatedApplication → Returned → Returned
  after_status (some e) app r = failing (
      text "failed to update status for application "
      ++ (app.namespace
          ++ (text "/"
              ++ (app.name ++ (text " (" ++ (app.uid ++ (text "): " ++ k.quoted e.message)))))))
  after_status none app r = elim r.error [ some message ↦ r | none ↦ no_error ]

  abbrev pub update_status :
      Option Returned → ArksDisaggregatedApplication → W → Option Returned × W
  update_status none app w = (none, w)
  update_status (some r) app w =
      let (failure, w') = k.update_application_status app w in
      (some (after_status failure app r), w')

  abbrev pub reconcile_found : Option ℤ → ArksDisaggregatedApplication → W → Option Returned × W
  reconcile_found (some t) app w = let (o, s) = remove_application (app, w) in (returned o, s.1)
  reconcile_found none app w =
      let (o, s) = reconcile_application (app, w) in update_status (returned o) s.0 s.1

  abbrev pub with_application : ArksDisaggregatedApplication ⊎ ApiError → W → Option Returned × W
  with_application (inr e) w =
      (some (if is_not_found e.kind then no_error else failing e.message), w)
  with_application (inl app) w = reconcile_found app.deletion_timestamp app w

  -- `Reconcile`: what it returns, or a panic, and the cluster.
  unfoldable pub reconcile : Text → Text → W → Option Returned × W
  unfolding reconcile_application remove_application
  reconcile namespace name w = with_application (k.get_application namespace name w) w
