-- ===== src/Application/Reconcile.antt =====
-- internal/controller/arksapplication_controller.go: `Reconcile`, `remove` and `reconcile` of an
-- ArksApplication, around the stages of Stages.
use arks.Controller.{◌>>=◌, ◌>>◌, object, Outcome, return, call, unless_not_found, returned}
use arks.Prelude.{none, Option, if◌then◌else◌, some, [], ◌++◌, ◌⊎◌, Bool, inr, inl}
use arks.Application.{
  ArksApplication, text_eq, text, initialize_conditions, phase_failed, phase_pending,
  runtime_default,
}
use arks.Prelude.Int.{ℤ}
use arks.Prelude.Text.{Text, text_eq, text, Result, err, ok}
use arks.ArksModel.{has_finalizer, remove_finalizer, add_finalizer}
use arks.Controller.{change}
use arks.ArksModel.Kube.{ApiError}
use arks.ArksModel.Steps.{Returned, no_error, failing, is_not_found, requeued}
use arks.Application.Workload.{generate_application_service_name}
use arks.Application.Stages.{
  Cluster, Run, ensure_loaded, ensure_prechecked, ensure_running, failing_with, finalizer,
  find_model, sync_status,
}

module _ {W : Type 0} (k : Cluster W) (now : ℤ) where
  -- A requeue refreshes the resource version.
  abbrev pub after_update : Result ArksApplication → Run k now (Unit {0})
  after_update (err message) =
      return (failing_with k now (text "failed to add application finalizer: ") message)
  after_update (ok app) = do change (λ _. app); return requeued

  abbrev pub add_the_finalizer : Run k now (Unit {0})
  add_the_finalizer = do
    change (λ app. record app { finalizers = add_finalizer app.finalizers finalizer })
    app ← object
    answer ← call (k.update_application app)
    after_update answer

  -- The phase, the conditions and the runtime that an application starts with.
  unfoldable pub prepared : ArksApplication → ArksApplication
  unfolding initialize_conditions
  prepared app = record app {
    phase = if text_eq app.phase [] then phase_pending else app.phase;
    conditions = initialize_conditions app.conditions now;
    runtime = if text_eq app.runtime [] then runtime_default else app.runtime;
  }

  -- What follows once the finalizer is there.
  unfoldable pub advance : Run k now (Unit {0})
  unfolding ensure_prechecked ensure_loaded ensure_running sync_status
  advance = do
    ensure_prechecked k now
    m ← find_model k now
    ensure_loaded k now m
    ensure_running k now m
    sync_status k now
    return no_error

  abbrev pub start : Bool → Run k now (Unit {0})
  start has = do change prepared; (if has then advance else add_the_finalizer)

  abbrev pub reconcile_from : Option ℤ → ArksApplication → Run k now (Unit {0})
  reconcile_from (some t) app = return requeued
  reconcile_from none app =
      if text_eq app.phase phase_failed
      then return no_error
      else start (has_finalizer app.finalizers finalizer)

  -- `reconcile`
  unfoldable pub reconcile_application : Run k now (Unit {0})
  unfolding prepared advance has_finalizer add_finalizer
  reconcile_application = do app ← object; reconcile_from app.deletion_timestamp app

  abbrev pub delete_service : ArksApplication → Run k now (Unit {0})
  delete_service app = do
    let name = generate_application_service_name app.name
    gone ← call (k.delete_service app.namespace name)
    unless_not_found gone (λ e. failing (
        text "failed to delete application service ("
        ++ (name ++ (text "): " ++ k.quoted e.message))))

  abbrev pub delete_lws : ArksApplication → Run k now (Unit {0})
  delete_lws app = do
    gone ← call (k.delete_lws app.namespace app.name)
    unless_not_found gone
        (λ e. failing_with k now (text "failed to delete underlying LWS: ") e.message)

  abbrev pub after_release : Result ArksApplication → Run k now (Unit {0})
  after_release (err message) =
      return (failing_with k now (text "failed to remove application finalizer: ") message)
  after_release (ok app) = return no_error

  abbrev pub release : Run k now (Unit {0})
  release = do
    change (λ app. record app { finalizers = remove_finalizer app.finalizers finalizer })
    app ← object
    answer ← call (k.update_application app)
    after_release answer

  abbrev pub remove_from : Option ℤ → ArksApplication → Run k now (Unit {0})
  remove_from none app = return requeued
  remove_from (some t) app = do delete_service app; delete_lws app; release

  -- `remove`
  unfoldable pub remove_application : Run k now (Unit {0})
  unfolding remove_finalizer generate_application_service_name
  remove_application = do app ← object; remove_from app.deletion_timestamp app

  abbrev pub after_status : Option ApiError → ArksApplication → Returned → Returned
  after_status none app r = r
  after_status (some e) app r = failing (
      text "failed to update status for application "
      ++ (app.namespace
          ++ (text "/"
              ++ (app.name ++ (text " (" ++ (app.uid ++ (text "): " ++ k.quoted e.message)))))))

  abbrev pub update_status : Outcome (Unit {0}) × (ArksApplication × W) → Option Returned × W
  update_status (o, (app, w)) = elim (returned o) [
    | none ↦ (none, w)
    | some r ↦
        let (failure, w') = k.update_application_status app w in
        (some (after_status failure app r), w')
  ]

  abbrev pub with_application : ArksApplication ⊎ ApiError → W → Option Returned × W
  with_application (inr e) w =
      (some (if is_not_found e.kind then no_error else failing e.message), w)
  with_application (inl app) w = elim app.deletion_timestamp [
    | some t ↦ let (o, s) = remove_application (app, w) in (returned o, s.1)
    | none ↦ update_status (reconcile_application (app, w))
  ]

  -- `Reconcile`: what it returns, or a panic, and the cluster.
  unfoldable pub reconcile : Text → Text → W → Option Returned × W
  unfolding reconcile_application remove_application
  reconcile namespace name w = with_application (k.get_application namespace name w) w
