-- ===== src/Endpoint/Reconcile.antt =====
-- internal/controller/arksendpoint_controller.go: `Reconcile`, `handleDelete` and `reconcile` of an
-- ArksEndpoint. Logs are left out. The Kubernetes client is the parameter `Cluster`.
use arks.Prelude.{none, true, ◌⊎◌, if◌then◌else◌, false, Bool, some, List, ◌++◌, inl, Option, inr}
use arks.Endpoint.{
  HttpBackendRef, ℤ, Text, ArksEndpoint, ArksApplication, HttpRouteMatch,
  ArksDisaggregatedApplication,
}
use arks.Endpoint.Routes.{backend_refs, rule_match}
use arks.Controller.{Action, ◌>>=◌, ◌>>◌, change, call, Outcome, pure, object, return, returns, ask}
use arks.Prelude.Int.{ℤ}
use arks.Prelude.Text.{Result, Text, text, ok, err}
use arks.ArksModel.Kube.{ApiError}
use arks.ArksModel.{add_finalizer, remove_finalizer, has_finalizer}
use arks.Application.{ArksApplication}
use arks.ArksModel.Steps.{Returned, is_not_found, no_error, failing, requeued}
use arks.Disaggregated.{ArksDisaggregatedApplication}

-- An HTTPRoute with its one rule and its one parent.
pub record HttpRoute : Type 0 where
  pub name : Text
  pub namespace : Text
  pub gateway_ref : Text
  pub backend_refs : List HttpBackendRef
  pub matches : List HttpRouteMatch

pub record Cluster (W : Type 0) : Type 0 where
  pub get_endpoint : Text → Text → W → ArksEndpoint ⊎ ApiError
  pub update_endpoint : ArksEndpoint → W → Result ArksEndpoint × W
  pub update_endpoint_status : ArksEndpoint → W → Result ArksEndpoint × W
  pub list_applications : Text → Text → W → List ArksApplication ⊎ ApiError
  pub list_disaggregated : Text → Text → W → List ArksDisaggregatedApplication ⊎ ApiError
  pub get_route : Text → Text → W → HttpRoute ⊎ ApiError
  pub create_route : HttpRoute → W → Option ApiError × W
  -- The route as it was read, and what it becomes: the patch is their difference.
  pub patch_route : (old new : HttpRoute) → W → Option ApiError × W
  pub delete_route : HttpRoute → W → Option ApiError × W
  pub quoted : Text → Text

abbrev pub finalizer : Text
finalizer = text "endpoint.arks.ai/controller"

abbrev pub route_of :
    ArksEndpoint → List ArksApplication → List ArksDisaggregatedApplication → HttpRoute
route_of ep apps disaggregated = record {
  name = ep.name;
  namespace = ep.namespace;
  gateway_ref = ep.gateway_ref;
  backend_refs = backend_refs ep apps disaggregated;
  matches = rule_match ep;
}

module _ {W : Type 0} (k : Cluster W) where
  abbrev pub Run : Type 0 → Type 0
  Run A = Action (ArksEndpoint × W) A

  abbrev pub or_return : {A : Type 0} → Text → A ⊎ ApiError → Run A
  or_return what (inl a) = pure a
  or_return what (inr e) = return (failing (what ++ e.message))

  abbrev pub unless_failed : Text → Option ApiError → Run (Unit {0})
  unless_failed what none = pure tt
  unless_failed what (some e) = return (failing (what ++ e.message))

  -- A patch of the route that is read replaces its spec.
  abbrev pub put_route : HttpRoute ⊎ ApiError → HttpRoute → Run (Unit {0})
  put_route (inl old) route = do
    failure ← call (k.patch_route old route)
    unless_failed (text "failed to patch HTTPRoute: ") failure
  put_route (inr e) route =
      if is_not_found e.kind
      then (do
        failure ← call (k.create_route route)
        unless_failed (text "failed to create HTTPRoute: ") failure)
      else return (failing e.message)

  abbrev pub stored_status : Result ArksEndpoint → Run (Unit {0})
  stored_status (ok ep) = do change (λ _. ep); return no_error
  stored_status (err message) =
      return (failing (text "failed to update ArksEndpoint status: " ++ message))

  -- `reconcile`
  unfoldable pub reconcile_endpoint : Run (Unit {0})
  unfolding backend_refs rule_match
  reconcile_endpoint = do
    ep ← object
    listed ← ask (k.list_applications ep.namespace ep.name)
    apps ← or_return (text "failed to list ArksApplication: ") listed
    listed' ← ask (k.list_disaggregated ep.namespace ep.name)
    disaggregated ← or_return (text "failed to list ArksDisaggregatedApplication: ") listed'
    got ← ask (k.get_route ep.namespace ep.name)
    put_route got (route_of ep apps disaggregated)
    change (λ e. record e { routes = backend_refs ep apps disaggregated })
    ep' ← object
    answer ← call (k.update_endpoint_status ep')
    stored_status answer

  abbrev pub delete_found : HttpRoute ⊎ ApiError → ArksEndpoint → Run (Unit {0})
  delete_found (inl route) ep = do
    failure ← call (k.delete_route route)
    unless_failed
        (text "failed to delete HTTPRoute for ArksEndpoint "
          ++ (ep.namespace ++ (text "/" ++ (ep.name ++ text ": "))))
        failure
  delete_found (inr e) ep =
      if is_not_found e.kind
      then pure tt
      else return (
          failing (
            text "failed to get HTTPRoute for ArksEndpoint "
            ++ (ep.namespace ++ (text "/" ++ (ep.name ++ (text ": " ++ e.message))))))

  abbrev pub updated_or : Text → Returned → Result ArksEndpoint → Run (Unit {0})
  updated_or what r (err message) = return (failing (what ++ message))
  updated_or what r (ok ep) = do change (λ _. ep); return r

  unfoldable pub handle_delete : Run (Unit {0})
  unfolding remove_finalizer
  handle_delete = do
    ep ← object
    got ← ask (k.get_route ep.namespace ep.name)
    delete_found got ep
    change (λ e. record e { finalizers = remove_finalizer e.finalizers finalizer })
    ep' ← object
    answer ← call (k.update_endpoint ep')
    updated_or (text "failed to remove arksendpoint finalizer: ") no_error answer

  abbrev pub add_the_finalizer : Run (Unit {0})
  add_the_finalizer = do
    change (λ e. record e { finalizers = add_finalizer e.finalizers finalizer })
    ep ← object
    answer ← call (k.update_endpoint ep)
    elim answer [
      | err message ↦
          return (failing (text "failed to add arksendpoint finalizer: " ++ k.quoted message))
      | ok ep' ↦ (do change (λ _. ep'); return requeued)
    ]

  abbrev pub reconcile_from : Option ℤ → Bool → Run (Unit {0})
  reconcile_from (some t) has = handle_delete
  reconcile_from none true = reconcile_endpoint
  reconcile_from none false = add_the_finalizer

  abbrev pub with_endpoint : ArksEndpoint ⊎ ApiError → W → Outcome (Unit {0}) × W
  with_endpoint (inr e) w =
      (returns (if is_not_found e.kind then no_error else failing e.message), w)
  with_endpoint (inl ep) w =
      let (o, s) =
        reconcile_from ep.deletion_timestamp (has_finalizer ep.finalizers finalizer) (ep, w) in
      (o, s.1)

  -- `Reconcile`: what it returns, and the cluster.
  unfoldable pub reconcile : Text → Text → W → Outcome (Unit {0}) × W
  unfolding reconcile_endpoint handle_delete add_finalizer has_finalizer
  reconcile namespace name w = with_endpoint (k.get_endpoint namespace name w) w
