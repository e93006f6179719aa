-- ===== src/Endpoint.antt =====
-- api/v1/arksendpoint_types.go: `ArksEndpoint`, and internal/controller/arksendpoint_controller.go:
-- the index of applications, and what the watches read of them.
pub mod Routes
pub mod Reconcile
pub mod Watching
pub mod Backends
pub mod Synced
mod Tests
use arks.Prelude.{
  none, ◌∷◌, Bool, [], false, some, same_bool, List, not, if◌then◌else◌, Option, true,
}
use arks.Application.{ArksApplication, served_name}
use arks.Application.Workload.{generate_application_service_name}
use arks.Disaggregated.{ArksDisaggregatedApplication}
use arks.Prelude.Text.{Text, text_eq}
use arks.Prelude.Int.{equal_ℤ, ltb_ℤ, ℤ, pos}
use arks.InstanceSpec.{Labels}

-- `gatewayv1.HTTPBackendRef`; `filters` stands for the fields that are only copied.
pub record HttpBackendRef : Type 0 where
  pub name : Text
  pub port : Option ℤ
  pub weight : Option ℤ
  pub filters : List Text

-- `gatewayv1.HTTPRouteMatch`; `path` stands for the fields that are only copied.
pub record HttpRouteMatch : Type 0 where
  pub path : Text
  pub headers : Labels

-- The object with its metadata, spec and status; nil match configurations are `none`.
pub record ArksEndpoint : Type 0 where
  pub name : Text
  pub namespace : Text
  pub deletion_timestamp : Option ℤ
  pub finalizers : List Text
  pub default_weight : ℤ
  pub gateway_ref : Text
  pub match_configs : Option (List HttpRouteMatch)
  pub route_configs : List HttpBackendRef
  pub routes : List HttpBackendRef

-- A watched object: the kinds that the code tells apart.
pub data Watched : Type 0 where
  application : ArksApplication → Watched
  disaggregated : ArksDisaggregatedApplication → Watched

abbrev pub get_namespace : Watched → Text
get_namespace (application app) = app.namespace
get_namespace (disaggregated app) = app.namespace

abbrev pub get_name : Watched → Text
get_name (application app) = app.name
get_name (disaggregated app) = app.name

-- `ArksAppIndexFunc`
unfoldable pub arks_app_index_func : Watched → List Text
arks_app_index_func (application app) = served_name app.model app.served_model_name ∷ []
arks_app_index_func (disaggregated app) = []

-- `getArksEndpointNameFromApplication` of an object that is not nil.
unfoldable pub get_arks_endpoint_name : Watched → Text
get_arks_endpoint_name (application app) = served_name app.model app.served_model_name
get_arks_endpoint_name (disaggregated app) = []

-- `app.Spec.Replicas` is an `int`, the ready replicas an `int32`.
unfoldable pub is_arks_application_ready : Watched → Bool
is_arks_application_ready (application app) = equal_ℤ app.replicas app.ready_replicas
is_arks_application_ready (disaggregated app) = ltb_ℤ (pos 0) app.router_status.ready_replicas

abbrev pub names_service : Text → List HttpBackendRef → Bool
names_service name [] = false
names_service name (r ∷ rest) = if text_eq r.name name then true else names_service name rest

-- `arksEndpointIncludesAppService`
unfoldable pub includes_app_service : ArksEndpoint → Text → Bool
includes_app_service ep name = names_service (generate_application_service_name name) ep.routes

-- What a watch sees: a creation, a deletion, or an update with the old object and the new one.
pub data Event : Type 0 where
  create_event : Watched → Event
  delete_event : Watched → Event
  update_event : (old new : Watched) → Event

module _ {W : Type 0} (get_endpoint : Text → Text → W → Option ArksEndpoint) (w : W) where
  -- The endpoint that the object names, where there is one; an error in getting it reads as none.
  abbrev pub named_endpoint : Watched → Option ArksEndpoint
  named_endpoint obj =
      let name = get_arks_endpoint_name obj in
      if text_eq name [] then none else get_endpoint (get_namespace obj) name w

  abbrev pub tests : Option ArksEndpoint → (ArksEndpoint → Bool) → Bool
  tests none f = false
  tests (some ep) f = f ep

  -- `filterApp`
  unfoldable pub filter_app : Event → Bool
  unfolding get_arks_endpoint_name is_arks_application_ready includes_app_service
  filter_app (create_event obj) = tests (named_endpoint obj) (λ ep.
      if is_arks_application_ready obj
      then not (includes_app_service ep (get_name obj))
      else includes_app_service ep (get_name obj))
  filter_app (delete_event obj) =
      tests (named_endpoint obj) (λ ep. includes_app_service ep (get_name obj))
  filter_app (update_event old new) =
      tests (named_endpoint new)
        (λ ep. not (same_bool (is_arks_application_ready old) (is_arks_application_ready new)))

-- `enqueueFromApp`: the namespaces and the names of the endpoints to reconcile.
unfoldable pub enqueue_from_app : Watched → List (Text × Text)
unfolding get_arks_endpoint_name
enqueue_from_app obj =
    let name = get_arks_endpoint_name obj in
    if text_eq name [] then [] else (get_namespace obj, name) ∷ []
