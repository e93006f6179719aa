-- ===== src/Endpoint/Tests.antt =====
-- Examples for the ArksEndpoint controller: a cluster whose world is the route that it stores.
use arks.Prelude.{none, [], inl, ◌≡◌, Option, inr, ◌||◌, ap, some, ◌∷◌, refl, List, sym, ◌≢◌, ◌⊎◌}
use arks.Application.Tests.{sample_application, absent}
use arks.Disaggregated.Tests.{sample_disaggregated}
use arks.Endpoint.Reconcile.{Cluster, finalizer, HttpRoute, route_of, reconcile_endpoint}
use arks.Endpoint.Backends.{names_service-backend_refs, serves, serves_disaggregated}
use arks.Endpoint.Watching.{filter_app-update_event}
use arks.Endpoint.Synced.{reconcile_endpoint-Synced, Keeps, Synced}
use arks.Endpoint.{
  HttpBackendRef, ArksEndpoint, filter_app, names_service, text_eq, pos, is_arks_application_ready,
  get_arks_endpoint_name,
}
use arks.Application.{ArksApplication}
use arks.Prelude.Text.{Text, text, ok, text_eq, Result, err}
use arks.Endpoint.Routes.{backend_refs, is_static}
use arks.Prelude.Int.{pos}
use arks.Controller.{returns}
use arks.ArksModel.Steps.{Returned}

abbrev static_ref : HttpBackendRef
static_ref = record { name = text "external"; port = none; weight = none; filters = [] }

abbrev sample_endpoint : ArksEndpoint
sample_endpoint = record {
  name = text "qwen";
  namespace = text "team";
  deletion_timestamp = none;
  finalizers = finalizer ∷ [];
  default_weight = pos 5;
  gateway_ref = text "arks-gateway";
  match_configs = none;
  route_configs = static_ref ∷ [];
  routes = [];
}

abbrev ready_application : ArksApplication
ready_application = record sample_application { ready_replicas = pos 2 }

abbrev sample_cluster : Cluster (Option HttpRoute)
sample_cluster = record {
  get_endpoint = λ namespace name w. inl sample_endpoint;
  update_endpoint = λ ep w. (ok ep, w);
  update_endpoint_status = λ ep w. (ok ep, w);
  list_applications = λ namespace name w. inl (ready_application ∷ []);
  list_disaggregated = λ namespace name w. inl [];
  get_route = λ namespace name w. elim w [ some route ↦ inl route | none ↦ inr absent ];
  create_route = λ route w. (none, some route);
  patch_route = λ old new w. (none, some new);
  delete_route = λ route w. (none, none);
  quoted = λ t. t;
}

abbrev answered_routes : Result ArksEndpoint → List HttpBackendRef
answered_routes (ok ep) = ep.routes
answered_routes (err message) = []

sample_cluster-Keeps : Keeps sample_cluster
sample_cluster-Keeps = record {
  get-create = λ r w h. refl;
  get-patch = λ old r w read h. refl;
  get-status = λ ep namespace name w. refl;
  routes-status = λ ep stored w h. ap answered_routes (sym h);
}

names_service-backend_refs_example :
    names_service
      (text "arks-application-qwen-app")
      (backend_refs sample_endpoint (ready_application ∷ []) (sample_disaggregated ∷ []))
    ≡ (is_static sample_endpoint (text "arks-application-qwen-app")
        || (serves (text "arks-application-qwen-app") (ready_application ∷ [])
            || serves_disaggregated (text "arks-application-qwen-app") (sample_disaggregated ∷ [])))
names_service-backend_refs_example =
    names_service-backend_refs sample_endpoint (ready_application ∷ []) (sample_disaggregated ∷ [])
      (text "arks-application-qwen-app")

abbrev sample_get : Text → Text → Unit {0} → Option ArksEndpoint
sample_get namespace name w = some sample_endpoint

filter_app-update_event_example :
    backend_refs sample_endpoint (sample_application ∷ []) []
    ≡ backend_refs sample_endpoint (record sample_application { uid = text "u8" } ∷ []) []
unfolding filter_app text_eq is_arks_application_ready get_arks_endpoint_name
filter_app-update_event_example =
    filter_app-update_event sample_get tt sample_endpoint sample_application
      (record sample_application { uid = text "u8" }) [] [] [] refl refl refl

reconcile_endpoint-Synced_example :
    (returned : Returned) × (s : ArksEndpoint × Option HttpRoute) × (reconcile_endpoint
        sample_cluster
        (sample_endpoint, none)
      ≡ (returns returned, s))
    × ((returned.error ≢ none)
        ⊎ Synced sample_cluster sample_cluster-Keeps
            (route_of sample_endpoint (ready_application ∷ []) [])
            s)
reconcile_endpoint-Synced_example =
    reconcile_endpoint-Synced sample_cluster sample_cluster-Keeps sample_endpoint none
      (ready_application ∷ []) [] refl refl
