-- ===== src/Endpoint/Routes.antt =====
-- internal/controller/arksendpoint_controller.go: the backends and the matches of an endpoint's route.
use arks.Prelude.{none, some, List, ◌∷◌, not, [], Bool, if◌then◌else◌, ◌&&◌, ◌++◌}
use arks.Endpoint.{
  HttpBackendRef, Labels, ArksDisaggregatedApplication, ArksEndpoint, Text, names_service,
  HttpRouteMatch, ltb_ℤ, ArksApplication, pos, equal_ℤ,
}
use arks.Application.Workload.{generate_application_service_name}
use arks.Disaggregated.{ArksDisaggregatedApplication}
use arks.Prelude.Text.{Text, text}
use arks.InstanceSpec.{Labels}
use arks.Prelude.Int.{ltb_ℤ, pos, equal_ℤ}
use arks.Application.{ArksApplication}

-- A service is static where a configured route has its name.
abbrev pub is_static : ArksEndpoint → Text → Bool
is_static ep name = names_service name ep.route_configs

abbrev pub app_route : ArksEndpoint → Text → HttpBackendRef
app_route ep name = record {
  name = name;
  port = some (pos 8080);
  weight = some ep.default_weight;
  filters = [];
}

-- The loop over the applications.
unfoldable pub application_routes : ArksEndpoint → List ArksApplication → List HttpBackendRef
unfolding generate_application_service_name
application_routes ep [] = []
application_routes ep (app ∷ apps) =
    let rest = application_routes ep apps in
    let name = generate_application_service_name app.name in
    if is_static ep name
    then rest
    else if not (equal_ℤ app.replicas app.ready_replicas)
    then rest
    else app_route ep name ∷ rest

abbrev pub router_service_name : Text → Text
router_service_name name = name ++ text "-router-svc"

abbrev pub is_disaggregated_ready : ArksDisaggregatedApplication → Bool
is_disaggregated_ready app =
    ltb_ℤ (pos 0) app.router_status.ready_replicas
    && (equal_ℤ app.prefill_status.ready_replicas app.prefill_status.replicas
        && equal_ℤ app.decode_status.ready_replicas app.decode_status.replicas)

-- The loop over the disaggregated applications.
unfoldable pub disaggregated_routes :
    ArksEndpoint → List ArksDisaggregatedApplication → List HttpBackendRef
disaggregated_routes ep [] = []
disaggregated_routes ep (app ∷ apps) =
    let rest = disaggregated_routes ep apps in
    let name = router_service_name app.name in
    if is_static ep name
    then rest
    else if is_disaggregated_ready app
    then app_route ep name ∷ rest
    else rest

unfoldable pub backend_refs :
    ArksEndpoint → List ArksApplication → List ArksDisaggregatedApplication → List HttpBackendRef
unfolding application_routes disaggregated_routes
backend_refs ep apps disaggregated =
    ep.route_configs ++ (application_routes ep apps ++ disaggregated_routes ep disaggregated)

abbrev pub header_match : ArksEndpoint → Labels
header_match ep = (text "namespace", ep.namespace) ∷ (text "model", ep.name) ∷ []

abbrev pub with_headers : Labels → List HttpRouteMatch → List HttpRouteMatch
with_headers headers [] = []
with_headers headers (m ∷ rest) =
    record m { headers = m.headers ++ headers } ∷ with_headers headers rest

unfoldable pub rule_match : ArksEndpoint → List HttpRouteMatch
rule_match ep = elim ep.match_configs [
  | some matches ↦ with_headers (header_match ep) matches
  | none ↦ record { path = []; headers = header_match ep } ∷ []
]
