-- ===== src/Endpoint/Backends.antt =====
-- internal/controller/arksendpoint_controller.go: which services an endpoint's route has as backends.
use arks.Prelude.{
  Bool, ◌&&◌, [], ◌++◌, ◌∷◌, ◌||◌, inr, inl, if◌then◌else◌, refl, ◌≡◌, false, List, Bool-cases, sym,
  some, not, ap, true, ◌∙◌,
}
use arks.Endpoint.Routes.{
  backend_refs, is_static, router_service_name, app_route, is_disaggregated_ready,
  application_routes, disaggregated_routes,
}
use arks.Prelude.Text.{Text, text_eq, eq_of_text_eq}
use arks.Endpoint.{
  ArksEndpoint, HttpBackendRef, ArksApplication, ArksDisaggregatedApplication, text_eq,
  names_service, generate_application_service_name, equal_ℤ, pos,
}
use arks.Disaggregated.{ArksDisaggregatedApplication}
use arks.Application.{ArksApplication}
use arks.Application.Workload.{generate_application_service_name}
use arks.Prelude.Int.{equal_ℤ, pos}
use mathlib.Core.Path.{subst}

names_service-append :
    (name : Text) (rs ss : List HttpBackendRef)
    → names_service name (rs ++ ss) ≡ (names_service name rs || names_service name ss)
names_service-append name [] ss = refl
names_service-append name (r ∷ rs) ss = elim (Bool-cases (text_eq r.name name)) [
  | inl e ↦ rw e refl
  | inr e ↦ rw e (names_service-append name rs ss)
]

-- Some application of the list is ready, and `name` is its service.
abbrev pub serves : Text → List ArksApplication → Bool
serves name [] = false
serves name (app ∷ apps) =
    (text_eq (generate_application_service_name app.name) name
      && equal_ℤ app.replicas app.ready_replicas)
    || serves name apps

abbrev pub serves_disaggregated : Text → List ArksDisaggregatedApplication → Bool
serves_disaggregated name [] = false
serves_disaggregated name (app ∷ apps) =
    (text_eq (router_service_name app.name) name && is_disaggregated_ready app)
    || serves_disaggregated name apps

-- A step of either loop, for a name that is not configured.
names_service-step :
    (ep : ArksEndpoint) (service name : Text) (is_ready : Bool) (rest : List HttpBackendRef)
    → is_static ep name ≡ false
    → names_service name (
        if is_static ep service
        then rest
        else if is_ready
        then app_route ep service ∷ rest
        else rest)
      ≡ ((text_eq service name && is_ready) || names_service name rest)
names_service-step ep service name is_ready rest h = elim (Bool-cases (text_eq service name)) [
  | inl e ↦
      rw (e, subst (λ x. is_static ep x ≡ false) (sym (eq_of_text_eq service name e)) h)
        (elim (Bool-cases is_ready) [ inl b ↦ rw (b, e) refl | inr b ↦ rw b refl ])
  | inr e ↦ rw e (elim (Bool-cases (is_static ep service)) [
    | inl f ↦ rw f refl
    | inr f ↦ rw f (elim (Bool-cases is_ready) [ inl b ↦ rw (b, e) refl | inr b ↦ rw b refl ])
  ])
]

if_not {ℓ} : {A : Type ℓ} (b : Bool) (x y : A) → (if not b then x else y) ≡ (if b then y else x)
if_not true x y = refl
if_not false x y = refl

application_routes-serves :
    (ep : ArksEndpoint) (name : Text) (apps : List ArksApplication)
    → is_static ep name ≡ false
    → names_service name (application_routes ep apps) ≡ serves name apps
unfolding application_routes
application_routes-serves ep name [] h = refl
application_routes-serves ep name (app ∷ apps) h =
    let service = generate_application_service_name app.name in
    let is_ready = equal_ℤ app.replicas app.ready_replicas in
    let rest = application_routes ep apps in
    ap (λ l. names_service name (if is_static ep service then rest else l))
      (if_not is_ready rest (app_route ep service ∷ rest))
    ∙ names_service-step ep service name is_ready rest h
    ∙ ap (λ b. (text_eq service name && is_ready) || b) (application_routes-serves ep name apps h)

disaggregated_routes-serves :
    (ep : ArksEndpoint) (name : Text) (apps : List ArksDisaggregatedApplication)
    → is_static ep name ≡ false
    → names_service name (disaggregated_routes ep apps) ≡ serves_disaggregated name apps
unfolding disaggregated_routes
disaggregated_routes-serves ep name [] h = refl
disaggregated_routes-serves ep name (app ∷ apps) h =
    let service = router_service_name app.name in
    let rest = disaggregated_routes ep apps in
    names_service-step ep service name (is_disaggregated_ready app) rest h
    ∙ ap (λ b. (text_eq service name && is_disaggregated_ready app) || b)
        (disaggregated_routes-serves ep name apps h)

-- A service is a backend of the route exactly where it is configured, or is the service of a ready
-- application or the router of a ready disaggregated application that is listed.
pub names_service-backend_refs :
    (ep : ArksEndpoint) (apps : List ArksApplication)
    (disaggregated : List ArksDisaggregatedApplication) (name : Text)
    → names_service name (backend_refs ep apps disaggregated)
      ≡ (is_static ep name || (serves name apps || serves_disaggregated name disaggregated))
unfolding backend_refs
names_service-backend_refs ep apps disaggregated name =
    names_service-append name ep.route_configs
      (application_routes ep apps ++ disaggregated_routes ep disaggregated)
    ∙ elim (Bool-cases (is_static ep name)) [
      | inl e ↦ rw e refl
      | inr e ↦
          ap (λ b. is_static ep name || b)
            (names_service-append name (application_routes ep apps)
                (disaggregated_routes ep disaggregated)
              ∙ ap (λ b. b || names_service name (disaggregated_routes ep disaggregated))
                  (application_routes-serves ep name apps e)
              ∙ ap (λ b. serves name apps || b)
                  (disaggregated_routes-serves ep name disaggregated e))
    ]

-- Every route of the list has the endpoint's weight and port 8080, and no configured name.
abbrev pub Added : ArksEndpoint → List HttpBackendRef → Type 0
Added ep [] = Unit
Added ep (r ∷ rest) =
    ((r.weight ≡ some ep.default_weight)
      × (r.port ≡ some (pos 8080))
      × (is_static ep r.name ≡ false))
    × Added ep rest

Added-append :
    (ep : ArksEndpoint) (rs ss : List HttpBackendRef)
    → Added ep rs
    → Added ep ss
    → Added ep (rs ++ ss)
Added-append ep [] ss h g = g
Added-append ep (r ∷ rs) ss h g = (h.0, Added-append ep rs ss h.1 g)

application_routes-Added :
    (ep : ArksEndpoint) (apps : List ArksApplication) → Added ep (application_routes ep apps)
unfolding application_routes
application_routes-Added ep [] = tt
application_routes-Added ep (app ∷ apps) =
    let rest = application_routes-Added ep apps in
    elim (Bool-cases (is_static ep (generate_application_service_name app.name))) [
      | inl e ↦ rw e rest
      | inr e ↦ rw e (elim (Bool-cases (equal_ℤ app.replicas app.ready_replicas)) [
        | inl f ↦ rw f ((refl, refl, e), rest)
        | inr f ↦ rw f rest
      ])
    ]

disaggregated_routes-Added :
    (ep : ArksEndpoint) (apps : List ArksDisaggregatedApplication)
    → Added ep (disaggregated_routes ep apps)
unfolding disaggregated_routes
disaggregated_routes-Added ep [] = tt
disaggregated_routes-Added ep (app ∷ apps) =
    let rest = disaggregated_routes-Added ep apps in
    elim (Bool-cases (is_static ep (router_service_name app.name))) [
      | inl e ↦ rw e rest
      | inr e ↦ rw e (elim (Bool-cases (is_disaggregated_ready app)) [
        | inl f ↦ rw f ((refl, refl, e), rest)
        | inr f ↦ rw f rest
      ])
    ]

-- The configured backends come first and unchanged; every backend that follows them has the default
-- weight of the endpoint, port 8080 and a name that no configured backend has.
backend_refs-Added :
    (ep : ArksEndpoint) (apps : List ArksApplication)
    (disaggregated : List ArksDisaggregatedApplication)
    → (added : List HttpBackendRef) × ((backend_refs ep apps disaggregated
          ≡ ep.route_configs ++ added)
        × Added ep added)
unfolding backend_refs
backend_refs-Added ep apps disaggregated = (
  application_routes ep apps ++ disaggregated_routes ep disaggregated,
  (
    refl,
    Added-append ep (application_routes ep apps) (disaggregated_routes ep disaggregated)
        (application_routes-Added ep apps) (disaggregated_routes-Added ep disaggregated),
  ),
)
