-- ===== src/Endpoint/Watching.antt =====
-- internal/controller/arksendpoint_controller.go: which events of applications reach an endpoint.
use arks.Prelude.{
  ◌∷◌, refl, ap, true, Bool, same_bool, List, not, ◌≡◌, [], ◌++◌, Option, some, false,
}
use arks.Endpoint.{
  filter_app, Text, ArksEndpoint, ArksApplication, is_arks_application_ready,
  ArksDisaggregatedApplication, equal_ℤ, named_endpoint, application, update_event,
}
use arks.Endpoint.Routes.{backend_refs, application_routes, disaggregated_routes}
use arks.Prelude.Text.{Text}
use arks.Application.{ArksApplication}
use arks.Prelude.Int.{equal_ℤ}
use arks.Disaggregated.{ArksDisaggregatedApplication}

-- An update in which two applications count the same for a route.
application_routes-replace :
    (ep : ArksEndpoint) (before : List ArksApplication) (old new : ArksApplication)
    (after : List ArksApplication)
    → old.name ≡ new.name
    → equal_ℤ old.replicas old.ready_replicas ≡ equal_ℤ new.replicas new.ready_replicas
    → application_routes ep (before ++ (old ∷ after))
      ≡ application_routes ep (before ++ (new ∷ after))
unfolding application_routes
application_routes-replace ep [] old new after h e = rw (h, e) refl
application_routes-replace ep (app ∷ before) old new after h e =
    rw (application_routes-replace ep before old new after h e) refl

same_bool_eq : (a b : Bool) → not (same_bool a b) ≡ false → a ≡ b
same_bool_eq true true h = refl
same_bool_eq true false h = cc
same_bool_eq false true h = cc
same_bool_eq false false h = refl

module _ {W : Type 0} (get_endpoint : Text → Text → W → Option ArksEndpoint) (w : W) where
  -- An update of an application that the watch drops leaves the backends of the endpoint that the
  -- application names as they were, where the endpoint exists, the application keeps its name and
  -- is listed for the endpoint before and after.
  pub filter_app-update_event :
      (ep : ArksEndpoint) (old new : ArksApplication) (before after : List ArksApplication)
      (others : List ArksDisaggregatedApplication)
      → named_endpoint get_endpoint w (application new) ≡ some ep
      → old.name ≡ new.name
      → filter_app get_endpoint w (update_event (application old) (application new)) ≡ false
      → backend_refs ep (before ++ (old ∷ after)) others
        ≡ backend_refs ep (before ++ (new ∷ after)) others
  unfolding filter_app backend_refs is_arks_application_ready
  filter_app-update_event ep old new before after others g h f =
      ap (λ l. ep.route_configs ++ (l ++ disaggregated_routes ep others))
        (application_routes-replace ep before old new after h (same_bool_eq _ _ (rw g at f)))
