-- ===== src/Endpoint/Synced.antt =====
-- internal/controller/arksendpoint_controller.go: what `reconcile` leaves in the cluster.
use arks.Prelude.{none, ◌≡◌, inr, inl, Option-cases, refl, ◌⊎◌, ◌∙◌, List, Bool-cases, ◌≢◌}
use arks.Controller.Hoare.{Total, Total-and_then, Total-returns}
use arks.Endpoint.Reconcile.{
  Cluster, reconcile_endpoint, HttpRoute, unless_failed, put_route, stored_status, route_of,
}
use arks.ArksModel.Steps.{Returned, is_not_found}
use arks.Prelude.Text.{Text, text, Result, ok, err}
use arks.Endpoint.{ArksEndpoint, ArksApplication, ArksDisaggregatedApplication}
use arks.Controller.{call, ◌>>=◌, returns}
use arks.Application.{ArksApplication}
use arks.ArksModel.Kube.{ApiError}
use arks.Disaggregated.{ArksDisaggregatedApplication}

-- What the API server promises: a route that was created is what a later read gets, so is one that was
-- patched by its difference from the stored route, and an update of an endpoint's status changes no route and answers with the status that it stored.
pub record Keeps {W : Type 0} (k : Cluster W) : Type 0 where
  pub get-create :
      (r : HttpRoute) (w : W)
      → (k.create_route r w).0 ≡ none
      → k.get_route r.namespace r.name (k.create_route r w).1 ≡ inl r
  pub get-patch :
      (old r : HttpRoute) (w : W)
      → k.get_route r.namespace r.name w ≡ inl old
      → (k.patch_route old r w).0 ≡ none
      → k.get_route r.namespace r.name (k.patch_route old r w).1 ≡ inl r
  pub get-status :
      (ep : ArksEndpoint) (namespace name : Text) (w : W)
      → k.get_route namespace name (k.update_endpoint_status ep w).1 ≡ k.get_route namespace name w
  pub routes-status :
      (ep stored : ArksEndpoint) (w : W)
      → (k.update_endpoint_status ep w).0 ≡ ok stored
      → stored.routes ≡ ep.routes

module _ {W : Type 0} (k : Cluster W) (keeps : Keeps k) where
  abbrev S : Type 0
  S = ArksEndpoint × W

  -- The route that the cluster has.
  abbrev Stored : HttpRoute → W → Type 0
  Stored r w = k.get_route r.namespace r.name w ≡ inl r

  abbrev pub Synced : HttpRoute → S → Type 0
  Synced r s = Stored r s.1 × ((s.0).routes ≡ r.backend_refs)

  -- A return has an error, or the route and the status are there.
  abbrev Ends : HttpRoute → Returned → S → Type 0
  Ends r returned s = (returned.error ≢ none) ⊎ Synced r s

  abbrev Put : ArksEndpoint → HttpRoute → Unit {0} → S → Type 0
  Put ep r _ s = (s.0 ≡ ep) × Stored r s.1

  create-Stored :
      (ep : ArksEndpoint) (w : W) (r : HttpRoute)
      → Total (Put ep r) (Ends r) (
          (call (k.create_route r) >>= unless_failed k (text "failed to create HTTPRoute: "))
            (ep, w))
  create-Stored ep w r = elim (Option-cases (k.create_route r w).0) [
    | inl e ↦ rw e (refl, keeps.get-create r w e)
    | inr (x, e) ↦ rw e (inl (λ h. cc))
  ]

  put_route-Stored :
      (got : HttpRoute ⊎ ApiError) (ep : ArksEndpoint) (w : W) (r : HttpRoute)
      → k.get_route r.namespace r.name w ≡ got
      → Total (Put ep r) (Ends r) (put_route k got r (ep, w))
  put_route-Stored (inl old) ep w r read = elim (Option-cases (k.patch_route old r w).0) [
    | inl e ↦ rw e (refl, keeps.get-patch old r w read e)
    | inr (x, e) ↦ rw e (inl (λ h. cc))
  ]
  put_route-Stored (inr x) ep w r read = elim (Bool-cases (is_not_found x.kind)) [
    | inl e ↦ rw e (create-Stored ep w r)
    | inr e ↦ rw e (inl (λ h. cc))
  ]

  stored_status-Synced :
      (answer : Result ArksEndpoint) (ep : ArksEndpoint) (w : W) (r : HttpRoute)
      → Stored r w
      → ((stored : ArksEndpoint) → answer ≡ ok stored → stored.routes ≡ r.backend_refs)
      → Total (λ _ _. ⊥) (Ends r) (stored_status k answer (ep, w))
  stored_status-Synced (err message) ep w r h g = inl (λ e. cc)
  stored_status-Synced (ok stored) ep w r h g = inr (h, g stored refl)

  -- Where the applications that are listed for the endpoint's name and namespace are these, and the
  -- API server keeps what it is given, `reconcile` returns; what it returns has an error, or the route
  -- of the endpoint is in the cluster, with the backends of these applications and the matches of the
  -- endpoint, and the endpoint's status has the same backends.
  pub reconcile_endpoint-Synced :
      (ep : ArksEndpoint) (w : W) (apps : List ArksApplication)
      (disaggregated : List ArksDisaggregatedApplication)
      → k.list_applications ep.namespace ep.name w ≡ inl apps
      → k.list_disaggregated ep.namespace ep.name w ≡ inl disaggregated
      → (returned : Returned) × (s : S) × (reconcile_endpoint k (ep, w) ≡ (returns returned, s))
        × ((returned.error ≢ none) ⊎ Synced (route_of ep apps disaggregated) s)
  unfolding reconcile_endpoint
  reconcile_endpoint-Synced ep w apps disaggregated ha hd =
      let r = route_of ep apps disaggregated in
      Total-returns (Ends r) (reconcile_endpoint k (ep, w)) (
        rw (ha, hd)
          (Total-and_then (Put ep r) (λ _ _. ⊥) (Ends r)
            (put_route k (k.get_route ep.namespace ep.name w) r) _ (ep, w)
            (put_route-Stored (k.get_route ep.namespace ep.name w) ep w r refl)
            (λ _ s p.
              let ep' : ArksEndpoint = record (s.0) { routes = r.backend_refs } in
              let answer = k.update_endpoint_status ep' s.1 in
              stored_status-Synced answer.0 ep' answer.1 r
                (keeps.get-status ep' r.namespace r.name s.1 ∙ p.1)
                (λ stored e. keeps.routes-status ep' stored s.1 e))))
