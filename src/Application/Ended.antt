-- ===== src/Application/Ended.antt =====
-- internal/controller/arksapplication_controller.go: how one pass of the stages ends.
use arks.Prelude.{none, inr, ◌≢◌, ◌≡◌, true, ◌⊎◌, some, inl, false}
use arks.Application.Stages.{Cluster, later, has_condition}
use arks.Application.Order.{Holds, InPhase}
use arks.ArksModel.Steps.{Returned, is_not_found, is_already_exists, no_error}
use arks.Prelude.Int.{ℤ}
use arks.Application.Workload.{Service, generate_application_service_name, LeaderWorkerSet}
use arks.Application.{ArksApplication, text_eq, phase_failed, ready, phase_running, text}
use arks.ArksModel.Kube.{ApiError}
use arks.ArksModel.{ArksModel}
use arks.Prelude.Text.{text_eq, text}

-- What the API server promises: a service that was created, or that exists already, is there.
pub record KeepsService {W : Type 0} (k : Cluster W) : Type 0 where
  pub created :
      (service : Service) (w : W)
      → (k.create_service service w).0 ≡ none
      → k.get_service service.namespace service.name (k.create_service service w).1 ≡ none
  pub exists :
      (service : Service) (w : W) (e : ApiError)
      → (k.create_service service w).0 ≡ some e
      → is_already_exists e.kind ≡ true
      → k.get_service service.namespace service.name (k.create_service service w).1 ≡ none

module _ {W : Type 0} (k : Cluster W) (now : ℤ) where
  abbrev S : Type 0
  S = ArksApplication × W

  module _ (app : ArksApplication) where
    abbrev pub Named : S → Type 0
    Named (a, w) = (a.namespace ≡ app.namespace) × (a.name ≡ app.name)

    abbrev pub HasService : S → Type 0
    HasService (a, w) =
        k.get_service a.namespace (generate_application_service_name a.name) w ≡ none

    -- The model is neither ready nor failed.
    pub record Waits (s : S) : Type 0 where
      pub model : ArksModel
      pub found : k.get_model (s.0).namespace (s.0).model s.1 ≡ inl model
      pub not_failed : text_eq model.phase (text "Failed") ≡ false
      pub not_ready : text_eq model.phase (text "Ready") ≡ false

    -- The application is ready and running, its service is there, and its replicas are those of the
    -- LeaderWorkerSet that is there.
    pub record Up (s : S) : Type 0 where
      pub named : Named s
      pub is_ready : Holds s.0 ready
      pub is_running : InPhase s.0 phase_running
      pub service : HasService s
      pub lws : LeaderWorkerSet
      pub found : k.get_lws (s.0).namespace (s.0).name s.1 ≡ inl lws
      pub replicas_eq : (s.0).status_replicas ≡ lws.status.replicas
      pub ready_eq : (s.0).ready_replicas ≡ lws.status.ready_replicas
      pub updated_eq : (s.0).updated_replicas ≡ lws.status.updated_replicas

    -- The LeaderWorkerSet is missing again, and the application is not ready.
    pub record Gone (s : S) : Type 0 where
      pub missing : ApiError
      pub asked : k.get_lws (s.0).namespace (s.0).name s.1 ≡ inr missing
      pub not_found : is_not_found missing.kind ≡ true
      pub not_ready : has_condition s.0 ready ≡ false

    abbrev pub Ended : S → Type 0
    Ended s = InPhase s.0 phase_failed ⊎ Gone s ⊎ Up s

    abbrev pub Ends : Returned → S → Type 0
    Ends r s = (r.error ≢ none) ⊎ ((r ≡ later k now) × Waits s) ⊎ ((r ≡ no_error) × Ended s)
