-- ===== src/Application/Removed.antt =====
-- internal/controller/arksapplication_controller.go: what is gone when `remove` takes the finalizer off.
use arks.Prelude.{
  none, true, inl, refl, Bool-cases, Option, ◌≡◌, some, inr, ◌≢◌, false, ◌∙◌, ap, sym,
}
use arks.Controller.{Action, returns, ◌>>◌, unless_not_found, Outcome}
use arks.ArksModel.Kube.{ApiError}
use arks.ArksModel.Steps.{Returned, no_error, is_not_found, failing}
use arks.Application.Stages.{Cluster, finalizer}
use arks.Prelude.Int.{ℤ}
use arks.Application.{ArksApplication, Text, text_eq}
use arks.Application.Reconcile.{remove_application, after_release, delete_lws, release, remove_from}
use arks.Prelude.Text.{Text, text_eq, Result, ok, err}
use arks.Application.Workload.{generate_application_service_name}
use arks.ArksModel.{remove_finalizer, has_finalizer}
use arks.ArksModel.Metadata.{has_finalizer-remove}

-- The deletion succeeded, or found nothing.
abbrev pub Gone : Option ApiError → Type 0
Gone none = Unit
Gone (some e) = is_not_found e.kind ≡ true

unless_not_found-Gone :
    {S : Type 0} (o : Option ApiError) (r : ApiError → Returned) (f : Action S (Unit {0})) (s : S)
    → ((e : ApiError) → r e ≢ no_error)
    → ((unless_not_found o r >> f) s).0 ≡ returns no_error
    → Gone o × ((unless_not_found o r >> f) s ≡ f s)
unless_not_found-Gone none r f s fails = λ h. (tt, refl)
unless_not_found-Gone (some e) r f s fails = elim (Bool-cases (is_not_found e.kind)) [
  | inl n ↦ rw n (λ h. (refl, refl))
  | inr n ↦ rw n (λ h. absurd (fails e cc))
]

module _ {W : Type 0} (k : Cluster W) (now : ℤ) (app : ArksApplication) (w : W) where
  abbrev pub after_service_deleted : W
  after_service_deleted =
      (k.delete_service app.namespace (generate_application_service_name app.name) w).1

  abbrev pub after_lws_deleted : W
  after_lws_deleted = (k.delete_lws app.namespace app.name after_service_deleted).1

  abbrev pub released : ArksApplication
  released = record app { finalizers = remove_finalizer app.finalizers finalizer }

  -- The service and the LeaderWorkerSet are gone, in this order, before the last call, which stores the
  -- application without the controller's finalizer.
  pub record IsRemoved (after : Outcome (Unit {0}) × (ArksApplication × W)) : Type 0 where
    pub service_gone :
        Gone (k.delete_service app.namespace (generate_application_service_name app.name) w).0
    pub lws_gone : Gone (k.delete_lws app.namespace app.name after_service_deleted).0
    pub stored : ArksApplication
    pub update : (k.update_application released after_lws_deleted).0 ≡ ok stored
    pub end :
        after ≡ (returns no_error, (released, (k.update_application released after_lws_deleted).1))
    pub unheld : has_finalizer released.finalizers finalizer ≡ false

  failing-error : (m : Text) → failing m ≢ no_error
  failing-error m h = cc

  after_release-ok :
      (answer : Result ArksApplication) (w' : W)
      → (after_release k now answer (released, w')).0 ≡ returns no_error
      → (a : ArksApplication) × (answer ≡ ok a)
        × (after_release k now answer (released, w') ≡ (returns no_error, (released, w')))
  after_release-ok (err m) w' h = cc
  after_release-ok (ok a) w' h = (a, refl, refl)

  unheld_after : has_finalizer released.finalizers finalizer ≡ false
  unfolding text_eq
  unheld_after = has_finalizer-remove app.finalizers finalizer finalizer

  remove_from-IsRemoved :
      (o : Option ℤ)
      → (remove_from k now o app (app, w)).0 ≡ returns no_error
      → IsRemoved (remove_from k now o app (app, w))
  remove_from-IsRemoved none h = cc
  remove_from-IsRemoved (some t) h =
      let (gone, p) =
        unless_not_found-Gone
          (k.delete_service app.namespace (generate_application_service_name app.name) w).0 _
          (λ s. (delete_lws k now app >> release k now) s) (app, after_service_deleted)
          (λ d. failing-error _) h in
      let (gone', q) =
        unless_not_found-Gone (k.delete_lws app.namespace app.name after_service_deleted).0 _
          (release k now) (app, after_lws_deleted) (λ d. failing-error _)
          (ap (λ x. x.0) (sym p) ∙ h) in
      let answer = k.update_application released after_lws_deleted in
      let (a, stored, end) =
        after_release-ok answer.0 answer.1 (ap (λ x. x.0) (sym q) ∙ ap (λ x. x.0) (sym p) ∙ h) in
      record {
        service_gone = gone;
        lws_gone = gone';
        stored = a;
        update = stored;
        end = p ∙ q ∙ end;
        unheld = unheld_after;
      }

  -- Where `remove` returns without an error and without a requeue, the application's service and its
  -- LeaderWorkerSet are gone, and only then the application was stored without the controller's finalizer.
  pub remove_application-IsRemoved :
      (remove_application k now (app, w)).0 ≡ returns no_error
      → IsRemoved (remove_application k now (app, w))
  unfolding remove_application
  remove_application-IsRemoved = remove_from-IsRemoved app.deletion_timestamp
