-- ===== src/Disaggregated/Requeue.antt =====
-- internal/controller/arksdisaggregatedapplication_controller.go: what `Reconcile` returns.
use arks.Prelude.{
  none, ◌⊎◌, refl, some, ◌≡◌, inr, inl, Bool-cases, Option, sym, Option-cases, false,
}
use arks.Controller.{returned}
use arks.Disaggregated.{ArksDisaggregatedApplication, ℤ, Text}
use arks.Disaggregated.Reconcile.{
  with_application, reconcile_found, reconcile, after_status, update_status, reconcile_application,
  with_application,
}
use arks.Disaggregated.Stages.{Cluster}
use arks.Prelude.Int.{ℤ, pos}
use arks.ArksModel.Steps.{Returned, is_not_found, no_error}
use arks.Prelude.Text.{Text}
use arks.ArksModel.Kube.{ApiError}
use mathlib.Core.Path.{subst}

abbrev Final : Returned → Type 0
Final r = r.error ≡ none → (r.requeue ≡ false) × (r.requeue_after ≡ pos 0)

abbrev Ends : Option Returned → Type 0
Ends none = Unit
Ends (some r) = Final r

module _ {W : Type 0} (k : Cluster W) (now : ℤ) where
  after_status-Final :
      (failure : Option ApiError) (app : ArksDisaggregatedApplication) (r : Returned)
      → Final (after_status k now failure app r)
  after_status-Final (some e) app r = λ h. (refl, refl)
  after_status-Final none app r = elim (Option-cases r.error) [
    | inl e ↦ rw e (λ h. (refl, refl))
    | inr (x, e) ↦
        subst (λ o. Final (elim o [ some message ↦ r | none ↦ no_error ])) (sym e) (λ h. cc)
  ]

  update_status-Ends :
      (r : Option Returned) (app : ArksDisaggregatedApplication) (w : W)
      → Ends (update_status k now r app w).0
  update_status-Ends none app w = tt
  update_status-Ends (some r) app w = after_status-Final (k.update_application_status app w).0 app r

  with_application-Ends :
      (got : ArksDisaggregatedApplication ⊎ ApiError) (w : W)
      → ((app : ArksDisaggregatedApplication) → got ≡ inl app → app.deletion_timestamp ≡ none)
      → Ends (with_application k now got w).0
  with_application-Ends (inr e) w live = elim (Bool-cases (is_not_found e.kind)) [
    | inl z ↦ rw z (λ h. (refl, refl))
    | inr z ↦ rw z (λ h. (refl, refl))
  ]
  with_application-Ends (inl app) w live =
      let left = reconcile_application k now (app, w) in
      subst (λ d. Ends (reconcile_found k now d app w).0) (sym (live app refl))
        (update_status-Ends (returned left.0) left.1.0 left.1.1)

  -- Of an application that is not being deleted, `Reconcile` returns an error or asks for no further
  -- reconciliation, at once or later, whatever `reconcile` asked for.
  pub reconcile-Final :
      (namespace name : Text) (w : W) (r : Returned)
      → ((app : ArksDisaggregatedApplication)
          → k.get_application namespace name w ≡ inl app
          → app.deletion_timestamp ≡ none)
      → (reconcile k now namespace name w).0 ≡ some r
      → r.error ≡ none
      → (r.requeue ≡ false) × (r.requeue_after ≡ pos 0)
  unfolding reconcile
  reconcile-Final namespace name w r live e =
      subst Ends e (with_application-Ends (k.get_application namespace name w) w live)
