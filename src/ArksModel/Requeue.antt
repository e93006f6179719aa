-- ===== src/ArksModel/Requeue.antt =====
-- internal/controller/arksmodel_controller.go: what `Reconcile` returns.
use arks.Prelude.{
  none, refl, inr, Bool-cases, some, Option, ◌≡◌, false, inl, sym, ◌⊎◌, Option-cases, ap,
}
use arks.ArksModel.Kube.{Kube, ApiError}
use arks.Prelude.Int.{ℤ, pos}
use arks.Prelude.Text.{Text, Result, err, ok}
use arks.ArksModel.Steps.{
  Returned, is_not_found, Left, no_error, generate_worker_pod_name, requeued,
}
use arks.ArksModel.{ArksModel, ArksModelSource, remove_finalizer}
use arks.ArksModel.Reconcile.{
  reconcile, after_status, release, after_delete_pod, remove_model, after_release, update_status,
  with_model, remove_from, finalizer, reconcile_model,
}
use mathlib.Core.Path.{subst}

module _ {W : Type 0} (k : Kube W) (now : ℤ) where
  abbrev Final : Returned → Type 0
  Final r = r.error ≡ none → (r.requeue ≡ false) × (r.requeue_after ≡ pos 0)

  after_status-Final :
      (failure : Option ApiError) (m : ArksModel) (r : Returned)
      → Final (after_status k now failure m r)
  after_status-Final (some e) m r = λ h. (refl, refl)
  after_status-Final none m r = elim (Option-cases r.error) [
    | inl e ↦ rw e (λ h. (refl, refl))
    | inr (x, e) ↦
        subst (λ o. Final (elim o [ some message ↦ r | none ↦ no_error ])) (sym e) (λ h. cc)
  ]

  release-Final :
      (m : ArksModel) (answer : Result ArksModel) (w : W) → Final (after_release k now answer w).0
  release-Final m (err message) w = λ h. (refl, refl)
  release-Final m (ok m') w = λ h. (refl, refl)

  release_model-Final : (m : ArksModel) (w : W) → Final (release k now m w).0
  release_model-Final m w =
      let answer =
        k.update_model (record m { finalizers = remove_finalizer m.finalizers finalizer }) w in
      release-Final m answer.0 answer.1

  after_delete_pod-Final :
      (failure : Option ApiError) (m : ArksModel) (w : W)
      → Final (after_delete_pod k now failure m w).0
  after_delete_pod-Final none m w = release_model-Final m w
  after_delete_pod-Final (some e) m w = elim (Bool-cases (is_not_found e.kind)) [
    | inl z ↦ rw z (release_model-Final m w)
    | inr z ↦ rw z (λ h. (refl, refl))
  ]

  remove_from-Final :
      (source : Option ArksModelSource) (m : ArksModel) (w : W)
      → Final (remove_from k now source m w).0
  remove_from-Final none m w = release_model-Final m w
  remove_from-Final (some source) m w = elim (Option-cases source.huggingface) [
    | inl e ↦ rw e (release_model-Final m w)
    | inr (hf, e) ↦
        let gone = k.delete_pod m.namespace (generate_worker_pod_name m) w in
        rw e (after_delete_pod-Final gone.0 m gone.1)
  ]

  abbrev Ends : Option (Returned × W) → Type 0
  Ends none = Unit
  Ends (some (r, w)) = Final r

  update_status-Ends : (l : Option (Left W)) → Ends (update_status k now l)
  update_status-Ends none = tt
  update_status-Ends (some l) =
      after_status-Final (k.update_model_status l.model l.world).0 l.model l.returned

  remove_model-deleted :
      (m : ArksModel) (w : W) (t : ℤ)
      → m.deletion_timestamp ≡ some t
      → remove_model k now m w ≡ remove_from k now m.source m w
  unfolding remove_model
  remove_model-deleted m w t e =
      ap (λ o. elim o [ none ↦ (requeued, w) | some t ↦ remove_from k now m.source m w ]) e

  with_model-Ends : (got : ArksModel ⊎ ApiError) (w : W) → Ends (with_model k now got w)
  unfolding remove_model
  with_model-Ends (inr e) w = elim (Bool-cases (is_not_found e.kind)) [
    | inl z ↦ rw z (λ h. (refl, refl))
    | inr z ↦ rw z (λ h. (refl, refl))
  ]
  with_model-Ends (inl m) w = elim (Option-cases m.deletion_timestamp) [
    | inl e ↦ rw e (update_status-Ends (reconcile_model k now m w))
    | inr (t, e) ↦ rw e (
        subst (λ x. Final x.0) (sym (remove_model-deleted m w t e))
          (remove_from-Final m.source m w))
  ]

  -- What `Reconcile` returns with no error asks neither for a requeue nor for one after some time, although `reconcile` asks for a requeue after it has added the finalizer.
  pub reconcile-requeue :
      (namespace name : Text) (w : W) (r : Returned) (w' : W)
      → reconcile k now namespace name w ≡ some (r, w')
      → r.error ≡ none
      → (r.requeue ≡ false) × (r.requeue_after ≡ pos 0)
  unfolding reconcile
  reconcile-requeue namespace name w r w' e h =
      subst Ends e (with_model-Ends (k.get_model namespace name w) w) h
