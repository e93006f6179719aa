-- ===== src/ArksModel/Reconcile.antt =====
-- internal/controller/arksmodel_controller.go: `Reconcile`, `remove` and `reconcile` of an ArksModel.
use arks.Prelude.{none, Option, ◌⊎◌, inl, ◌++◌, inr, some, ◌||◌, if◌then◌else◌}
use arks.Prelude.Text.{Text, Result, text_eq, text, err, ok}
use arks.ArksModel.{
  ArksModel, remove_finalizer, text, check_condition, ArksModelSource, text_eq, update_condition,
  ArksModelStorage, has_finalizer, add_finalizer, condition_true, phase_failed, model_ready,
  phase_ready, initialize_conditions,
}
use arks.Prelude.Int.{ℤ}
use arks.ArksModel.Kube.{Kube, ApiError}
use arks.ArksModel.Steps.{
  Returned, Left, Step, generate_worker_pod_name, ensure_storage, ensure_loaded, stop, failing,
  is_not_found, left, requeued, go_on, no_error, set_condition, set_phase,
}

abbrev pub finalizer : Text
finalizer = text "model.arks.ai/controller"

module _ {W : Type 0} (k : Kube W) (now : ℤ) where
  abbrev pub ensure_ready : ArksModel → W → Left W
  ensure_ready m w =
      if check_condition m.conditions model_ready
      then left no_error m w
      else left no_error
          (set_condition (set_phase m phase_ready) model_ready condition_true (text "Ready")
            (text "The model is ready now") now)
          w

  abbrev pub after_loaded : Step W Unit → Left W
  after_loaded (stop l) = l
  after_loaded (go_on _ m w) = ensure_ready m w

  abbrev pub after_storage : ArksModelStorage → Step W Text → Left W
  after_storage storage (stop l) = l
  after_storage storage (go_on claim m w) = after_loaded (ensure_loaded k now storage claim m w)

  -- `model.Spec.Storage` is dereferenced unchecked: `none` is the panic.
  abbrev pub with_storage : Option ArksModelStorage → ArksModel → W → Option (Left W)
  with_storage none m w = none
  with_storage (some storage) m w =
      some (after_storage storage (ensure_storage k now storage.pvc m w))

  abbrev pub after_finalizer : Result ArksModel → ArksModel → W → Left W
  after_finalizer (err message) m w =
      left (failing (text "failed to add model finalizer: " ++ k.quoted message)) m w
  after_finalizer (ok m') m w = left requeued m' w

  -- `reconcile`
  unfoldable pub reconcile_model : ArksModel → W → Option (Left W)
  unfolding ensure_storage ensure_loaded has_finalizer add_finalizer initialize_conditions
      update_condition check_condition
  reconcile_model m w = elim m.deletion_timestamp [
    | some t ↦ some (left requeued m w)
    | none ↦
        if text_eq m.phase phase_ready || text_eq m.phase phase_failed
        then some (left no_error m w)
        else if has_finalizer m.finalizers finalizer
        then with_storage m.storage
            (record m { conditions = initialize_conditions m.conditions now }) w
        else (let m' = record m { finalizers = add_finalizer m.finalizers finalizer } in
            let (answer, w') = k.update_model m' w in some (after_finalizer answer m' w'))
  ]

  abbrev pub after_release : Result ArksModel → W → Returned × W
  after_release (err message) w =
      (failing (text "failed to remove model finalizer: " ++ k.quoted message), w)
  after_release (ok m) w = (no_error, w)

  abbrev pub release : ArksModel → W → Returned × W
  release m w =
      let (answer, w') =
        k.update_model (record m { finalizers = remove_finalizer m.finalizers finalizer }) w in
      after_release answer w'

  -- A pod that is not found is as good as one that is deleted; any other error ends the removal.
  abbrev pub after_delete_pod : Option ApiError → ArksModel → W → Returned × W
  after_delete_pod none m w = release m w
  after_delete_pod (some e) m w = if is_not_found e.kind then release m w else (no_error, w)

  abbrev pub remove_from : Option ArksModelSource → ArksModel → W → Returned × W
  remove_from none m w = release m w
  remove_from (some source) m w = elim source.huggingface [
    | none ↦ release m w
    | some hf ↦
        let (failure, w') = k.delete_pod m.namespace (generate_worker_pod_name m) w in
        after_delete_pod failure m w'
  ]

  -- `remove`
  unfoldable pub remove_model : ArksModel → W → Returned × W
  unfolding remove_finalizer generate_worker_pod_name
  remove_model m w = elim m.deletion_timestamp [
    | none ↦ (requeued, w)
    | some t ↦ remove_from m.source m w
  ]

  abbrev pub after_status : Option ApiError → ArksModel → Returned → Returned
  after_status (some e) m returned = failing (
      text "failed to update status for "
      ++ (m.namespace
          ++ (text "/"
              ++ (m.name ++ (text " (" ++ (m.uid ++ (text "): " ++ k.quoted e.message)))))))
  after_status none m returned = elim returned.error [ some message ↦ returned | none ↦ no_error ]

  abbrev pub update_status : Option (Left W) → Option (Returned × W)
  update_status none = none
  update_status (some l) =
      let (failure, w') = k.update_model_status l.model l.world in
      some (after_status failure l.model l.returned, w')

  abbrev pub with_model : ArksModel ⊎ ApiError → W → Option (Returned × W)
  with_model (inr e) w = some ((if is_not_found e.kind then no_error else failing e.message), w)
  with_model (inl m) w = elim m.deletion_timestamp [
    | some t ↦ some (remove_model m w)
    | none ↦ update_status (reconcile_model m w)
  ]

  -- `Reconcile`
  unfoldable pub reconcile : Text → Text → W → Option (Returned × W)
  unfolding reconcile_model remove_model
  reconcile namespace name w = with_model (k.get_model namespace name w) w
