-- ===== src/ArksModel/Worker.antt =====
-- internal/controller/arksmodel_controller.go: which claim the worker pod of an ArksModel mounts.
use arks.Prelude.{
  none, refl, inr, [], Bool-cases, true, some, Option, ◌≡◌, ◌++◌, false, inl, if◌then◌else◌, sym,
}
use arks.ArksModel.Kube.{Kube, ApiError}
use arks.Prelude.Int.{ℤ}
use arks.Prelude.Text.{Text, text, text_eq_refl}
use arks.ArksModel.Steps.{
  ensure_storage, Step, stop, storage_name, go_on, after_create_pvc, after_get_pvc, created,
  set_phase, new_claim, is_already_exists, is_not_found,
}
use arks.ArksModel.{
  ArksModelStoragePvc, ArksModel, check_condition, storage_created, phase_storage_creating,
  condition_true, text,
}
use arks.ArksModel.Metadata.{check_condition-update}
use mathlib.Core.Path.{subst}

module _ {W : Type 0} (k : Kube W) (now : ℤ) where
  -- The claim that a storage step hands on: the one that this call created or found, or none.
  abbrev pub Claims : ArksModelStoragePvc → ArksModel → Step W Text → Type 0
  Claims pvc m (stop l) = Unit
  Claims pvc m (go_on claim m' w) =
      (check_condition m'.conditions storage_created ≡ true)
      × (claim
          ≡ (if check_condition m.conditions storage_created then [] else storage_name pvc m.name))

  created-Claims :
      (pvc : ArksModelStoragePvc) (m : ArksModel) (w : W)
      → check_condition m.conditions storage_created ≡ false
      → Claims pvc m (
          go_on
            (storage_name pvc m.name)
            (created k now (set_phase m phase_storage_creating) pvc)
            w)
  created-Claims pvc m w h = (
    rw
        (
          check_condition-update m.conditions storage_created condition_true
              (text "CreateSucceeded")
              (text "Create model storage successfully(" ++ (pvc.name ++ text ")")) now
              storage_created,
          text_eq_refl storage_created,
        )
        refl,
    rw h refl,
  )

  after_create_pvc-Claims :
      (failure : Option ApiError) (pvc : ArksModelStoragePvc) (m : ArksModel) (w : W)
      → check_condition m.conditions storage_created ≡ false
      → Claims pvc m (
          after_create_pvc k now failure
            (storage_name pvc m.name)
            pvc
            (set_phase m phase_storage_creating)
            w)
  after_create_pvc-Claims none pvc m w h = created-Claims pvc m w h
  after_create_pvc-Claims (some e) pvc m w h = elim (Bool-cases (is_already_exists e.kind)) [
    | inl z ↦ rw z (created-Claims pvc m w h)
    | inr z ↦ rw z tt
  ]

  after_get_pvc-Claims :
      (failure : Option ApiError) (pvc : ArksModelStoragePvc) (m : ArksModel) (w : W)
      → check_condition m.conditions storage_created ≡ false
      → Claims pvc m (
          after_get_pvc k now failure
            (storage_name pvc m.name)
            pvc
            (set_phase m phase_storage_creating)
            w)
  after_get_pvc-Claims none pvc m w h = created-Claims pvc m w h
  after_get_pvc-Claims (some e) pvc m w h =
      let claim =
        new_claim k now (set_phase m phase_storage_creating) (storage_name pvc m.name) pvc in
      elim (Bool-cases (is_not_found e.kind)) [
        | inl z ↦
            rw z (after_create_pvc-Claims (k.create_pvc claim w).0 pvc m (k.create_pvc claim w).1 h)
        | inr z ↦ rw z tt
      ]

  -- A storage step that goes on leaves the storage created. It hands on the name of the claim, which
  -- is the name of the model where the spec has none, only if the storage was not yet created; if it
  -- was, it hands on the empty name.
  pub ensure_storage-Claims :
      (pvc : ArksModelStoragePvc) (m : ArksModel) (w : W)
      → Claims pvc m (ensure_storage k now (some pvc) m w)
  unfolding ensure_storage
  ensure_storage-Claims pvc m w = elim (Bool-cases (check_condition m.conditions storage_created)) [
    | inl h ↦
        subst
          (λ b. Claims pvc m (
            if b
            then go_on [] m w
            else after_get_pvc k now (k.get_pvc m.namespace (storage_name pvc m.name) w)
                (storage_name pvc m.name) pvc (set_phase m phase_storage_creating) w))
          (sym h) (h, rw h refl)
    | inr h ↦
        rw h (after_get_pvc-Claims (k.get_pvc m.namespace (storage_name pvc m.name) w) pvc m w h)
  ]
