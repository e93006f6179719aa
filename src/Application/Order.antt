-- ===== src/Application/Order.antt =====
-- internal/controller/arksapplication_controller.go: the order of an application's stages.
use arks.Prelude.{
  true, ◌≡◌, ◌⊎◌, false, inl, refl, sym, ◌∙◌, inr, Bool-cases, Option-cases, ◌∷◌, List, arith, [],
}
use arks.Controller.Hoare.{Post}
use arks.ArksModel.Metadata.{check_condition-update}
use arks.Application.Stages.{
  Cluster, in_phase, has_condition, with_condition, prechecks, names_models, mounts_models,
}
use arks.Prelude.Int.{ℤ}
use arks.Prelude.Text.{Result, ok, Text, err, text_eq}
use arks.Application.{
  ArksApplication, Text, phase_failed, ready, precheck, loaded, text_eq, phase_running,
  phase_creating, phase_loading, phase_checking, runtime_of, initialize_conditions,
  ArksApplicationCondition,
}
use arks.ArksModel.Steps.{Returned}
use arks.ArksModel.{ConditionStatus, condition_true, check_condition}

abbrev pub Holds : ArksApplication → Text → Type 0
Holds app type = has_condition app type ≡ true

abbrev pub InPhase : ArksApplication → Text → Type 0
InPhase app phase = text_eq app.phase phase ≡ true

-- A later condition holds only after the earlier ones, and so does a later phase.
pub record Staged (app : ArksApplication) : Type 0 where
  pub ready_loaded : Holds app ready → Holds app loaded
  pub loaded_checked : Holds app loaded → Holds app precheck
  pub running_loaded : InPhase app phase_running → Holds app loaded
  pub creating_loaded : InPhase app phase_creating → Holds app loaded
  pub loading_checked : InPhase app phase_loading → Holds app precheck

abbrev pub Ordered : ArksApplication → Type 0
Ordered app = InPhase app phase_failed ⊎ Staged app

-- The object that an update of an application answers with.
abbrev pub AnswersOrdered : Result ArksApplication → Type 0
AnswersOrdered (ok app) = Ordered app
AnswersOrdered (err message) = Unit

-- The conditions that an application starts with are all false, as missing ones are.
pub check_condition-initialize :
    (cs : List ArksApplicationCondition) (now : ℤ) (type : Text)
    → check_condition (initialize_conditions cs now) type ≡ check_condition cs type
unfolding initialize_conditions check_condition
check_condition-initialize (c ∷ rest) now type = refl
check_condition-initialize [] now type = ground arith

module _ {W : Type 0} (k : Cluster W) (now : ℤ)
    (stored : (app : ArksApplication) (w : W) → AnswersOrdered (k.update_application app w).0) where
  abbrev pub Returns : Returned → ArksApplication × W → Type 0
  Returns r s = Ordered s.0

  abbrev pub Checked : {A : Type 0} → A → ArksApplication × W → Type 0
  Checked a s = Staged s.0 × Holds s.0 precheck

  abbrev pub Loaded : {A : Type 0} → A → ArksApplication × W → Type 0
  Loaded a s = Staged s.0 × Holds s.0 loaded

  -- A condition that was just set to true.
  pub set-Holds :
      (type reason message : Text) (app : ArksApplication)
      → text_eq type type ≡ true
      → Holds (with_condition type condition_true reason message now app) type
  set-Holds type reason message app e =
      check_condition-update app.conditions type condition_true reason message now type ∙ rw e refl

  -- Setting a condition leaves the others.
  pub set-others :
      (type : Text) (status : ConditionStatus) (reason message : Text) (app : ArksApplication)
      (other : Text)
      → text_eq type other ≡ false
      → has_condition (with_condition type status reason message now app) other
        ≡ has_condition app other
  set-others type status reason message app other e =
      check_condition-update app.conditions type status reason message now other ∙ rw e refl

  pub failed-Ordered : (app : ArksApplication) → Ordered (in_phase phase_failed app)
  unfolding text_eq
  failed-Ordered app = inl refl

  pub checked-Staged :
      (reason message : Text) (app : ArksApplication)
      → ¬ Holds app loaded
      → ¬ Holds app ready
      → Staged
          (with_condition precheck condition_true reason message now (in_phase phase_checking app))
  unfolding text_eq
  checked-Staged reason message app not_loaded not_ready =
      let same = set-others precheck condition_true reason message (in_phase phase_checking app) in
      record {
        ready_loaded = λ h. elim (not_ready (sym (same ready refl) ∙ h)) [ ];
        loaded_checked = λ h. set-Holds precheck reason message (in_phase phase_checking app) refl;
        running_loaded = λ h. cc;
        creating_loaded = λ h. cc;
        loading_checked = λ h. cc;
      }

  -- Once the model is loaded, every phase is in order.
  pub loaded-Staged :
      (app : ArksApplication) (phase : Text)
      → Staged app
      → Holds app loaded
      → Staged (in_phase phase app)
  loaded-Staged app phase h l =
      let checked = h.loaded_checked l in
      record {
        ready_loaded = h.ready_loaded;
        loaded_checked = h.loaded_checked;
        running_loaded = λ _. l;
        creating_loaded = λ _. l;
        loading_checked = λ _. checked;
      }

  pub loading-Staged :
      (app : ArksApplication)
      → Staged app
      → Holds app precheck
      → Staged (in_phase phase_loading app)
  unfolding text_eq
  loading-Staged app h c = record {
    ready_loaded = h.ready_loaded;
    loaded_checked = h.loaded_checked;
    running_loaded = λ p. cc;
    creating_loaded = λ p. cc;
    loading_checked = λ _. c;
  }

  pub set_ready-Loaded :
      (status : ConditionStatus) (reason message : Text) (app : ArksApplication)
      → Staged app
      → Holds app loaded
      → Staged (with_condition ready status reason message now app)
        × Holds (with_condition ready status reason message now app) loaded
  unfolding text_eq
  set_ready-Loaded status reason message app h l =
      let still = set-others ready status reason message app loaded refl ∙ l in
      let checked = set-others ready status reason message app precheck refl ∙ h.loaded_checked l in
      (
        record {
          ready_loaded = λ _. still;
          loaded_checked = λ _. checked;
          running_loaded = λ _. still;
          creating_loaded = λ _. still;
          loading_checked = λ _. checked;
        },
        still,
      )

  pub set_loaded-Loaded :
      (reason message : Text) (app : ArksApplication)
      → Holds app precheck
      → Staged (with_condition loaded condition_true reason message now app)
        × Holds (with_condition loaded condition_true reason message now app) loaded
  unfolding text_eq
  set_loaded-Loaded reason message app c =
      let now_loaded = set-Holds loaded reason message app refl in
      let checked = set-others loaded condition_true reason message app precheck refl ∙ c in
      (
        record {
          ready_loaded = λ _. now_loaded;
          loaded_checked = λ _. checked;
          running_loaded = λ _. now_loaded;
          creating_loaded = λ _. now_loaded;
          loading_checked = λ _. checked;
        },
        now_loaded,
      )

  pub prechecks-Checked :
      (app : ArksApplication) (s : ArksApplication × W)
      → ¬ Holds s.0 loaded
      → ¬ Holds s.0 ready
      → Post Checked Returns (prechecks k now app (in_phase phase_checking s.0, s.1))
  unfolding text_eq
  prechecks-Checked app s l r = elim (Option-cases (runtime_of app.runtime)) [
    | inl e ↦ rw (e, prechecks) (inl refl)
    | inr (x, e) ↦
        rw (e, prechecks)
          (elim (Bool-cases (names_models app.instance_spec.volumes)) [
            | inl n ↦ rw n (inl refl)
            | inr n ↦ rw n (elim (Bool-cases (mounts_models app.instance_spec.volume_mounts)) [
              | inl m ↦ rw m (inl refl)
              | inr m ↦ rw m (
                checked-Staged _ _ s.0 l r,
                set-Holds precheck _ _ (in_phase phase_checking s.0) refl,
              )
            ])
          ])
  ]
