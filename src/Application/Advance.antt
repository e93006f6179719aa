-- ===== src/Application/Advance.antt =====
-- internal/controller/arksapplication_controller.go: every return of `reconcile` leaves an
-- application's stages in order.
use arks.Prelude.{
  inl, Bool-cases, inr, refl, Sum-cases, Option-cases, [], sym, ◌≡◌, ◌∙◌, false, Bool, some, none,
  true, Option, List,
}
use arks.Controller.Hoare.{Post, Post-and_then}
use arks.Application.Reconcile.{
  advance, prepared, reconcile_application, reconcile_from, after_update, start,
}
use arks.Application.Stages.{
  Cluster, ensure_loaded, ensure_prechecked, find_model, has_condition, in_phase, sync_status,
  ensure_lws, ensure_service, ensure_running, create_generated, finalizer,
}
use arks.Application.Order.{
  AnswersOrdered, Loaded, Checked, Returns, Staged, prechecks-Checked, set_loaded-Loaded,
  loading-Staged, set_ready-Loaded, loaded-Staged, Ordered, InPhase, check_condition-initialize,
}
use arks.Prelude.Int.{ℤ}
use arks.Application.{
  ArksApplication, text_eq, precheck, loaded, text, phase_checking, phase_loading, ready,
  condition_false, phase_running, phase_creating, Text, phase_pending, phase_failed,
}
use arks.Prelude.Text.{text_eq, text, Text, Result, err, ok}
use arks.ArksModel.Steps.{Returned, is_not_found, is_already_exists}
use arks.ArksModel.{
  ArksModel, condition_false, condition_true, check_condition, has_finalizer, add_finalizer,
}
use arks.Application.Commands.{Generated, refused, generated, dereferenced}
use arks.Application.Workload.{
  generate_lws, LeaderWorkerSet, generate_application_service_name, application_service,
}

module _ {W : Type 0} (k : Cluster W) (now : ℤ)
    (stored : (app : ArksApplication) (w : W) → AnswersOrdered (k.update_application app w).0) where
  abbrev S : Type 0
  S = ArksApplication × W

  abbrev State : (S → Type 0) → Unit {0} → S → Type 0
  State P _ s = P s

  abbrev Checks : S → Type 0
  Checks = Checked k now stored tt

  abbrev Loads : S → Type 0
  Loads = Loaded k now stored tt

  abbrev Ends : Returned → S → Type 0
  Ends = Returns k now stored

  ensure_prechecked-Checked :
      (s : S) → Staged s.0 → Post (State Checks) Ends (ensure_prechecked k now s)
  unfolding ensure_prechecked
  ensure_prechecked-Checked s h = elim (Bool-cases (has_condition s.0 precheck)) [
    | inl c ↦ rw c (h, c)
    | inr c ↦ rw c (
        prechecks-Checked k now stored (in_phase phase_checking s.0) s
          (λ l. cc (h.loaded_checked l, c)) (λ r. cc (h.loaded_checked (h.ready_loaded r), c)))
  ]

  find_model-Checked : (s : S) → Checks s → Post (λ m t. Checks t) Ends (find_model k now s)
  unfolding text_eq
  find_model-Checked (app, w) h = elim (Sum-cases (k.get_model app.namespace app.model w)) [
    | inl (m, e) ↦ rw e h
    | inr (x, e) ↦ rw e (elim (Bool-cases (is_not_found x.kind)) [
      | inl n ↦ rw n (inl refl)
      | inr n ↦ rw n (inr h.0)
    ])
  ]

  ensure_loaded-Loaded :
      (m : ArksModel) (s : S) → Checks s → Post (State Loads) Ends (ensure_loaded k now m s)
  unfolding ensure_loaded text_eq
  ensure_loaded-Loaded m (app, w) h = elim (Bool-cases (has_condition app loaded)) [
    | inl l ↦ rw l (h.0, l)
    | inr l ↦ rw l (elim (Bool-cases (text_eq m.phase (text "Failed"))) [
      | inl f ↦ rw f (inl refl)
      | inr f ↦ rw f (elim (Bool-cases (text_eq m.phase (text "Ready"))) [
        | inl r ↦ rw r (set_loaded-Loaded k now stored _ _ (in_phase phase_loading app) h.1)
        | inr r ↦ rw r (inr (loading-Staged k now stored app h.0 h.1))
      ])
    ])
  ]

  create_generated-Loaded :
      (g : Generated LeaderWorkerSet) (s : S)
      → Loads s
      → Post (State Loads) Ends (create_generated k now g s)
  unfolding text_eq
  create_generated-Loaded dereferenced s h = tt
  create_generated-Loaded (refused message) s h = inl refl
  create_generated-Loaded (generated lws) (app, w) h = elim (Option-cases (k.create_lws lws w).0) [
    | inl e ↦ rw e h
    | inr (x, e) ↦ rw e (elim (Bool-cases (is_already_exists x.kind)) [
      | inl n ↦ rw n h
      | inr n ↦ rw n (inr (set_ready-Loaded k now stored condition_false _ _ app h.0 h.1).0)
    ])
  ]

  ensure_lws-Loaded :
      (m : ArksModel) (s : S) → Loads s → Post (State Loads) Ends (ensure_lws k now m s)
  unfolding ensure_lws
  ensure_lws-Loaded m (app, w) h = elim (Sum-cases (k.get_lws app.namespace app.name w)) [
    | inl (lws, e) ↦ rw e h
    | inr (x, e) ↦ rw e (elim (Bool-cases (is_not_found x.kind)) [
      | inl n ↦ rw n (create_generated-Loaded (generate_lws k.images app m) (app, w) h)
      | inr n ↦ rw n (inr h.0)
    ])
  ]

  ensure_service-Loaded : (s : S) → Loads s → Post (State Loads) Ends (ensure_service k now s)
  unfolding ensure_service
  ensure_service-Loaded (app, w) h =
      elim (Option-cases
        (k.get_service app.namespace (generate_application_service_name app.name) w)) [
          | inl e ↦ rw e h
          | inr (x, e) ↦ rw e (elim (Bool-cases (is_not_found x.kind)) [
            | inr n ↦ rw n (inr h.0)
            | inl n ↦ rw n (elim (Option-cases (k.create_service (application_service app) w).0) [
              | inl f ↦ rw f h
              | inr (y, f) ↦ rw f (elim (Bool-cases (is_already_exists y.kind)) [
                | inl a ↦ rw a h
                | inr a ↦ rw a (inr h.0)
              ])
            ])
          ])
        ]

  ensure_running-Loaded :
      (m : ArksModel) (s : S) → Loads s → Post (State Loads) Ends (ensure_running k now m s)
  unfolding ensure_running
  ensure_running-Loaded m (app, w) h = elim (Bool-cases (has_condition app ready)) [
    | inl r ↦ rw r h
    | inr r ↦
        let started : S = (in_phase phase_creating app, w) in
        rw r (
          Post-and_then (State Loads) (State Loads) Ends (ensure_lws k now m) _ started
            (ensure_lws-Loaded m started
              (loaded-Staged k now stored app phase_creating h.0 h.1, h.1))
            (λ _ t l.
              Post-and_then (State Loads) (State Loads) Ends (ensure_service k now) _ t
                (ensure_service-Loaded t l)
                (λ _ u v.
                  set_ready-Loaded k now stored condition_true _ _ (in_phase phase_running u.0)
                    (loaded-Staged k now stored u.0 phase_running v.0 v.1) v.1)))
  ]

  sync_status-Loaded : (s : S) → Loads s → Post (State Loads) Ends (sync_status k now s)
  unfolding sync_status
  sync_status-Loaded (app, w) h = elim (Sum-cases (k.get_lws app.namespace app.name w)) [
    | inl (lws, e) ↦ rw e (
      record {
        ready_loaded = h.0.ready_loaded;
        loaded_checked = h.0.loaded_checked;
        running_loaded = h.0.running_loaded;
        creating_loaded = h.0.creating_loaded;
        loading_checked = h.0.loading_checked;
      },
      h.1,
    )
    | inr (x, e) ↦ rw e (elim (Bool-cases (is_not_found x.kind)) [
      | inl n ↦ rw n (
          set_ready-Loaded k now stored condition_false _ _ (in_phase phase_running app)
            (loaded-Staged k now stored app phase_running h.0 h.1) h.1)
      | inr n ↦ rw n (inr h.0)
    ])
  ]

  advance-Ordered : (s : S) → Staged s.0 → Post (λ _ t. Ordered t.0) Ends (advance k now s)
  unfolding advance
  advance-Ordered s h =
      Post-and_then (State Checks) (λ _ t. Ordered t.0) Ends (ensure_prechecked k now) _ s
        (ensure_prechecked-Checked s h)
        (λ _ t c.
          Post-and_then (λ m u. Checks u) (λ _ u. Ordered u.0) Ends (find_model k now) _ t
            (find_model-Checked t c)
            (λ m u d.
              Post-and_then (State Loads) (λ _ v. Ordered v.0) Ends (ensure_loaded k now m) _ u
                (ensure_loaded-Loaded m u d)
                (λ _ v l.
                  Post-and_then (State Loads) (λ _ x. Ordered x.0) Ends (ensure_running k now m) _ v
                    (ensure_running-Loaded m v l)
                    (λ _ x l'.
                      Post-and_then (State Loads) (λ _ y. Ordered y.0) Ends (sync_status k now) _ x
                        (sync_status-Loaded x l') (λ _ y z. inr z.0)))))

  finalizers-Staged :
      (fs : List Text) (app : ArksApplication)
      → Staged app
      → Staged (record app { finalizers = fs })
  finalizers-Staged fs app h = record {
    ready_loaded = h.ready_loaded;
    loaded_checked = h.loaded_checked;
    running_loaded = h.running_loaded;
    creating_loaded = h.creating_loaded;
    loading_checked = h.loading_checked;
  }

  prepared-phase :
      (app : ArksApplication) (phase : Text)
      → text_eq phase_pending phase ≡ false
      → InPhase (prepared k now app) phase
      → InPhase app phase
  unfolding prepared
  prepared-phase app phase e h = elim (Bool-cases (text_eq app.phase [])) [
    | inl z ↦ cc (rw z at h, e)
    | inr z ↦ rw z at h
  ]

  prepared-Staged : (app : ArksApplication) → Staged app → Staged (prepared k now app)
  unfolding prepared text_eq check_condition
  prepared-Staged app h =
      let same = check_condition-initialize app.conditions now in
      record {
        ready_loaded = λ r. same loaded ∙ h.ready_loaded (sym (same ready) ∙ r);
        loaded_checked = λ l. same precheck ∙ h.loaded_checked (sym (same loaded) ∙ l);
        running_loaded =
            λ p. same loaded ∙ h.running_loaded (prepared-phase app phase_running refl p);
        creating_loaded =
            λ p. same loaded ∙ h.creating_loaded (prepared-phase app phase_creating refl p);
        loading_checked =
            λ p. same precheck ∙ h.loading_checked (prepared-phase app phase_loading refl p);
      }

  after_update-Ordered :
      (answer : Result ArksApplication) (s : S)
      → AnswersOrdered answer
      → Staged s.0
      → Post (λ _ t. Ordered t.0) Ends (after_update k now answer s)
  after_update-Ordered (err message) s a h = inr h
  after_update-Ordered (ok app) s a h = a

  start-Ordered :
      (has : Bool) (s : S) → Staged s.0 → Post (λ _ t. Ordered t.0) Ends (start k now has s)
  start-Ordered true (app, w) h = advance-Ordered (prepared k now app, w) (prepared-Staged app h)
  start-Ordered false (app, w) h =
      let app' = prepared k now app in
      let a : ArksApplication = record app' {
        finalizers = add_finalizer app'.finalizers finalizer;
      } in
      let answer = k.update_application a w in
      after_update-Ordered answer.0 (a, answer.1) (stored a w)
        (finalizers-Staged _ app' (prepared-Staged app h))

  reconcile_from-Ordered :
      (d : Option ℤ) (app : ArksApplication) (s : S)
      → Ordered s.0
      → text_eq app.phase phase_failed ≡ text_eq (s.0).phase phase_failed
      → Post (λ _ t. Ordered t.0) Ends (reconcile_from k now d app s)
  reconcile_from-Ordered (some t) app s h e = h
  reconcile_from-Ordered none app s h e = elim (Bool-cases (text_eq app.phase phase_failed)) [
    | inl f ↦ rw f h
    | inr f ↦ rw f (elim h [
      | inl g ↦ absurd (cc (f, g, e))
      | inr g ↦ start-Ordered (has_finalizer app.finalizers finalizer) s g
    ])
  ]

  -- Every return of `reconcile`, the errors included, leaves the application failed or its stages in
  -- order, where they were so before and every object that the API server answers an update with has
  -- them in order.
  pub reconcile_application-Ordered :
      (app : ArksApplication) (w : W)
      → Ordered app
      → Post (λ _ t. Ordered t.0) Ends (reconcile_application k now (app, w))
  unfolding reconcile_application
  reconcile_application-Ordered app w h =
      reconcile_from-Ordered app.deletion_timestamp app (app, w) h refl
