-- ===== src/Application/Running.antt =====
-- internal/controller/arksapplication_controller.go: what the stages of one pass leave, whatever the
-- cluster answers.
use arks.Prelude.{inr, Sum-cases, ◌≡◌, Option-cases, refl, ◌∙◌, ◌⊎◌, inl, false, Bool-cases}
use arks.Controller.Hoare.{Total, Total-returns, Total-and_then}
use arks.Application.Reconcile.{advance}
use arks.Application.Stages.{
  Cluster, has_condition, ensure_loaded, ensure_prechecked, prechecks, find_model, with_condition,
  in_phase, create_generated, names_models, mounts_models, ensure_lws, ensure_service,
  ensure_running, sync_status,
}
use arks.Application.Order.{Holds, InPhase}
use arks.Application.Safe.{IsSafe, HasClaim, generate_lws-IsSafe}
use arks.ArksModel.Steps.{Returned, is_not_found, is_already_exists}
use arks.ArksModel.Metadata.{check_condition-update}
use arks.Prelude.Int.{ℤ}
use arks.Application.Workload.{
  generate_application_service_name, LeaderWorkerSet, application_service, generate_lws,
}
use arks.Application.{
  ArksApplication, text_eq, Text, ready, loaded, phase_running, precheck, text, runtime_of,
  phase_loading, phase_checking, phase_creating, condition_false,
}
use arks.Application.Commands.{Generated, refused, generated, dereferenced}
use arks.ArksModel.{ArksModel, condition_true, condition_false}
use arks.Prelude.Text.{Text, text_eq, text}
use arks.Controller.{returns}
use arks.Application.Ended.{KeepsService, Named, HasService, Up, Gone, Ends}

module _ {W : Type 0} (k : Cluster W) (now : ℤ) where
  abbrev S : Type 0
  S = ArksApplication × W

  module _ (app : ArksApplication) where
    -- Before the stage in which it becomes ready.
    abbrev Unready : S → Type 0
    Unready s = Named k now app s × (has_condition s.0 ready ≡ false)

    abbrev Started : S → Type 0
    Started s =
        Named k now app s × Holds s.0 ready × InPhase s.0 phase_running × HasService k now app s

    abbrev Answers : Returned → S → Type 0
    Answers = Ends k now app

    abbrev State : (S → Type 0) → Unit {0} → S → Type 0
    State P _ s = P s

    set_true-Unready :
        (type reason message : Text) (s : S)
        → text_eq type ready ≡ false
        → Unready s
        → Unready (with_condition type condition_true reason message now s.0, s.1)
    set_true-Unready type reason message s e (n, h) = (
      n,
      check_condition-update (s.0).conditions type condition_true reason message now ready ∙ rw e h,
    )

    prechecks-Unready :
        (a : ArksApplication) (s : S)
        → Unready s
        → Total (State Unready) Answers (prechecks k now a s)
    unfolding text_eq
    prechecks-Unready a s h = elim (Option-cases (runtime_of a.runtime)) [
      | inl e ↦ rw (e, prechecks) (inr (inr (refl, inl refl)))
      | inr (x, e) ↦
          rw (e, prechecks)
            (elim (Bool-cases (names_models a.instance_spec.volumes)) [
              | inl n ↦ rw n (inr (inr (refl, inl refl)))
              | inr n ↦ rw n (elim (Bool-cases (mounts_models a.instance_spec.volume_mounts)) [
                | inl m ↦ rw m (inr (inr (refl, inl refl)))
                | inr m ↦ rw m (set_true-Unready precheck _ _ s refl h)
              ])
            ])
    ]

    ensure_prechecked-Unready :
        (s : S) → Unready s → Total (State Unready) Answers (ensure_prechecked k now s)
    unfolding ensure_prechecked
    ensure_prechecked-Unready (a, w) h = elim (Bool-cases (has_condition a precheck)) [
      | inl c ↦ rw c h
      | inr c ↦
          rw c (prechecks-Unready (in_phase phase_checking a) (in_phase phase_checking a, w) h)
    ]

    abbrev Found : ArksModel → S → Type 0
    Found m s = Unready s × (k.get_model (s.0).namespace (s.0).model s.1 ≡ inl m)

    find_model-Found : (s : S) → Unready s → Total Found Answers (find_model k now s)
    unfolding text_eq
    find_model-Found (a, w) h = elim (Sum-cases (k.get_model a.namespace a.model w)) [
      | inl (m, e) ↦ rw e (h, e)
      | inr (x, e) ↦ rw e (elim (Bool-cases (is_not_found x.kind)) [
        | inl n ↦ rw n (inr (inr (refl, inl refl)))
        | inr n ↦ rw n (inl (λ z. cc))
      ])
    ]

    ensure_loaded-Unready :
        (m : ArksModel) (s : S)
        → Found m s
        → Total (State Unready) Answers (ensure_loaded k now m s)
    unfolding ensure_loaded text_eq
    ensure_loaded-Unready m (a, w) (h, e) = elim (Bool-cases (has_condition a loaded)) [
      | inl l ↦ rw l h
      | inr l ↦ rw l (elim (Bool-cases (text_eq m.phase (text "Failed"))) [
        | inl f ↦ rw f (inr (inr (refl, inl refl)))
        | inr f ↦ rw f (elim (Bool-cases (text_eq m.phase (text "Ready"))) [
          | inl r ↦ rw r (set_true-Unready loaded _ _ (in_phase phase_loading a, w) refl h)
          | inr r ↦
              rw r
                (inr (inl (refl, record { model = m; found = e; not_failed = f; not_ready = r })))
        ])
      ])
    ]

    create_generated-Unready :
        (g : Generated LeaderWorkerSet) (s : S)
        → IsSafe g
        → Unready s
        → Total (State Unready) Answers (create_generated k now g s)
    create_generated-Unready dereferenced s g h = absurd g
    create_generated-Unready (refused message) s g h = inl (λ z. cc)
    create_generated-Unready (generated lws) (a, w) g h =
        elim (Option-cases (k.create_lws lws w).0) [
          | inl e ↦ rw e h
          | inr (x, e) ↦ rw e (elim (Bool-cases (is_already_exists x.kind)) [
            | inl n ↦ rw n h
            | inr n ↦ rw n (inl (λ z. cc))
          ])
        ]

    ensure_lws-Unready :
        (m : ArksModel) (s : S)
        → HasClaim m
        → Unready s
        → Total (State Unready) Answers (ensure_lws k now m s)
    unfolding ensure_lws
    ensure_lws-Unready m (a, w) g h = elim (Sum-cases (k.get_lws a.namespace a.name w)) [
      | inl (lws, e) ↦ rw e h
      | inr (x, e) ↦ rw e (elim (Bool-cases (is_not_found x.kind)) [
        | inl n ↦ rw n (
            create_generated-Unready (generate_lws k.images a m) (a, w)
              (generate_lws-IsSafe k.images a m g) h)
        | inr n ↦ rw n (inl (λ z. cc))
      ])
    ]

    module _ (keeps : KeepsService k) where
      abbrev Served : S → Type 0
      Served s = Unready s × HasService k now app s

      ensure_service-Served :
          (s : S) → Unready s → Total (State Served) Answers (ensure_service k now s)
      unfolding ensure_service
      ensure_service-Served (a, w) h =
          let service = application_service a in
          elim (Option-cases
            (k.get_service a.namespace (generate_application_service_name a.name) w)) [
              | inl e ↦ rw e (h, e)
              | inr (x, e) ↦ rw e (elim (Bool-cases (is_not_found x.kind)) [
                | inr n ↦ rw n (inl (λ z. cc))
                | inl n ↦ rw n (elim (Option-cases (k.create_service service w).0) [
                  | inl f ↦ rw f (h, keeps.created service w f)
                  | inr (y, f) ↦ rw f (elim (Bool-cases (is_already_exists y.kind)) [
                    | inl b ↦ rw b (h, keeps.exists service w y f b)
                    | inr b ↦ rw b (inl (λ z. cc))
                  ])
                ])
              ])
            ]

      ensure_running-Started :
          (m : ArksModel) (s : S)
          → HasClaim m
          → Unready s
          → Total (State Started) Answers (ensure_running k now m s)
      unfolding ensure_running text_eq
      ensure_running-Started m (a, w) g (n, h) =
          let started : S = (in_phase phase_creating a, w) in
          rw h (
            Total-and_then (State Unready) (State Started) Answers (ensure_lws k now m) _ started
              (ensure_lws-Unready m started g (n, h))
              (λ _ t u.
                Total-and_then (State Served) (State Started) Answers (ensure_service k now) _ t
                  (ensure_service-Served t u)
                  (λ _ x (y, z). (
                    y.0,
                    check_condition-update (x.0).conditions ready condition_true (text "Running")
                        (text "The LLM service is running") now ready,
                    refl,
                    z,
                  ))))

      abbrev Synced : S → Type 0
      Synced s = Gone k now app s ⊎ Up k now app s

      sync_status-Synced : (s : S) → Started s → Total (State Synced) Answers (sync_status k now s)
      unfolding sync_status text_eq
      sync_status-Synced (a, w) (n, h, p, z) = elim (Sum-cases (k.get_lws a.namespace a.name w)) [
        | inl (lws, e) ↦ rw e (
            inr (record {
              named = n;
              is_ready = h;
              is_running = p;
              service = z;
              lws = lws;
              found = e;
              replicas_eq = refl;
              ready_eq = refl;
              updated_eq = refl;
            }))
        | inr (x, e) ↦ rw e (elim (Bool-cases (is_not_found x.kind)) [
          | inl b ↦ rw b (
              inl (record {
                missing = x;
                asked = e;
                not_found = b;
                not_ready =
                    check_condition-update a.conditions ready condition_false
                      (text "UnderlyingNotExit") (text "The underlying LWS doesn't exist") now
                      ready;
              }))
          | inr b ↦ rw b (inl (λ z. cc))
        ])
      ]

      module _
          (claims : (namespace name : Text) (w : W) (m : ArksModel)
            → k.get_model namespace name w ≡ inl m
            → HasClaim m) where
        -- Where every model that the cluster shows has a storage with a claim, and a service that
        -- was created or exists already is there, a pass of `advance` over an application that is
        -- not ready returns. It returns an error; or it asks to be called again after 3 seconds,
        -- the model being neither ready nor failed; or it returns with neither, and the application
        -- has failed, or is not ready as its LeaderWorkerSet is missing at the end, or is ready and
        -- running under its name, with its service there and the replicas of the LeaderWorkerSet
        -- that is there.
        pub advance-Ended :
            (w : W)
            → has_condition app ready ≡ false
            → (r : Returned) × (s : S) × (advance k now (app, w) ≡ (returns r, s))
              × Ends k now app r s
        unfolding advance
        advance-Ended w h = Total-returns Answers (advance k now (app, w)) (
            Total-and_then (State Unready) (λ _ _. ⊥) Answers (ensure_prechecked k now) _ (app, w)
              (ensure_prechecked-Unready (app, w) ((refl, refl), h))
              (λ _ t c.
                Total-and_then Found (λ _ _. ⊥) Answers (find_model k now) _ t
                  (find_model-Found t c)
                  (λ m u d.
                    let claim = claims (u.0).namespace (u.0).model u.1 m d.1 in
                    Total-and_then (State Unready) (λ _ _. ⊥) Answers (ensure_loaded k now m) _ u
                      (ensure_loaded-Unready m u d)
                      (λ _ v l.
                        Total-and_then (State Started) (λ _ _. ⊥) Answers (ensure_running k now m) _
                          v (ensure_running-Started m v claim l)
                          (λ _ x l'.
                            Total-and_then (State Synced) (λ _ _. ⊥) Answers (sync_status k now) _ x
                              (sync_status-Synced x l') (λ _ y z. inr (inr (refl, inr z))))))))
