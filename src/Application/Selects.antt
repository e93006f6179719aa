-- ===== src/Application/Selects.antt =====
-- internal/controller/arksapplication_controller.go: which pods the service of an application
-- selects, and how many pods the LeaderWorkerSet asks for.
use arks.Prelude.{
  none, ◌≡◌, some, inl, refl, true, if◌then◌else◌, false, [], ◌∙◌, Bool, List, ◌∷◌, inr, Bool-cases,
  ap, ltb, arith, ◌<◌, ◌^◌,
}
use arks.RateLimiter.{lookup, insert}
use arks.Application.Workload.{
  generate_lws, generate_lws_labels, LeaderWorkerSet, generated_then, application_service,
  leader_worker_set, copy_labels, from_result, model_path, from_option, claim_of, at_least,
}
use arks.InstanceSpec.{Labels}
use arks.Prelude.Text.{text_eq, Text, eq_of_text_eq, text_eq-differ, text_eq_refl}
use arks.Application.Commands.{
  Generated, generated, Images, refused, dereferenced, get_runtime_image, generate_leader_command,
  generate_worker_command,
}
use arks.Application.{
  ArksApplication, key_work_load_role, key_application, key_model, role_leader, role_worker, ℤ,
}
use arks.ArksModel.{ArksModel}
use mathlib.Core.Path.{subst}
use arks.Prelude.Int.{pos_part, ℤ, pos, int32, int32-pos, negsuc}

pub lookup-insert {ℓ} :
    {A : Type ℓ} (k : Text) (v : A) (m : List (Text × A)) (i : Text)
    → lookup i (insert k v m) ≡ (if text_eq k i then some v else lookup i m)
lookup-insert k v [] i = refl
lookup-insert k v ((j, w) ∷ m) i = elim (Bool-cases (text_eq j k)) [
  | inl e ↦ rw e (
      rw (eq_of_text_eq j k e)
        (elim (Bool-cases (text_eq k i)) [ inl f ↦ rw f refl | inr f ↦ rw f refl ]))
  | inr e ↦ rw e (elim (Bool-cases (text_eq j i)) [
    | inl f ↦ rw (f, text_eq-differ j k i e f) refl
    | inr f ↦ rw f (lookup-insert k v m i)
  ])
]

-- Every label of a selector is a label of the pod.
abbrev pub selects : Labels → Labels → Bool
selects [] labels = true
selects ((k, v) ∷ rest) labels = elim (lookup k labels) [
  | some u ↦ if text_eq u v then selects rest labels else false
  | none ↦ false
]

-- What holds of the thing that is generated, where one is.
abbrev Made : {A : Type 0} → (A → Type 0) → Generated A → Type 0
Made P (generated a) = P a
Made P (refused message) = Unit
Made P dereferenced = Unit

Made-then :
    {A B : Type 0} (P : B → Type 0) (g : Generated A) (f : A → Generated B)
    → ((a : A) → Made P (f a))
    → Made P (generated_then g f)
Made-then P (generated a) f h = h a
Made-then P (refused message) f h = tt
Made-then P dereferenced f h = tt

generate_lws-Made :
    (P : LeaderWorkerSet → Type 0) (env : Images) (app : ArksApplication) (m : ArksModel)
    → ((claim_name image : Text) (leader worker : List Text)
        → P (leader_worker_set app claim_name image leader worker))
    → Made P (generate_lws env app m)
unfolding generate_lws
generate_lws-Made P env app m h = Made-then P (from_result (get_runtime_image env app)) _ (λ image.
    Made-then P (generate_leader_command app (model_path m)) _ (λ leader.
      Made-then P (generate_worker_command app (model_path m)) _ (λ worker.
        Made-then P (from_option (claim_of m.storage)) _
          (λ claim_name. h claim_name image leader worker))))

role_label :
    (app : ArksApplication) (role : Text)
    → lookup key_work_load_role (generate_lws_labels app role) ≡ some role
unfolding generate_lws_labels text_eq
role_label app role =
    let named = insert key_application app.name (copy_labels [] app.instance_spec.labels) in
    lookup-insert key_work_load_role role (insert key_model app.model named) key_work_load_role

application_label :
    (app : ArksApplication) (role : Text)
    → lookup key_application (generate_lws_labels app role) ≡ some app.name
unfolding generate_lws_labels text_eq
application_label app role =
    let copied = copy_labels [] app.instance_spec.labels in
    let named = insert key_application app.name copied in
    lookup-insert key_work_load_role role (insert key_model app.model named) key_application
    ∙ lookup-insert key_model app.model named key_application
    ∙ lookup-insert key_application app.name copied key_application

if_eta : (b : Bool) → (if b then true else false) ≡ b
if_eta true = refl
if_eta false = refl

selects-two :
    (j u k v r : Text) (labels : Labels)
    → lookup j labels ≡ some u
    → lookup k labels ≡ some r
    → selects ((j, u) ∷ (k, v) ∷ []) labels ≡ text_eq r v
selects-two j u k v r labels h g = rw (selects, h, g, text_eq_refl u) (if_eta (text_eq r v))

abbrev SelectsLeaders : ArksApplication → LeaderWorkerSet → Type 0
SelectsLeaders app lws =
    (selects (application_service app).selector lws.leader.labels ≡ true)
    × (selects (application_service app).selector lws.worker.labels ≡ false)

-- Whatever labels the user gives the pods, the service of an application selects the leaders of the
-- LeaderWorkerSet that is generated for it and none of the workers.
pub generate_lws-selects :
    (env : Images) (app : ArksApplication) (m : ArksModel) (lws : LeaderWorkerSet)
    → generate_lws env app m ≡ generated lws
    → (selects (application_service app).selector lws.leader.labels ≡ true)
      × (selects (application_service app).selector lws.worker.labels ≡ false)
unfolding text_eq
generate_lws-selects env app m lws e = subst (Made (SelectsLeaders app)) e (
    generate_lws-Made (SelectsLeaders app) env app m (λ claim_name image leader worker. (
      selects-two key_application app.name key_work_load_role role_leader role_leader
          (generate_lws_labels app role_leader) (application_label app role_leader)
          (role_label app role_leader),
      selects-two key_application app.name key_work_load_role role_leader role_worker
          (generate_lws_labels app role_worker) (application_label app role_worker)
          (role_label app role_worker),
    )))

abbrev Sized : ArksApplication → LeaderWorkerSet → Type 0
Sized app lws =
    (lws.replicas ≡ pos (pos_part app.replicas))
    × (lws.size ≡ pos (if ltb 1 (pos_part app.size) then pos_part app.size else 1))

at_least-zero : (z : ℤ) → at_least (pos 0) z ≡ pos (pos_part z)
at_least-zero (pos n) = ground arith
at_least-zero (negsuc n) = ground arith

at_least-one : (z : ℤ) → at_least (pos 1) z ≡ pos (if ltb 1 (pos_part z) then pos_part z else 1)
at_least-one (pos n) = ground arith
at_least-one (negsuc n) = ground arith

-- Where the replicas and the size that an application asks for are below 2^31, the LeaderWorkerSet
-- asks for as many replicas, none where the number is negative, and for groups of that size, at least
-- one.
generate_lws-Sized :
    (env : Images) (app : ArksApplication) (m : ArksModel) (lws : LeaderWorkerSet)
    → pos_part app.replicas < 2 ^ 31
    → pos_part app.size < 2 ^ 31
    → generate_lws env app m ≡ generated lws
    → (lws.replicas ≡ pos (pos_part app.replicas))
      × (lws.size ≡ pos (if ltb 1 (pos_part app.size) then pos_part app.size else 1))
generate_lws-Sized env app m lws hr hs e = subst (Made (Sized app)) e (
    generate_lws-Made (Sized app) env app m (λ claim_name image leader worker. (
      ap int32 (at_least-zero app.replicas) ∙ int32-pos (pos_part app.replicas) hr,
      ap int32 (at_least-one app.size)
          ∙ int32-pos (if ltb 1 (pos_part app.size) then pos_part app.size else 1) (ground arith),
    )))
