-- ===== src/Disaggregated/Scaled.antt =====
-- internal/controller/arksdisaggregatedapplication_controller.go: what the synchronisation of a
-- workload leaves.
use arks.Prelude.{
  none, refl, true, ap, inr, inl, sym, arith, ◌≡◌, Bool-cases, ◌∙◌, false, ◌⊎◌, Option-cases, ◌≢◌,
}
use arks.Controller.{goes_on}
use arks.Controller.Hoare.{Total, Total-goes_on}
use arks.Prelude.Int.{pos, negsuc}
use arks.Disaggregated.{
  ArksDisaggregatedApplication, Role, ℤ, ArksComponentStatus, prefill_role, decode_role,
  workload_of,
}
use arks.Disaggregated.Reconcile.{scale_lws, sync_workload, with_workload_status, component_status}
use arks.Disaggregated.Stages.{Cluster}
use arks.Application.Workload.{LeaderWorkerSet, ReplicaStatus}
use arks.Prelude.Int.{ℤ, equal_ℤ}
use mathlib.Core.Path.{subst}
use arks.Disaggregated.Workload.{workload_name, replicas_or_one}

equal_ℤ_eq : (a b : ℤ) → equal_ℤ a b ≡ true → a ≡ b
equal_ℤ_eq (pos a) (pos b) h = ap pos (ground arith)
equal_ℤ_eq (negsuc a) (negsuc b) h = ap negsuc (ground arith)
equal_ℤ_eq (pos a) (negsuc b) h = cc
equal_ℤ_eq (negsuc a) (pos b) h = cc

equal_ℤ_refl : (a : ℤ) → equal_ℤ a a ≡ true
equal_ℤ_refl (pos a) = ground arith
equal_ℤ_refl (negsuc a) = ground arith

-- What the API server promises: an update of a stored LeaderWorkerSet that succeeds replaces all but its
-- status, which only the status subresource changes.
abbrev pub KeepsLws : {W : Type 0} → Cluster W → Type 0
KeepsLws {W} k =
    (stored lws : LeaderWorkerSet) (w : W)
    → k.get_lws lws.namespace lws.name w ≡ inl stored
    → (k.update_lws lws w).0 ≡ none
    → k.get_lws lws.namespace lws.name (k.update_lws lws w).1
      ≡ inl (record lws { status = stored.status })

abbrev pub status_of : ArksDisaggregatedApplication → Role → ArksComponentStatus
status_of app prefill_role = app.prefill_status
status_of app decode_role = app.decode_status

module _ {W : Type 0} (k : Cluster W) (now : ℤ) (keeps : KeepsLws k) where
  -- The LeaderWorkerSet in the cluster has this many replicas.
  abbrev pub Scaled : LeaderWorkerSet → ℤ → W → Type 0
  Scaled lws replicas w =
      k.get_lws lws.namespace lws.name w ≡ inl (record lws { replicas = replicas })

  -- The update to this many replicas was needed, and failed.
  abbrev pub Unscaled : LeaderWorkerSet → ℤ → W → Type 0
  Unscaled lws replicas w =
      (equal_ℤ replicas lws.replicas ≡ false)
      × ((k.update_lws (record lws { replicas = replicas }) w).0 ≢ none)

  scale_lws-Scaled :
      (replicas : ℤ) (lws : LeaderWorkerSet) (app : ArksDisaggregatedApplication) (w : W)
      → k.get_lws lws.namespace lws.name w ≡ inl lws
      → Total
          (λ _ s. (s.0 ≡ app) × (Unscaled lws replicas w ⊎ Scaled lws replicas s.1))
          (λ _ _. ⊥)
          (scale_lws k now replicas lws (app, w))
  scale_lws-Scaled replicas lws app w h = elim (Bool-cases (equal_ℤ replicas lws.replicas)) [
    | inl e ↦
        rw e (refl, inr (subst (λ n. Scaled lws n w) (sym (equal_ℤ_eq replicas lws.replicas e)) h))
    | inr e ↦ rw e (
      refl,
      elim (Option-cases (k.update_lws (record lws { replicas = replicas }) w).0) [
        | inl u ↦ inr (keeps lws (record lws { replicas = replicas }) w h u)
        | inr (x, u) ↦ inl (refl, λ z. cc)
      ],
    )
  ]

  scaled-Synced :
      (role : Role) (app : ArksDisaggregatedApplication) (w : W) (lws : LeaderWorkerSet)
      → status_of (with_workload_status role lws.status app) role ≡ component_status lws.status
  scaled-Synced prefill_role app w lws = refl
  scaled-Synced decode_role app w lws = refl

  scale_lws-settled :
      (replicas : ℤ) (lws : LeaderWorkerSet) (s : ArksDisaggregatedApplication × W)
      → lws.replicas ≡ replicas
      → (scale_lws k now replicas lws s).1.1 ≡ s.1
  scale_lws-settled replicas lws s e = rw (ap (equal_ℤ replicas) e ∙ equal_ℤ_refl replicas) refl

  sync_workload-settled :
      (role : Role) (app : ArksDisaggregatedApplication) (status : ReplicaStatus) (w : W)
      (lws : LeaderWorkerSet)
      → k.get_lws app.namespace (workload_name app role) w ≡ inl lws
      → lws.replicas ≡ replicas_or_one (workload_of app role).replicas
      → (sync_workload k now role (with_workload_status role status app, w)).1.1 ≡ w
  unfolding sync_workload
  sync_workload-settled prefill_role app status w lws h e =
      rw h (scale_lws-settled (replicas_or_one app.prefill.replicas) lws _ e)
  sync_workload-settled decode_role app status w lws h e =
      rw h (scale_lws-settled (replicas_or_one app.decode.replicas) lws _ e)

  -- Where the LeaderWorkerSet of a workload is in the cluster, the synchronisation goes on, with the
  -- status that was read in the application. Unless an update of the replicas was needed and failed, it
  -- leaves the LeaderWorkerSet with the replicas that the workload asks for, 1 where the number is
  -- missing or negative, and it has settled: a second one leaves the cluster as it is.
  pub sync_workload-Scaled :
      (role : Role) (app : ArksDisaggregatedApplication) (w : W) (lws : LeaderWorkerSet)
      → lws.namespace ≡ app.namespace
      → lws.name ≡ workload_name app role
      → k.get_lws app.namespace (workload_name app role) w ≡ inl lws
      → (a : Unit {0}) × (s : ArksDisaggregatedApplication × W) × (sync_workload k now role (app, w)
          ≡ (goes_on a, s))
        × (status_of s.0 role ≡ component_status lws.status)
        × (Unscaled lws (replicas_or_one (workload_of app role).replicas) w
            ⊎ (Scaled lws (replicas_or_one (workload_of app role).replicas) s.1
                × ((sync_workload k now role s).1.1 ≡ s.1)))
  unfolding sync_workload
  sync_workload-Scaled role app w lws n m h =
      let app' = with_workload_status role lws.status app in
      let replicas = replicas_or_one (workload_of app role).replicas in
      let scaled : LeaderWorkerSet = record lws { replicas = replicas } in
      let named =
        λ (t : W). ap (λ x. k.get_lws x lws.name t) n ∙ ap (λ x. k.get_lws app.namespace x t) m in
      let step : sync_workload k now role (app, w) ≡ scale_lws k now replicas lws (app', w) =
        rw h refl in
      let (a, s, e, q) =
        Total-goes_on (λ _ s. (s.0 ≡ app') × (Unscaled lws replicas w ⊎ Scaled lws replicas s.1))
          (scale_lws k now replicas lws (app', w))
          (scale_lws-Scaled replicas lws app' w (named w ∙ h)) in
      (
        a,
        s,
        step ∙ e,
        rw q.0 (scaled-Synced role app w lws),
        elim q.1 [
          | inl failed ↦ inl failed
          | inr there ↦ inr (
            there,
            subst (λ x. (sync_workload k now role (x, s.1)).1.1 ≡ s.1) (sym q.0)
                (sync_workload-settled role app lws.status s.1 scaled (sym (named s.1) ∙ there)
                  refl),
          )
        ],
      )
