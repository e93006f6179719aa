-- ===== src/Provider/Tests.antt =====
-- pkg/gateway/qosconfig/arks_impl.go: two ticks over a cluster with one quota, for the theorem on ticks.
use arks.Prelude.{
  none, ◌∙◌, [], List, ◌⊎◌, inl, Option, ◌≡◌, Bool-cases, some, ◌∷◌, inr, refl, if◌then◌else◌, All,
  false,
}
use arks.Provider.Ticks.{tick, start, IsAt, QuotaLaws, Ticks-NotLowered, Shows, Distinct}
use arks.Provider.{sync_quota_usage, Cluster, QuotaStatus, ArksQuota, Text, QuotaService}
use arks.Provider.Sync.{used_of, NotLowered}
use arks.Services.{QuotaService}
use arks.Api.{ArksQuota, QuotaStatus}
use arks.Prelude.Text.{Text, text, text_eq, ok, eq_of_text_eq}
use arks.Prelude.Int.{pos, ℤ}
use mathlib.Core.Path.{subst}

abbrev stored : List QuotaStatus → ArksQuota
stored status = record {
  namespace = text "team";
  name = text "basic";
  quotas = record { type = text "total"; value = pos 100 } ∷ [];
  quota_status = status;
}

abbrev tick_shown : Text → Text → Text → List QuotaStatus → Option ℤ
tick_shown namespace name type w =
    if text_eq (text "team") namespace
    then if text_eq (text "basic") name then used_of type w else none
    else none

abbrev tick_cluster : Cluster (List QuotaStatus)
tick_cluster = record {
  list_tokens = λ token w. ok [];
  get_quota = λ namespace name w. ok (stored w);
  list_endpoints = λ namespace w. ok [];
  list_quotas = λ w. ok (stored w ∷ []);
  update_quota_status = λ quota w. (
    none,
    if text_eq quota.namespace (text "team")
        then if text_eq quota.name (text "basic") then quota.quota_status else w
        else w,
  );
}

abbrev tick_service : QuotaService (List QuotaStatus)
tick_service = record {
  incr_usage = λ requests w. (none, w);
  set_usage = λ requests w. (none, w);
  get_usage = λ requests w. (
    ok (
        record {
          identifier = record { key = text "type"; value = text "total" } ∷ [];
          over_limit = false;
          current_usage = pos 7;
          limit_max = pos 100;
        }
        ∷ []),
    w,
  );
}

tick_updated :
    (quota : ArksQuota) (w : List QuotaStatus) (namespace name type : Text)
    → (tick_shown namespace name type (tick_cluster.update_quota_status quota w).1
        ≡ tick_shown namespace name type w)
      ⊎ (IsAt namespace name quota
          × (tick_shown namespace name type (tick_cluster.update_quota_status quota w).1
              ≡ used_of type quota.quota_status))
tick_updated quota w namespace name type =
    elim (Bool-cases (text_eq quota.namespace (text "team"))) [
      | inr a ↦ inl (rw a refl)
      | inl a ↦ elim (Bool-cases (text_eq quota.name (text "basic"))) [
        | inr b ↦ inl (rw (a, b) refl)
        | inl b ↦ elim (Bool-cases (text_eq (text "team") namespace)) [
          | inr c ↦ inl (rw c refl)
          | inl c ↦ elim (Bool-cases (text_eq (text "basic") name)) [
            | inr d ↦ inl (rw (c, d) refl)
            | inl d ↦ inr (
              (
                eq_of_text_eq quota.namespace (text "team") a
                    ∙ eq_of_text_eq (text "team") namespace c,
                eq_of_text_eq quota.name (text "basic") b ∙ eq_of_text_eq (text "basic") name d,
              ),
              rw (a, b, c, d) refl,
            )
          ]
        ]
      ]
    ]

tick_listed :
    (w : List QuotaStatus) (quotas : List ArksQuota)
    → tick_cluster.list_quotas w ≡ ok quotas
    → All (Shows tick_shown w) quotas × Distinct quotas
unfolding text_eq
tick_listed w quotas e =
    let p : stored w ∷ [] ≡ quotas = cc in
    subst (λ x. All (Shows tick_shown w) x × Distinct x) p (((λ type. refl), tt), (tt, tt))

abbrev tick_laws : QuotaLaws tick_cluster tick_service
tick_laws = record {
  shown = tick_shown;
  listed = tick_listed;
  updated = tick_updated;
  asked = λ requests w namespace name type. refl;
  set = λ requests w namespace name type. refl;
}

abbrev five : List QuotaStatus
five = record { type = text "total"; used = pos 5; last_update_time = none } ∷ []

Ticks-NotLowered_example : NotLowered (some (pos 5)) (
    used_of
      (text "total")
      (sync_quota_usage tick_cluster tick_service
        (pos 1)
        (sync_quota_usage tick_cluster tick_service (pos 0) five).1).1)
unfolding text_eq
Ticks-NotLowered_example =
    Ticks-NotLowered tick_cluster tick_service tick_laws {w = five} (text "team") (text "basic")
      (text "total") (tick (pos 1) (tick (pos 0) start))
