-- ===== src/Provider/Reset.antt =====
-- pkg/gateway/qosconfig/arks_impl.go: what the sync of quota usage writes to the quota service.
use arks.Prelude.{
  inl, some, refl, inr, List, [], ◌∷◌, Option, ◌≡◌, true, Bool-cases, ◌∙◌, false, ◌⊎◌,
}
use arks.Provider.{
  Cluster, QuotaConfig, QuotaService, Synced, apply_sync, quota_config, qos_to_quota_requests,
}
use arks.Prelude.Int.{ℤ, pos}
use arks.Prelude.Text.{Text, text_eq, text_eq_refl}
use arks.QosConfig.{QuotaItem, QuotaConfig, quota_requests, to_quota_request, qos_to_quota_requests}
use arks.Api.{ArksQuota}
use arks.Redis.{Redis, RedisView, RedisLaws}
use arks.Services.{QuotaService}
use arks.Prelude.Decimal.{format_int}
use arks.Quota.Counting.{written, set_usage_lem}
use arks.Quota.{set_usage, generate}

module _ {r : Redis} {v : RedisView r} (l : RedisLaws v) (prefix : Text) where
  abbrev pub In : QuotaItem → List QuotaItem → Type 0
  In item [] = ⊥
  In item (x ∷ rest) = (x ≡ item) ⊎ In item rest

  written-zero :
      (conf : QuotaConfig) (items : List QuotaItem) (j : Text) (o : Option Text)
      → o ≡ some (format_int (pos 0))
      → written prefix (quota_requests conf [] items) j o ≡ some (format_int (pos 0))
  unfolding quota_requests to_quota_request
  written-zero conf [] j o h = h
  written-zero conf (item ∷ items) j o h =
      written-zero conf items j _
        (elim (Bool-cases (text_eq (generate prefix (to_quota_request conf [] item)) j)) [
          | inl e ↦ rw e refl
          | inr e ↦ rw e h
        ])

  written-In :
      (conf : QuotaConfig) (items : List QuotaItem) (item : QuotaItem) (o : Option Text)
      → In item items
      → written prefix
          (quota_requests conf [] items)
          (generate prefix (to_quota_request conf [] item))
          o
        ≡ some (format_int (pos 0))
  unfolding quota_requests to_quota_request
  written-In conf [] item o i = absurd i
  written-In conf (x ∷ items) item o (inl e) =
      let key = generate prefix (to_quota_request conf [] item) in
      written-zero conf items key _ (rw (e, text_eq_refl key) refl)
  written-In conf (x ∷ items) item o (inr i) = written-In conf items item _ i

  -- On a reachable Redis, when the sync has found that the quota service counts less than the status
  -- shows, and no status to update, it writes 0 into the counter of every type of the quota, instead
  -- of what the status shows.
  pub apply_sync-resets :
      (k : Cluster r.Store) (q : QuotaService r.Store) (now : ℤ) (quota : ArksQuota) (s : Synced)
      (w : r.Store) (item : QuotaItem)
      → q.set_usage ≡ set_usage r prefix
      → s.update_quota ≡ true
      → s.update_cr ≡ false
      → In item quota.quotas
      → v.Reachable w
      → v.read
          (apply_sync k q now quota s w)
          (generate prefix (to_quota_request (quota_config quota) [] item))
        ≡ some (format_int (pos 0))
  unfolding qos_to_quota_requests
  apply_sync-resets k q now quota s w item e uq uc i up =
      let conf = quota_config quota in
      let key = generate prefix (to_quota_request conf [] item) in
      let (fine, same) = set_usage_lem l prefix (qos_to_quota_requests conf []) w up in
      rw (uc, uq, e) (same key ∙ written-In conf quota.quotas item (v.read w key) i)
