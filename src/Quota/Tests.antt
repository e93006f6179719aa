-- ===== src/Quota/Tests.antt =====
-- Examples for the quota service and the sync of quota usage.
use arks.Prelude.{none, inl, ◌≡◌, some, true, false, ◌∷◌, Option, refl, List, [], arith}
use arks.Provider.Sync.{used_of, after_usages, sync_usages-used}
use arks.Provider.{apply_sync, get_qos_by_token, Cluster, Synced, find_qos, sync_usages}
use arks.QosConfig.{
  UserQos, QuotaRequest, QuotaResult, QuotaItem, qos_to_quota_requests, to_quota_request,
  quota_requests,
}
use arks.Quota.{set_usage, incr_usage, get_usage, pos, generate}
use arks.Prelude.Text.{Text, ok, text, text_eq}
use arks.Api.{ArksQuota, ArksToken}
use arks.Services.{QuotaService}
use arks.Redis.Counters.{memory, memory_laws}
use arks.Prelude.Int.{pos}
use arks.Samples.{sample_quota, empty, sample_counts}
use arks.Quota.Counting.{incr_usage_lem}
use arks.Quota.Usage.{get_usage_lem}
use arks.Provider.Tokens.{IsListed, get_qos_by_token-Found}
use arks.Prelude.Decimal.{format_int}
use arks.Provider.Reset.{apply_sync-resets}

abbrev sample_usage : List QuotaRequest
sample_usage = qos_to_quota_requests sample_quota sample_counts

-- A counter that has counted 50 tokens.
abbrev counted : Text → Option Text
counted = λ k. some (text "50")

get_usage_lem_example : (get_usage memory (text "quota") sample_usage empty).1 (text "k") ≡ none
get_usage_lem_example =
    (get_usage_lem memory_laws (text "quota") sample_usage empty tt).3 (text "k")

incr_usage_lem_example : (incr_usage memory (text "quota") sample_usage empty).0 ≡ none
unfolding qos_to_quota_requests quota_requests to_quota_request text_eq
incr_usage_lem_example =
    (incr_usage_lem memory_laws (text "quota") sample_usage empty (λ j. 0) (refl, tt) tt (λ j. refl)
      (λ j. omega arith)).0

abbrev sample_arks_quota : ArksQuota
sample_arks_quota = record {
  name = text "basic";
  namespace = text "team";
  quotas = sample_quota.limits;
  quota_status = record { type = text "total"; used = pos 90; last_update_time = none } ∷ [];
}

abbrev sample_result : QuotaResult
sample_result = record {
  identifier = record { key = text "type"; value = text "total" } ∷ [];
  over_limit = false;
  current_usage = pos 50;
  limit_max = pos 100;
}

abbrev sample_service : QuotaService (Text → Option Text)
sample_service = record {
  incr_usage = incr_usage memory (text "quota");
  set_usage = set_usage memory (text "quota");
  get_usage = get_usage memory (text "quota");
}

abbrev pub sample_token : ArksToken
sample_token = record {
  name = text "ann";
  namespace = text "team";
  token = text "t";
  qos = record { arks_endpoint = text "qwen"; rate_limits = []; quota = [] } ∷ [];
}

abbrev pub sample_cluster : Cluster (Text → Option Text)
sample_cluster = record {
  list_tokens = λ t w. ok (sample_token ∷ []);
  get_quota = λ n q w. ok sample_arks_quota;
  list_endpoints = λ n w. ok (text "qwen" ∷ []);
  list_quotas = λ w. ok (sample_arks_quota ∷ []);
  update_quota_status = λ q w. (none, w);
}

sync_usages-used_example :
    used_of
      (text "total")
      (sync_usages (pos 0) (sample_result ∷ []) sample_arks_quota.quota_status).status
    ≡ after_usages
        (text "total")
        (sample_result ∷ [])
        (used_of (text "total") sample_arks_quota.quota_status)
sync_usages-used_example =
    sync_usages-used (pos 0) (sample_result ∷ []) sample_arks_quota.quota_status (text "total")

abbrev behind : Synced
behind = record { status = sample_arks_quota.quota_status; update_cr = false; update_quota = true }

abbrev sample_item : QuotaItem
sample_item = record { type = text "total"; value = pos 100 }

apply_sync-resets_example :
    apply_sync sample_cluster sample_service
      (pos 0)
      sample_arks_quota
      behind
      counted
      (generate (text "quota") (to_quota_request sample_quota [] sample_item))
    ≡ some (format_int (pos 0))
apply_sync-resets_example =
    apply_sync-resets memory_laws (text "quota") sample_cluster sample_service (pos 0)
      sample_arks_quota behind counted sample_item refl refl refl (inl refl) tt

abbrev found_qos : UserQos
found_qos = record {
  user = text "ann";
  namespace = text "team";
  model = text "qwen";
  quota_name = [];
  rate_limits = [];
}

get_qos_by_token-Found_example :
    IsListed sample_cluster (text "t") (text "qwen") empty (some found_qos)
unfolding get_qos_by_token find_qos text_eq
get_qos_by_token-Found_example =
    get_qos_by_token-Found sample_cluster (text "t") (text "qwen") empty (some found_qos) refl
