-- ===== src/Provider.antt =====
-- pkg/gateway/qosconfig/arks_impl.go: the configuration read from the cluster, and the sync of quota
-- usage between the quota service and the ArksQuota objects.
-- The Kubernetes client is the parameter `Cluster`.
pub mod Tokens
pub mod Sync
pub mod Reset
pub mod Ticks
pub mod Tests
use arks.Prelude.{
  Bool, true, false, List, [], ◌∷◌, ◌++◌, Option, none, some, map, if◌then◌else◌, not,
}
use arks.Prelude.Int.{ℤ, ltb_ℤ}
use arks.Prelude.Text.{Text, text, text_eq, Result, ok, err}
use arks.RateLimiter.{Label}
use arks.QosConfig.{UserQos, QuotaConfig, QuotaResult, qos_to_quota_requests}
use arks.Api.{ArksQos, ArksToken, QuotaStatus, ArksQuota}
use arks.Services.{QuotaService, ConfigProvider}

-- `list_tokens` is the list by the index on `spec.token`, `list_endpoints` gives the names of the
-- ArksEndpoints of a namespace.
pub record Cluster (W : Type 0) : Type 0 where
  pub list_tokens : Text → W → Result (List ArksToken)
  pub get_quota : Text → Text → W → Result ArksQuota
  pub list_endpoints : Text → W → Result (List Text)
  pub list_quotas : W → Result (List ArksQuota)
  pub update_quota_status : ArksQuota → W → Option Text × W

-- The loop over `obj.Spec.Qos`.
unfoldable pub find_qos : ArksToken → Text → List ArksQos → Result (Option UserQos)
find_qos obj model [] = err (text "model not found: " ++ model)
find_qos obj model (qos ∷ rest) =
    if text_eq qos.arks_endpoint model
    then ok (
        some (record {
          user = obj.name;
          namespace = obj.namespace;
          model = qos.arks_endpoint;
          quota_name = qos.quota;
          rate_limits = qos.rate_limits;
        }))
    else find_qos obj model rest

abbrev pub with_first {ℓ} :
    {A : Type ℓ} → Text → Result (List ArksToken) → (ArksToken → Result A) → Result A
with_first token (err message) f = err message
with_first token (ok []) f = err (text "token not found: " ++ token)
with_first token (ok (obj ∷ rest)) f = f obj

abbrev to_quota_config : Result ArksQuota → Result QuotaConfig
to_quota_config (err message) = err message
to_quota_config (ok obj) =
    ok (record { name = obj.name; namespace = obj.namespace; limits = obj.quotas })

module _ {W : Type 0} (k : Cluster W) where
  unfoldable pub get_qos_by_token : Text → Text → W → Result (Option UserQos)
  unfolding find_qos
  get_qos_by_token token model w =
      with_first token (k.list_tokens token w) (λ obj. find_qos obj model obj.qos)

  unfoldable pub get_quota_config : Text → Text → W → Result QuotaConfig
  get_quota_config namespace quota_name w = to_quota_config (k.get_quota namespace quota_name w)

  unfoldable pub get_model_list : Text → W → Result (List Text)
  get_model_list namespace w = k.list_endpoints namespace w

  unfoldable pub get_models_by_token : Text → W → Result (List Text)
  get_models_by_token token w =
      with_first token (k.list_tokens token w) (λ obj. ok (map (λ q. q.arks_endpoint) obj.qos))

-- The value of the first label `type`.
unfoldable pub quota_type : List Label → Text
quota_type [] = []
quota_type (label ∷ rest) = if text_eq label.key (text "type") then label.value else quota_type rest

-- The status list after one usage, and whether the ArksQuota or the quota service is behind.
pub record Synced : Type 0 where
  pub status : List QuotaStatus
  pub update_cr : Bool
  pub update_quota : Bool

abbrev status_of : Text → ℤ → ℤ → QuotaStatus
status_of type used now = record { type = type; used = used; last_update_time = some now }

abbrev keep_status : QuotaStatus → Synced → Synced
keep_status s rest = record rest { status = s ∷ rest.status }

-- One round of the loop over the usages, with the flags that it raises.
unfoldable pub sync_status : ℤ → Text → ℤ → List QuotaStatus → Synced
sync_status now type current [] = record {
  status = status_of type current now ∷ [];
  update_cr = true;
  update_quota = false;
}
sync_status now type current (s ∷ rest) =
    if text_eq s.type type
    then (if ltb_ℤ s.used current
        then record {
          status = record s { used = current; last_update_time = some now } ∷ rest;
          update_cr = true;
          update_quota = false;
        }
        else record { status = s ∷ rest; update_cr = false; update_quota = ltb_ℤ current s.used })
    else keep_status s (sync_status now type current rest)

or : Bool → Bool → Bool
or true b = true
or false b = b

abbrev raise : Bool → Bool → Synced → Synced
raise cr quota s = record s {
  update_cr = or cr s.update_cr;
  update_quota = or quota s.update_quota;
}

-- The loop over the usages of one quota; a flag once raised stays.
unfoldable pub sync_usages : ℤ → List QuotaResult → List QuotaStatus → Synced
unfolding sync_status quota_type or
sync_usages now [] status = record { status = status; update_cr = false; update_quota = false }
sync_usages now (u ∷ rest) status =
    let s = sync_status now (quota_type u.identifier) u.current_usage status in
    raise s.update_cr s.update_quota (sync_usages now rest s.status)

abbrev pub quota_config : ArksQuota → QuotaConfig
quota_config quota = record {
  name = quota.name;
  namespace = quota.namespace;
  limits = quota.quotas;
}

module _ {W : Type 0} (k : Cluster W) (q : QuotaService W) (now : ℤ) where
  -- `SetUsage`, and then the status update; neither error changes what follows.
  abbrev pub apply_sync : ArksQuota → Synced → W → W
  apply_sync quota s w =
      let requests = qos_to_quota_requests (quota_config quota) [] in
      let w' = if s.update_quota then (q.set_usage requests w).1 else w in
      if s.update_cr
      then (k.update_quota_status (record quota { quota_status = s.status }) w').1
      else w'

  abbrev pub after_usage : ArksQuota → Result (List QuotaResult) → W → W
  after_usage quota (err message) w = w
  after_usage quota (ok usage) w = apply_sync quota (sync_usages now usage quota.quota_status) w

  -- The body of the loop over the quotas.
  unfoldable pub sync_quota : ArksQuota → W → W
  unfolding sync_usages
  sync_quota quota w =
      let (usage, w') = q.get_usage (qos_to_quota_requests (quota_config quota) []) w in
      after_usage quota usage w'

  abbrev pub sync_quotas : List ArksQuota → W → W
  sync_quotas [] w = w
  sync_quotas (quota ∷ rest) w = sync_quotas rest (sync_quota quota w)

  abbrev pub sync_listed : Result (List ArksQuota) → W → Option Text × W
  sync_listed (err message) w = (some message, w)
  sync_listed (ok quotas) w = (none, sync_quotas quotas w)

  unfoldable pub sync_quota_usage : W → Option Text × W
  unfolding sync_quota
  sync_quota_usage w = sync_listed (k.list_quotas w) w

-- `ArksProvider` as the `ConfigProvider` that the gateway's handlers call.
abbrev pub arks_provider : {W : Type 0} → Cluster W → ConfigProvider W
arks_provider k = record {
  get_qos_by_token = get_qos_by_token k;
  get_quota_config = get_quota_config k;
  get_model_list = get_model_list k;
  get_models_by_token = get_models_by_token k;
}
