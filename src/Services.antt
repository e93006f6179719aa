-- ===== src/Services.antt =====
-- The interfaces that the gateway's server is built from, over a state `W` that the calls may change:
-- `RateLimterInterface` (pkg/gateway/ratelimiter/rate_limiter.go), `QuotaService`
-- (pkg/gateway/quota/types.go) and `ConfigProvider` (pkg/gateway/qosconfig/provider.go).
-- `none` is Go's nil, for pointers and errors alike.
use arks.Prelude.{List, Option}
use arks.Prelude.Text.{Text, Result}
use arks.RateLimiter.{LimitRuleConfig, RateLimitRequest, RateLimitResponse}
use arks.QosConfig.{UserQos, QuotaConfig, QuotaRequest, QuotaResult}

pub record RateLimiterInterface (W : Type 0) : Type 0 where
  pub check_limit : List RateLimitRequest → W → Result (List (Option RateLimitResponse)) × W
  pub do_limit : List RateLimitRequest → W → Option Text × W
  pub get_rule_by_name : Text → Option LimitRuleConfig

pub record QuotaService (W : Type 0) : Type 0 where
  pub incr_usage : List QuotaRequest → W → Option Text × W
  pub set_usage : List QuotaRequest → W → Option Text × W
  pub get_usage : List QuotaRequest → W → Result (List QuotaResult) × W

-- The reads of the configuration are reads of a cache, which leave the state.
pub record ConfigProvider (W : Type 0) : Type 0 where
  pub get_qos_by_token : Text → Text → W → Result (Option UserQos)
  pub get_quota_config : Text → Text → W → Result QuotaConfig
  pub get_model_list : Text → W → Result (List Text)
  pub get_models_by_token : Text → W → Result (List Text)
