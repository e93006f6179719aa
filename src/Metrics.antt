-- ===== src/Metrics.antt =====
-- pkg/gateway/metrics: the vectors that the gateway registers and the collector that updates them. The
-- Prometheus client is not part of the repository: an update is the call `WithLabelValues` of a vector
-- with the values of the labels, and what is done to the metric that it gives. The help texts and
-- the buckets of the histograms are left out.
pub mod Labelled
pub mod Tests
use arks.Prelude.{none, List, [], ◌∷◌}
use arks.Prelude.Text.{text, Text}
use arks.Prelude.Int.{ℤ}
use arks.Gateway.Messages.{Metric, request_metric, token_usage, processing_time, rate_limit_hit}
use arks.Prelude.Decimal.{format_int}

pub record MetricVec : Type 0 where
  pub name : Text
  pub labels : List Text

-- `F` is float64, with the conversion of an int64.
pub data Update (F : Type 0) : Type 0 where
  inc : Update F
  add : F → Update F
  observe : F → Update F
  set : F → Update F

pub record Sample (F : Type 0) : Type 0 where
  pub vec : MetricVec
  pub values : List Text
  pub update : Update F

abbrev pub sample : {F : Type 0} → MetricVec → List Text → Update F → Sample F
sample vec values update = record { vec = vec; values = values; update = update }

abbrev user_labels : List Text
user_labels = text "namespace" ∷ text "user" ∷ text "model" ∷ []

abbrev token_labels : List Text
token_labels = text "namespace" ∷ text "user" ∷ text "token" ∷ text "type" ∷ []

abbrev quota_labels : List Text
quota_labels = text "namespace" ∷ text "model" ∷ text "quota_name" ∷ text "quota_type" ∷ []

unfoldable pub request_total : MetricVec
request_total = record {
  name = text "gateway_requests_total";
  labels = text "namespace" ∷ text "user" ∷ text "model" ∷ text "status" ∷ [];
}

unfoldable pub request_duration : MetricVec
request_duration = record { name = text "gateway_request_duration_seconds"; labels = user_labels }

unfoldable pub response_process_duration_ms : MetricVec
response_process_duration_ms = record {
  name = text "gateway_response_process_duration_milliseconds";
  labels = user_labels;
}

unfoldable pub token_usage_vec : MetricVec
token_usage_vec = record { name = text "gateway_token_usage"; labels = token_labels }

unfoldable pub token_distribution : MetricVec
token_distribution = record { name = text "gateway_token_distribution"; labels = token_labels }

unfoldable pub rate_limit_hits : MetricVec
rate_limit_hits = record {
  name = text "gateway_rate_limit_hits_total";
  labels = text "namespace" ∷ text "user" ∷ text "model" ∷ text "rule_type" ∷ [];
}

unfoldable pub rate_limit_tokens : MetricVec
rate_limit_tokens = record {
  name = text "gateway_rate_limit_tokens";
  labels = text "namespace" ∷ text "user" ∷ text "model" ∷ text "rule_type" ∷ [];
}

unfoldable pub quota_usage : MetricVec
quota_usage = record { name = text "gateway_quota_usage"; labels = quota_labels }

unfoldable pub quota_limit : MetricVec
quota_limit = record { name = text "gateway_quota_limit"; labels = quota_labels }

unfoldable pub error_total : MetricVec
error_total = record {
  name = text "gateway_errors_total";
  labels = text "namespace" ∷ text "model" ∷ text "error_type" ∷ [];
}

module _ {F : Type 0} (of_int64 : ℤ → F) where
  unfoldable pub record_request : Text → Text → Text → F → Text → List (Sample F)
  record_request namespace user model duration status =
      sample request_total (namespace ∷ user ∷ model ∷ status ∷ []) inc
      ∷ sample request_duration (namespace ∷ user ∷ model ∷ []) (observe duration)
      ∷ []

  unfoldable pub record_token_usage : Text → Text → Text → ℤ → ℤ → List (Sample F)
  record_token_usage namespace user model input_tokens output_tokens =
      let input = namespace ∷ user ∷ model ∷ text "input" ∷ [] in
      let output = namespace ∷ user ∷ model ∷ text "output" ∷ [] in
      sample token_usage_vec input (add (of_int64 input_tokens))
      ∷ sample token_usage_vec output (add (of_int64 output_tokens))
      ∷ sample token_distribution input (observe (of_int64 input_tokens))
      ∷ sample token_distribution output (observe (of_int64 output_tokens))
      ∷ []

  unfoldable pub record_resp_processing_time : Text → Text → Text → F → List (Sample F)
  record_resp_processing_time namespace user model ms =
      sample response_process_duration_ms (namespace ∷ user ∷ model ∷ []) (observe ms) ∷ []

  unfoldable pub record_rate_limit_hit : Text → Text → Text → Text → List (Sample F)
  record_rate_limit_hit namespace user model rule_type =
      sample rate_limit_hits (namespace ∷ user ∷ model ∷ rule_type ∷ []) inc ∷ []

  unfoldable pub update_rate_limit_tokens : Text → Text → Text → Text → F → List (Sample F)
  update_rate_limit_tokens namespace user model rule_type tokens =
      sample rate_limit_tokens (namespace ∷ user ∷ model ∷ rule_type ∷ []) (set tokens) ∷ []

  unfoldable pub update_quota_usage : Text → Text → Text → Text → F → List (Sample F)
  update_quota_usage namespace model quota_name quota_type usage =
      sample quota_usage (namespace ∷ model ∷ quota_name ∷ quota_type ∷ []) (set usage) ∷ []

  unfoldable pub update_quota_limit : Text → Text → Text → Text → F → List (Sample F)
  update_quota_limit namespace model quota_name quota_type limit =
      sample quota_limit (namespace ∷ model ∷ quota_name ∷ quota_type ∷ []) (set limit) ∷ []

  unfoldable pub record_error : Text → Text → Text → List (Sample F)
  record_error namespace model error_type =
      sample error_total (namespace ∷ model ∷ error_type ∷ []) inc ∷ []

  -- What the handlers record, with the durations that they measure in seconds and in milliseconds.
  unfoldable pub collect : F → F → Metric → List (Sample F)
  unfolding record_request record_token_usage record_resp_processing_time record_rate_limit_hit
  collect duration ms (request_metric qos model status) =
      record_request qos.namespace qos.user model duration (format_int status)
  collect duration ms (token_usage qos model prompt_tokens completion_tokens) =
      record_token_usage qos.namespace qos.user model prompt_tokens completion_tokens
  collect duration ms (processing_time qos model) =
      record_resp_processing_time qos.namespace qos.user model ms
  collect duration ms (rate_limit_hit qos rule_name) =
      record_rate_limit_hit qos.namespace qos.user qos.model rule_name
