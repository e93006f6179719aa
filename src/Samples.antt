-- ===== src/Samples.antt =====
-- The data of the examples: a user with one rate limit, its requests, and a limiter over Redis.
use arks.Prelude.{none, List, [], ◌∷◌, Option}
use arks.QosConfig.{UserQos, QuotaConfig, CountMap}
use arks.RateLimiter.Limiter.{Moment, RedisRateLimiter}
use arks.RateLimiter.{RateLimitRequest, new_limit_config}
use arks.Prelude.Int.{pos}
use arks.Prelude.Text.{text, Text}
use arks.InstanceSpec.{ArksInstanceSpec}

abbrev pub sample_qos : UserQos
sample_qos = record {
  user = text "ann";
  namespace = text "team";
  model = text "qwen";
  quota_name = [];
  rate_limits = record { type = text "rpm"; value = pos 5 } ∷ [];
}

abbrev pub other_qos : UserQos
other_qos = record sample_qos { user = text "bob" }

abbrev pub sample_moment : Moment
sample_moment = record { now = 90000000000; draw = λ n. pos 0 }

abbrev pub sample_limiter : RedisRateLimiter
sample_limiter = record { prefix = text "arks"; config = new_limit_config; jitter = pos 0 }

abbrev pub sample_request : RateLimitRequest
sample_request = record {
  identifier = record { key = text "user"; value = text "ann" } ∷ [];
  rule_name = text "rpm";
  limit = pos 5;
  request = pos 1;
}

abbrev pub sample_requests : List RateLimitRequest
sample_requests = sample_request ∷ record sample_request { rule_name = text "none" } ∷ []

abbrev pub empty : Text → Option Text
empty = λ k. none

abbrev pub sample_quota : QuotaConfig
sample_quota = record {
  name = text "basic";
  namespace = text "team";
  limits = record { type = text "total"; value = pos 100 } ∷ [];
}

abbrev pub sample_counts : CountMap
sample_counts = (text "total", pos 7) ∷ []

abbrev pub sample_instance : ArksInstanceSpec
sample_instance = record {
  pod = record {
    scheduler_name = [];
    node_name = [];
    subdomain = [];
    priority_class_name = [];
    service_account_name = [];
  };
  resources = [];
  labels = [];
  annotations = [];
  env = [];
  volume_mounts = [];
  volumes = [];
  liveness_probe = none;
  readiness_probe = none;
  startup_probe = none;
  init_containers = [];
}
