-- ===== src/Metrics/Labelled.antt =====
-- pkg/gateway/metrics: the labels of what the collector updates.
use arks.Prelude.{none, ◌≡◌, Option, refl, ◌∷◌, if◌then◌else◌, some, List, length, All, [], ◌++◌}
use arks.Metrics.{
  request_total, update_rate_limit_tokens, collect, Text, Sample, Metric, update_quota_usage, text,
  request_duration, token_usage_vec, update_quota_limit, record_error, token_distribution,
  response_process_duration_ms, rate_limit_tokens, rate_limit_hits, quota_usage, quota_limit, ℤ,
  error_total,
}
use arks.QosConfig.{UserQos}
use arks.Gateway.Messages.{Metric, request_metric, token_usage, processing_time, rate_limit_hit}
use arks.Prelude.Text.{Text, text_eq, text}
use arks.Prelude.Int.{ℤ}

-- The value that an update gives a label.
abbrev label_value : List Text → List Text → Text → Option Text
label_value [] values name = none
label_value (l ∷ ls) [] name = none
label_value (l ∷ ls) (x ∷ xs) name = if text_eq l name then some x else label_value ls xs name

abbrev pub value_of : {F : Type 0} → Text → Sample F → Option Text
value_of name s = label_value s.vec.labels s.values name

-- One value for each label that the vector declares, which `WithLabelValues` panics without.
abbrev pub IsLabelled : {F : Type 0} → Sample F → Type 0
IsLabelled s = length s.values ≡ length s.vec.labels

-- The labels of a sample hold a namespace and a user.
abbrev pub IsOf : {F : Type 0} → UserQos → Sample F → Type 0
IsOf qos s =
    IsLabelled s
    × (value_of (text "namespace") s ≡ some qos.namespace)
    × (value_of (text "user") s ≡ some qos.user)

abbrev pub user_of : Metric → UserQos
user_of (request_metric qos model status) = qos
user_of (token_usage qos model prompt_tokens completion_tokens) = qos
user_of (processing_time qos model) = qos
user_of (rate_limit_hit qos rule_name) = qos

-- Whatever a handler records, each update has one value for each label of its vector, with the namespace
-- and the name of the user under the labels of these names.
pub collect-IsOf :
    {F : Type 0} (of_int64 : ℤ → F) (duration ms : F) (m : Metric)
    → All (IsOf (user_of m)) (collect of_int64 duration ms m)
unfolding collect request_total request_duration token_usage_vec token_distribution text_eq
    response_process_duration_ms rate_limit_hits
collect-IsOf of_int64 duration ms (request_metric qos model status) =
    ((refl, refl, refl), ((refl, refl, refl), tt))
collect-IsOf of_int64 duration ms (token_usage qos model prompt_tokens completion_tokens) =
    ((refl, refl, refl), ((refl, refl, refl), ((refl, refl, refl), ((refl, refl, refl), tt))))
collect-IsOf of_int64 duration ms (processing_time qos model) = ((refl, refl, refl), tt)
collect-IsOf of_int64 duration ms (rate_limit_hit qos rule_name) = ((refl, refl, refl), tt)

-- The updates that no handler makes yet have one value for each label too.
update-IsLabelled :
    {F : Type 0} (of_int64 : ℤ → F) (namespace model kind name : Text) (x : F)
    → All IsLabelled (
        update_rate_limit_tokens of_int64 namespace name model kind x
        ++ (update_quota_usage of_int64 namespace model name kind x
            ++ (update_quota_limit of_int64 namespace model name kind x
                ++ record_error of_int64 namespace model kind)))
unfolding update_rate_limit_tokens update_quota_usage update_quota_limit record_error
    rate_limit_tokens quota_usage quota_limit error_total
update-IsLabelled of_int64 namespace model kind name x = (refl, (refl, (refl, (refl, tt))))
