-- ===== src/Gateway/Tests.antt =====
-- Examples for the gateway: a server whose limits and quota let every request through, and whose
-- world counts the calls that count.
use arks.Prelude.{none, ℕ, false, ◌∷◌, some, true, ◌↔◌, suc, refl, ◌≡◌, [], arith, ◌/◌}
use arks.Gateway.Response.Stream.{stream_parts, HasUsage, stream_parts-usage_before_end}
use arks.Gateway.Messages.{
  RequestFields, HeaderValue, State, Decoded, ResponseFields, Server, Codec, CompletionUsage,
  request_headers, response_body, response_headers, request_body, go_on_body,
}
use arks.Gateway.Stages.{IsAdmitted}
use arks.Gateway.Request.{
  handle_request_body, handle_request_headers, after_parse, admitted_headers, after_qos,
  after_models, check_request, count_request, contains,
}
use arks.Gateway.Process.Answered.{Answered, process-goes_on}
use arks.Gateway.Response.{last_usage, handle_response_body}
use arks.Prelude.Text.{Text, text, ok, text_eq}
use arks.Gateway.Response.Parts.{seen, before_last, whole_answer, handle_response_body-parts}
use arks.Gateway.Process.{process_message, start, crashed}
use arks.Gateway.Keys.{IsPlain, IsRuleName, counter_key, counter_key-eq_iff}
use arks.Samples.{other_qos, sample_qos, sample_quota}
use arks.Prelude.Int.{pos}
use arks.Gateway.Auth.{HasToken}
use arks.RateLimiter.{get_rule, new_limit_config, add_rule, rpm}
use arks.Gateway.Admitted.{handle_request_body-IsAdmitted}
use arks.Gateway.Process.Panics.{NeedsQos, process_message-crashed_iff}
use arks.Gateway.Limits.{check_rate_limit, limit_requests, do_request_rate_limit}
use arks.RateLimiter.Rules.{seconds}

abbrev sample_usage : CompletionUsage
sample_usage = record { prompt_tokens = pos 3; completion_tokens = pos 4; total_tokens = pos 7 }

abbrev sample_response : ResponseFields
sample_response = record { model = text "qwen"; usage = sample_usage }

abbrev sample_fields : RequestFields
sample_fields = record { model = text "qwen"; stream = none; stream_options = none }

abbrev sample_decoded : Decoded
sample_decoded = record {
  chunks = record { choices = 0; usage = sample_usage } ∷ [];
  failure = none;
}

abbrev pub sample_codec : Codec
sample_codec = record {
  error_message = λ message code. message;
  parse_request = λ body. some sample_fields;
  parse_response = λ body. ok sample_response;
  decode_stream = λ body. sample_decoded;
  limit_json = λ r. [];
  quota_json = λ u. [];
}

abbrev sample_server : Server ℕ
sample_server = record {
  limiter = record {
    check_limit = λ requests w. (ok [], w);
    do_limit = λ requests w. (none, suc w);
    get_rule_by_name = get_rule new_limit_config;
  };
  quota = record {
    incr_usage = λ requests w. (none, suc w);
    set_usage = λ requests w. (none, suc w);
    get_usage = λ requests w. (ok [], w);
  };
  provider = record {
    get_qos_by_token = λ token model w. ok (some sample_qos);
    get_quota_config = λ namespace name w. ok sample_quota;
    get_model_list = λ namespace w. ok (text "qwen" ∷ []);
    get_models_by_token = λ token w. ok (text "qwen" ∷ []);
  };
  codec = sample_codec;
}

abbrev sample_state : State ℕ
sample_state = record { world = 0; buffers = λ id. none; timed = λ id. false; metrics = [] }

abbrev id : Text
id = text "r1"

abbrev authorization : HeaderValue
authorization = record { key = text "Authorization"; value = []; raw_value = text "Bearer t" }

sample_goes_on :
    (token : Text)
    → (handle_request_body sample_server (text "body") token sample_state).0.resp
      ≡ go_on_body (admitted_headers (text "qwen") sample_qos)
unfolding handle_request_body after_parse after_qos after_models check_request count_request
    contains check_rate_limit limit_requests do_request_rate_limit get_rule new_limit_config
    add_rule text_eq
sample_goes_on token = refl

handle_request_body-IsAdmitted_example :
    IsAdmitted sample_server
      (text "body")
      (text "t")
      sample_state
      (admitted_headers (text "qwen") sample_qos)
      (handle_request_body sample_server (text "body") (text "t") sample_state)
handle_request_body-IsAdmitted_example =
    handle_request_body-IsAdmitted sample_server (text "body") (text "t") sample_state
      (admitted_headers (text "qwen") sample_qos) (sample_goes_on (text "t"))

has_token : HasToken authorization (text "t")
has_token = (refl, refl)

handle_response_body-parts_example :
    seen (
      handle_response_body sample_server id
        (text "b")
        true
        sample_qos
        (text "qwen")
        false
        false
        (before_last sample_server id sample_qos (text "qwen") (text "a" ∷ []) sample_state).1)
    ≡ whole_answer sample_server id sample_qos (text "qwen") sample_usage 0 []
handle_response_body-parts_example =
    (handle_response_body-parts sample_server id sample_qos (text "qwen") (text "a" ∷ []) (text "b")
      sample_response sample_state refl refl (λ e. cc)).1

sample_HasUsage : HasUsage sample_server id sample_qos (text "qwen") (text "b")
unfolding last_usage
sample_HasUsage = (refl, refl)

stream_parts-usage_before_end_example :
    (stream_parts sample_server id sample_qos
      (text "qwen")
      ((text "b", false) ∷ (text "c", true) ∷ [])
      false
      sample_state).1.metrics
    ≡ []
stream_parts-usage_before_end_example =
    (stream_parts-usage_before_end sample_server id sample_qos (text "qwen") (text "b")
      ((text "c", true) ∷ []) sample_state sample_HasUsage).0

process_message-crashed_iff_example :
    (process_message sample_server id start sample_state (response_body (text "b") true) ≡ crashed)
    ↔ ((start.qos ≡ none) × NeedsQos (response_body (text "b") true))
process_message-crashed_iff_example =
    process_message-crashed_iff sample_server id start sample_state (response_body (text "b") true)

process-goes_on_example : Answered sample_server id start sample_state (
    request_headers (authorization ∷ [])
    ∷ request_body (text "body")
    ∷ response_headers []
    ∷ response_body (text "b") true
    ∷ [])
process-goes_on_example =
    process-goes_on sample_server id (authorization ∷ []) (text "body")
      (response_headers [] ∷ response_body (text "b") true ∷ []) sample_state
      (admitted_headers (text "qwen") sample_qos)
      (sample_goes_on (handle_request_headers sample_server (authorization ∷ [])).1) (tt, (tt, tt))

sample_IsPlain : IsPlain sample_qos
sample_IsPlain = record {
  namespace_plain = ground arith;
  user_plain = ground arith;
  model_plain = ground arith;
}

other_IsPlain : IsPlain other_qos
other_IsPlain = record {
  namespace_plain = ground arith;
  user_plain = ground arith;
  model_plain = ground arith;
}

rpm_IsRuleName : IsRuleName (text "rpm")
rpm_IsRuleName = record { no_dot = ground arith; no_colon = ground arith }

rpm_known : get_rule new_limit_config (text "rpm") ≡ some rpm
unfolding get_rule new_limit_config
rpm_known = refl

counter_key-eq_iff_example :
    (counter_key (text "arks") sample_qos (text "rpm") (pos 5) (pos 1) rpm 90
      ≡ counter_key (text "arks") other_qos (text "rpm") (pos 5) (pos 1) rpm 90)
    ↔ ((sample_qos.namespace ≡ other_qos.namespace)
        × (sample_qos.user ≡ other_qos.user)
        × (sample_qos.model ≡ other_qos.model)
        × (text "rpm" ≡ text "rpm")
        × (90 / seconds rpm ≡ 90 / seconds rpm))
counter_key-eq_iff_example =
    counter_key-eq_iff (text "arks") sample_qos other_qos (text "rpm") (text "rpm") (pos 5) (pos 5)
      (pos 1) (pos 1) rpm rpm 90 90 sample_IsPlain other_IsPlain rpm_known rpm_known (omega arith)
      (omega arith)
