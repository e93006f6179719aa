-- ===== src/Gateway/Messages.antt =====
-- The messages of the external processing protocol, the server's state, and pkg/gateway/util.go.
-- `Codec` holds the decoders and encoders of third-party packages: jsoniter, the SSE decoder of
-- openai-go, and the JSON of results.
use arks.Prelude.{ℕ, Bool, List, [], ◌∷◌, ◌++◌, Option}
use arks.Prelude.Int.{ℤ, pos}
use arks.Prelude.Text.{Text, text, Result}
use arks.RateLimiter.{RateLimitRequest, RateLimitResponse}
use arks.QosConfig.{UserQos, QuotaResult}
use arks.Services.{RateLimiterInterface, QuotaService, ConfigProvider}

pub record HeaderValue : Type 0 where
  pub key : Text
  pub value : Text
  pub raw_value : Text

abbrev pub raw_header : Text → Text → HeaderValue
raw_header key raw = record { key = key; value = []; raw_value = raw }

-- `other` stands for the kinds that `Process` only logs.
pub data ProcessingRequest : Type 0 where
  request_headers : List HeaderValue → ProcessingRequest
  request_body : Text → ProcessingRequest
  response_headers : List HeaderValue → ProcessingRequest
  response_body : Text → Bool → ProcessingRequest
  other : ProcessingRequest

-- The header mutations set headers; `immediate` ends the request with a status, headers and a body;
-- `blank` is a response with nothing set.
pub data ProcessingResponse : Type 0 where
  go_on_headers : List HeaderValue → ProcessingResponse
  go_on_body : List HeaderValue → ProcessingResponse
  pass_headers : List HeaderValue → ProcessingResponse
  pass_body : ProcessingResponse
  immediate : ℤ → List HeaderValue → Text → ProcessingResponse
  blank : ProcessingResponse

-- The fields of a request body; an absent pointer is `none`.
pub record RequestFields : Type 0 where
  pub model : Text
  pub stream : Option Bool
  pub stream_options : Option (Option Bool)

pub record CompletionUsage : Type 0 where
  pub prompt_tokens : ℤ
  pub completion_tokens : ℤ
  pub total_tokens : ℤ

abbrev pub no_usage : CompletionUsage
no_usage = record { prompt_tokens = pos 0; completion_tokens = pos 0; total_tokens = pos 0 }

pub record ResponseFields : Type 0 where
  pub model : Text
  pub usage : CompletionUsage

-- One event of a stream: the number of its choices, and its usage.
pub record Chunk : Type 0 where
  pub choices : ℕ
  pub usage : CompletionUsage

-- The events of a body, and the error that ends them.
pub record Decoded : Type 0 where
  pub chunks : List Chunk
  pub failure : Option Text

pub record Codec : Type 0 where
  pub error_message : Text → ℤ → Text
  pub parse_request : Text → Option RequestFields
  pub parse_response : Text → Result ResponseFields
  pub decode_stream : Text → Decoded
  pub limit_json : RateLimitResponse → Text
  pub quota_json : QuotaResult → Text

-- What the collector records; durations are left out.
pub data Metric : Type 0 where
  request_metric : UserQos → Text → ℤ → Metric
  token_usage : UserQos → Text → ℤ → ℤ → Metric
  processing_time : UserQos → Text → Metric
  rate_limit_hit : UserQos → Text → Metric

-- The state that handlers share: that of the services, the response buffers and the running
-- processing times by request id, and the metrics, newest first.
pub record State (W : Type 0) : Type 0 where
  pub world : W
  pub buffers : Text → Option Text
  pub timed : Text → Bool
  pub metrics : List Metric

pub record Server (W : Type 0) : Type 0 where
  pub limiter : RateLimiterInterface W
  pub quota : QuotaService W
  pub provider : ConfigProvider W
  pub codec : Codec

abbrev pub bad_request : ℤ
bad_request = pos 400

abbrev pub unauthorized : ℤ
unauthorized = pos 401

abbrev pub too_many_requests : ℤ
too_many_requests = pos 429

abbrev pub internal_error : ℤ
internal_error = pos 500

abbrev pub content_type : HeaderValue
content_type = record { key = text "Content-Type"; value = text "application/json"; raw_value = [] }

-- `generateErrorResponse`
unfoldable pub error_response : Codec → ℤ → List HeaderValue → Text → ProcessingResponse
error_response codec code headers body =
    immediate code (headers ++ (content_type ∷ [])) (codec.error_message body code)

-- An error response with one header.
abbrev pub reject : Codec → ℤ → Text → Text → Text → ProcessingResponse
reject codec code header raw body = error_response codec code (raw_header header raw ∷ []) body

unfoldable pub to_rate_limit_request : UserQos → Text → ℤ → ℤ → RateLimitRequest
to_rate_limit_request trl rule_name limit request = record {
  identifier =
      record { key = text "namespace"; value = trl.namespace }
      ∷ record { key = text "user"; value = trl.user }
      ∷ record { key = text "model"; value = trl.model }
      ∷ [];
  rule_name = rule_name;
  limit = limit;
  request = request;
}
