-- ===== src/Gateway/Response.antt =====
-- pkg/gateway/handle_response.go: the handlers of response headers and response bodies.
-- A response body that is let through sets no header, whether the mutation is absent or empty.
pub mod Parts
pub mod Stream
use arks.Prelude.{
  none, ◌∷◌, false, Option, ◌&&◌, [], if◌then◌else◌, true, ◌==◌, map, some, ◌++◌, List, not, Bool,
}
use arks.Prelude.Int.{ℤ, pos, is_zero_ℤ}
use arks.Prelude.Text.{Text, text, text_eq, Result, ok, err}
use arks.Prelude.Decimal.{parse_int}
use arks.QosConfig.{UserQos, CountMap}
use arks.Gateway.Messages.{
  HeaderValue, raw_header, ProcessingResponse, pass_headers, pass_body, CompletionUsage, no_usage,
  ResponseFields, Chunk, Decoded, State, Server, token_usage, processing_time, reject,
  internal_error,
}
use arks.Gateway.Limits.{do_token_rate_limit, do_token_quota_limit}

-- The last `:status` header, as `strconv.Atoi` reads it.
abbrev pub status_of : ℤ → List HeaderValue → ℤ
status_of code [] = code
status_of code (h ∷ rest) =
    status_of (if text_eq h.key (text ":status") then parse_int h.raw_value else code) rest

unfoldable pub handle_response_headers : List HeaderValue → ProcessingResponse × ℤ
handle_response_headers headers = (
  pass_headers (
      raw_header (text "x-went-into-resp-headers") (text "true")
      ∷ map (λ h. raw_header h.key h.raw_value) headers),
  status_of (pos 0) headers,
)

-- The usage of the last event that has no choices.
unfoldable pub last_usage : CompletionUsage → List Chunk → CompletionUsage
last_usage usage [] = usage
last_usage usage (evt ∷ rest) = last_usage (if evt.choices == 0 then evt.usage else usage) rest

abbrev pub count_map : CompletionUsage → CountMap
count_map usage =
    (text "prompt", usage.prompt_tokens)
    ∷ (text "response", usage.completion_tokens)
    ∷ (text "total", usage.total_tokens)
    ∷ []

-- What the body of the handler leaves to its deferred function.
pub record Handled : Type 0 where
  pub resp : ProcessingResponse
  pub complete : Bool
  pub prompt : ℤ
  pub completion : ℤ

abbrev pub uncounted : ProcessingResponse → Bool → Handled
uncounted resp complete = record {
  resp = resp;
  complete = complete;
  prompt = pos 0;
  completion = pos 0;
}

abbrev pub put {ℓ} : {A : Type ℓ} → (Text → A) → Text → A → Text → A
put m k a j = if text_eq k j then a else m j

module _ {W : Type 0} (s : Server W) where
  abbrev pub failure_header : Text → Text → ProcessingResponse
  failure_header header message = reject s.codec internal_error header (text "true") message

  abbrev pub after_quota_count : Option Text → ProcessingResponse
  after_quota_count (some message) = failure_header (text "x-error-quota") message
  after_quota_count none = pass_body

  -- The quota is counted only after the rate limits are.
  abbrev pub after_limit_count :
      Option Text → UserQos → CompletionUsage → W → ProcessingResponse × W
  after_limit_count (some message) qos usage w =
      (failure_header (text "x-error-rate-limit") message, w)
  after_limit_count none qos usage w =
      let (failure, w') = do_token_quota_limit s qos (count_map usage) w in
      (after_quota_count failure, w')

  unfoldable pub count_tokens : UserQos → CompletionUsage → W → ProcessingResponse × W
  count_tokens qos usage w =
      let (failure, w') = do_token_rate_limit s qos usage.total_tokens w in
      after_limit_count failure qos usage w'

  -- The statistics at the end of the handler: a usage of 0 tokens counts nothing.
  unfoldable pub count_usage : UserQos → CompletionUsage → Bool → State W → Handled × State W
  unfolding count_tokens
  count_usage qos usage has_completed st =
      let (resp, w) = count_tokens qos usage st.world in
      if is_zero_ℤ usage.total_tokens then (uncounted pass_body has_completed, st) else (
        record {
          resp = resp;
          complete = true;
          prompt = usage.prompt_tokens;
          completion = usage.completion_tokens;
        },
        record st { world = w },
      )

  abbrev pub after_decode : Decoded → UserQos → Bool → State W → Handled × State W
  after_decode d qos has_completed st = elim d.failure [
    | some message ↦ (uncounted (failure_header (text "x-error-streaming") message) true, st)
    | none ↦ count_usage qos (last_usage no_usage d.chunks) has_completed st
  ]

  unfoldable pub handle_stream : Text → UserQos → Bool → State W → Handled × State W
  unfolding count_usage last_usage
  handle_stream body qos has_completed st =
      after_decode (s.codec.decode_stream body) qos has_completed st

  abbrev pub or_body : Text → Text
  or_body [] = text "unknown response"
  or_body (c ∷ body) = c ∷ body

  -- `body` is the last part of the response, which an unknown response is answered with.
  abbrev pub after_unmarshal :
      Result ResponseFields → Text → UserQos → Bool → State W → Handled × State W
  after_unmarshal (err message) body qos has_completed st =
      (uncounted (failure_header (text "x-error-response-unmarshal") message) true, st)
  after_unmarshal (ok res) body qos has_completed st =
      if text_eq res.model []
      then (uncounted (failure_header (text "x-error-response-unknown") (or_body body)) true, st)
      else count_usage qos res.usage has_completed st

  abbrev pub buffered : Option Text → Text
  buffered none = []
  buffered (some t) = t

  -- The parts of a response are put together under the request's id until the stream ends.
  unfoldable pub handle_parts : Text → Text → Bool → UserQos → Bool → State W → Handled × State W
  unfolding count_usage text_eq
  handle_parts id body end_of_stream qos has_completed st =
      let whole = buffered (st.buffers id) ++ body in
      if end_of_stream
      then after_unmarshal (s.codec.parse_response whole) body qos has_completed
          (record st { buffers = put st.buffers id none })
      else (
        uncounted pass_body has_completed,
        record st { buffers = put st.buffers id (some whole) },
      )

  -- The deferred function: the metrics of a response that completes with its last part.
  unfoldable pub finish : Text → Text → Bool → UserQos → Bool → Handled × State W → State W
  finish id model end_of_stream qos has_completed (h, st) =
      if not has_completed && (h.complete && end_of_stream)
      then record st {
        timed = put st.timed id false;
        metrics =
            processing_time qos model ∷ token_usage qos model h.prompt h.completion ∷ st.metrics;
      }
      else st

  abbrev pub handle_body : Text → Text → Bool → UserQos → Bool → Bool → State W → Handled × State W
  handle_body id body end_of_stream qos stream has_completed st =
      if stream
      then handle_stream body qos has_completed st
      else handle_parts id body end_of_stream qos has_completed st

  unfoldable pub handle_response_body :
      Text
      → Text
      → Bool
      → UserQos
      → Text
      → Bool
      → Bool
      → State W
      → ProcessingResponse × Bool × State W
  unfolding handle_stream handle_parts finish
  handle_response_body id body end_of_stream qos model stream has_completed st =
      let done =
        handle_body id body end_of_stream qos stream has_completed
          (record st { timed = put st.timed id true }) in
      (done.0.resp, done.0.complete, finish id model end_of_stream qos has_completed done)
