-- ===== src/Gateway/Request.antt =====
-- pkg/gateway/handle_request.go: the handlers of request headers and request bodies.
use arks.Prelude.{
  Bool, ◌∷◌, if◌then◌else◌, false, ◌++◌, List, not, true, Option, ◌&&◌, none, [], some,
}
use arks.Prelude.Int.{ℤ}
use arks.Prelude.Text.{Text, text, text_eq, to_lower, strip_prefix, Result, ok, err}
use arks.QosConfig.{UserQos}
use arks.Gateway.Messages.{
  HeaderValue, raw_header, ProcessingResponse, go_on_headers, go_on_body, RequestFields, State,
  Server, reject, bad_request, unauthorized, internal_error,
}
use arks.Gateway.Limits.{check_rate_limit, check_token_quota_limit, do_request_rate_limit}

abbrev pub bearer : Text
bearer = text "Bearer "

-- The loop over the headers: the first authorization header with a bearer token.
unfoldable pub find_token : List HeaderValue → Text
find_token [] = []
find_token (n ∷ rest) =
    let more = find_token rest in
    if text_eq (to_lower n.key) (text "authorization")
    then elim (strip_prefix bearer n.raw_value) [ some token ↦ token | none ↦ more ]
    else more

-- `HandleRequestHeaders` returns the response and the token.
unfoldable pub handle_request_headers :
    {W : Type 0} → Server W → List HeaderValue → ProcessingResponse × Text
unfolding find_token text_eq
handle_request_headers s headers =
    let token = find_token headers in
    (
      if text_eq token []
          then reject s.codec unauthorized (text "x-error-token") (text "true")
              (text "no token found in request headers")
          else go_on_headers (raw_header (text "x-went-into-req-headers") (text "true") ∷ []),
      token,
    )

-- The named results of `HandleRequestBody`.
pub record BodyOutcome : Type 0 where
  pub resp : ProcessingResponse
  pub qos : Option UserQos
  pub model : Text
  pub stream : Bool

abbrev pub outcome : ProcessingResponse → Option UserQos → Text → Bool → BodyOutcome
outcome resp qos model stream = record { resp = resp; qos = qos; model = model; stream = stream }

-- `slices.Contains`
unfoldable pub contains : List Text → Text → Bool
contains [] model = false
contains (m ∷ rest) model = if text_eq m model then true else contains rest model

abbrev pub stream_of : Option Bool → Bool
stream_of none = false
stream_of (some b) = b

abbrev pub includes_usage : Option (Option Bool) → Bool
includes_usage (some (some b)) = b
includes_usage _ = false

abbrev pub admitted_headers : Text → UserQos → List HeaderValue
admitted_headers model qos =
    raw_header (text "model") model
    ∷ raw_header (text "namespace") qos.namespace
    ∷ raw_header (text "username") qos.user
    ∷ []

module _ {W : Type 0} (s : Server W) where
  -- The last step: the request is counted, and goes on with its headers.
  abbrev pub after_count : Option Text → Text → UserQos → ProcessingResponse
  after_count (some message) model qos =
      reject s.codec internal_error (text "x-error-rate-limit") (text "rate limit error")
        (text "rate limit error")
  after_count none model qos = go_on_body (admitted_headers model qos)

  unfoldable pub count_request : Text → UserQos → Bool → State W → BodyOutcome × State W
  count_request model qos stream st =
      let (failure, w) = do_request_rate_limit s qos st.world in
      (outcome (after_count failure model qos) (some qos) model stream, record st { world = w })

  abbrev pub quota_check : UserQos → W → Option ProcessingResponse × W
  quota_check qos w =
      if text_eq qos.quota_name [] then (none, w) else check_token_quota_limit s qos w

  abbrev pub after_quota :
      Option ProcessingResponse → Text → UserQos → Bool → State W → BodyOutcome × State W
  after_quota (some resp) model qos stream st = (outcome resp (some qos) model stream, st)
  after_quota none model qos stream st = count_request model qos stream st

  abbrev pub after_limits :
      Option ProcessingResponse → Text → UserQos → Bool → State W → BodyOutcome × State W
  after_limits (some resp) model qos stream st = (outcome resp (some qos) model stream, st)
  after_limits none model qos stream st =
      let (resp, w) = quota_check qos st.world in
      after_quota resp model qos stream (record st { world = w })

  unfoldable pub check_request : Text → UserQos → Bool → State W → BodyOutcome × State W
  unfolding count_request
  check_request model qos stream st =
      let (resp, st') = check_rate_limit s qos st in after_limits resp model qos stream st'

  abbrev pub no_backend : ℤ → Text → ProcessingResponse
  no_backend code model =
      reject s.codec code (text "x-error-no-model-backends") model
        (text "model " ++ (model ++ text " does not exist"))

  -- The model must be listed, and a stream must ask for its usage.
  unfoldable pub after_models :
      Result (List Text) → RequestFields → UserQos → State W → BodyOutcome × State W
  unfolding check_request contains
  after_models (err message) req qos st =
      (outcome (no_backend internal_error req.model) (some qos) req.model false, st)
  after_models (ok models) req qos st =
      if contains models req.model
      then (if stream_of req.stream && not (includes_usage req.stream_options)
          then (
            outcome
                (reject s.codec bad_request (text "x-error-no-stream-options-include-usage")
                  (text "include_usage for stream_options not set")
                  (text "no stream with usage option available"))
                (some qos) req.model true,
            st,
          )
          else check_request req.model qos (stream_of req.stream) st)
      else (outcome (no_backend bad_request req.model) (some qos) req.model false, st)

  unfoldable pub after_qos :
      Result (Option UserQos) → RequestFields → State W → BodyOutcome × State W
  unfolding after_models
  after_qos (err message) req st = (
    outcome
        (reject s.codec internal_error (text "x-error-token") message
          (text "error to get qos by token"))
        none req.model false,
    st,
  )
  after_qos (ok none) req st = (
    outcome
        (reject s.codec unauthorized (text "x-error-token") (text "token error")
          (text "token error"))
        none req.model false,
    st,
  )
  after_qos (ok (some qos)) req st =
      after_models (s.provider.get_model_list qos.namespace st.world) req qos st

  unfoldable pub after_parse : Option RequestFields → Text → State W → BodyOutcome × State W
  unfolding after_qos text_eq
  after_parse none token st = (
    outcome
        (reject s.codec bad_request (text "x-error-request-body-processing") (text "true")
          (text "error processing request body"))
        none [] false,
    st,
  )
  after_parse (some req) token st =
      if text_eq req.model []
      then (
        outcome
            (reject s.codec bad_request (text "x-error-no-model-in-request") req.model
              (text "no model in request body"))
            none req.model false,
        st,
      )
      else after_qos (s.provider.get_qos_by_token token req.model st.world) req st

  unfoldable pub handle_request_body : Text → Text → State W → BodyOutcome × State W
  unfolding after_parse
  handle_request_body body token st = after_parse (s.codec.parse_request body) token st
