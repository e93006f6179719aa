-- ===== src/Gateway/Process.antt =====
-- pkg/gateway/gateway.go: `Process`, the loop over the messages of one stream.
-- A dereference of a nil `qos` panics, which nothing recovers: `crashed`.
pub mod Panics
pub mod Answered
use arks.Prelude.{ℕ, none, ◌∷◌, false, Option, [], if◌then◌else◌, ◌==◌, some, List, Bool}
use arks.Prelude.Int.{ℤ, pos, negsuc}
use arks.Prelude.Text.{Text}
use arks.QosConfig.{UserQos}
use arks.Gateway.Messages.{
  HeaderValue, ProcessingRequest, request_headers, request_body, response_headers, response_body,
  other, ProcessingResponse, pass_headers, blank, State, Server, request_metric, error_response,
}
use arks.Gateway.Request.{handle_request_headers, handle_request_body}
use arks.Gateway.Response.{handle_response_headers, handle_response_body}

-- The local variables of `Process`.
pub record Locals : Type 0 where
  pub token : Text
  pub qos : Option UserQos
  pub model : Text
  pub stream : Bool
  pub status_code : ℤ
  pub completed : Bool

abbrev pub start : Locals
start = record {
  token = [];
  qos = none;
  model = [];
  stream = false;
  status_code = pos 0;
  completed = false;
}

-- One round: the response that is sent, and what the next round starts from.
pub data Round (W : Type 0) : Type 0 where
  sent : ProcessingResponse → Locals → State W → Round W
  crashed : Round W

abbrev pub is_status : ℤ → ℕ → Bool
is_status (pos n) code = n == code
is_status (negsuc n) code = false

-- The headers that `resp` sets as a response to response headers; any other kind has none.
abbrev pub set_headers : ProcessingResponse → List HeaderValue
set_headers (pass_headers headers) = headers
set_headers _ = []

module _ {W : Type 0} (s : Server W) (id : Text) where
  unfoldable pub response_error_processing : ProcessingResponse → ℤ → Text → ProcessingResponse
  response_error_processing resp code message =
      error_response s.codec code (set_headers resp) message

  abbrev pub record_request : UserQos → Locals → State W → State W
  record_request qos l st = record st {
    metrics = request_metric qos l.model l.status_code ∷ st.metrics;
  }

  abbrev pub failed_headers : Option UserQos → ProcessingResponse → Locals → State W → Round W
  failed_headers none resp l st = crashed
  failed_headers (some qos) resp l st =
      sent (response_error_processing resp l.status_code []) l (record_request qos l st)

  abbrev pub on_response_headers : ProcessingResponse × ℤ → Locals → State W → Round W
  on_response_headers (resp, code) l st =
      let l' = record l { status_code = code } in
      if is_status code 500 then failed_headers l'.qos resp l' st else sent resp l' st

  abbrev pub on_response_body : Option UserQos → Text → Bool → Locals → State W → Round W
  on_response_body none body end_of_stream l st = crashed
  on_response_body (some qos) body end_of_stream l st =
      if is_status l.status_code 200
      then (let (resp, done, st') =
            handle_response_body s id body end_of_stream qos l.model l.stream l.completed st in
          sent resp (record l { completed = done }) (record_request qos l st'))
      else sent (response_error_processing blank l.status_code body) l (record_request qos l st)

  -- The body of the loop, from a received message to the response that is sent.
  unfoldable pub process_message : Locals → State W → ProcessingRequest → Round W
  unfolding response_error_processing
  process_message l st (request_headers headers) =
      let (resp, token) = handle_request_headers s headers in
      sent resp (record l { token = token }) st
  process_message l st (request_body body) =
      let (done, st') = handle_request_body s body l.token st in
      sent done.resp (record l { qos = done.qos; model = done.model; stream = done.stream }) st'
  process_message l st (response_headers headers) =
      on_response_headers (handle_response_headers headers) l st
  process_message l st (response_body body end_of_stream) =
      on_response_body l.qos body end_of_stream l st
  process_message l st other = sent blank l st

  -- The loop until the stream ends: the responses in order, and the last state; `none` is a panic.
  abbrev pub and_send {ℓ} :
      {A : Type ℓ}
      → ProcessingResponse
      → Option (List ProcessingResponse × A)
      → Option (List ProcessingResponse × A)
  and_send resp none = none
  and_send resp (some (rs, a)) = some (resp ∷ rs, a)

  unfoldable pub process :
      Locals
      → State W
      → List ProcessingRequest
      → Option (List ProcessingResponse × (Locals × State W))
  unfolding process_message
  process l st [] = some ([], (l, st))
  process l st (m ∷ rest) = elim (process_message l st m) [
    | crashed ↦ none
    | sent resp l' st' ↦ and_send resp (process l' st' rest)
  ]
