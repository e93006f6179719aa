-- ===== src/Gateway/Process/Answered.antt =====
-- When `Process` answers every message of its stream.
use arks.Prelude.{
  ap, ◌≡◌, inl, length, sym, refl, List, Bool-cases, inr, Bool, some, All, suc, [], ◌∷◌, ◌∙◌,
}
use arks.Prelude.Int.{ℤ, pos}
use arks.Gateway.Messages.{
  other, Server, ProcessingRequest, response_headers, request_body, ProcessingResponse,
  response_body, State, request_headers, HeaderValue, go_on_body,
}
use arks.Gateway.Process.{
  is_status, UserQos, process_message, pos, Locals, handle_response_headers, failed_headers,
  on_response_headers, crashed, on_response_body, process, Round, sent, handle_request_body, start,
  handle_request_headers,
}
use arks.Prelude.Text.{Text}
use arks.Gateway.Response.{status_of, handle_response_headers}
use arks.QosConfig.{UserQos}
use mathlib.Core.Path.{subst}
use arks.Gateway.Request.{handle_request_body, handle_request_headers}
use arks.Gateway.Admitted.{handle_request_body-IsAdmitted}
use arks.Gateway.Process.Panics.{process-sent}

module _ {W : Type 0} (s : Server W) (id : Text) where
  -- Messages after the request body; none of them brings another request body.
  abbrev pub IsResponse : ProcessingRequest → Type 0
  IsResponse (request_body body) = ⊥
  IsResponse _ = Unit

  -- The messages are all answered: the stream ends with one response for each message.
  abbrev pub Answered : Locals → State W → List ProcessingRequest → Type 0
  Answered l st ms =
      (rs : List ProcessingResponse) × (end : Locals × State W) × (process s id l st ms
        ≡ some (rs, end))
      × (length rs ≡ length ms)

  -- One message is answered, and the qos stays.
  abbrev Goes : UserQos → Round W → Type 0
  Goes qos (sent resp l st) = l.qos ≡ some qos
  Goes qos crashed = ⊥

  failed_headers-Goes :
      (qos : UserQos) (resp : ProcessingResponse) (l : Locals) (st : State W)
      → l.qos ≡ some qos
      → Goes qos (failed_headers s id (some qos) resp l st)
  failed_headers-Goes qos resp l st e = e

  on_response_headers-Goes :
      (qos : UserQos) (resp : ProcessingResponse) (code : ℤ) (l : Locals) (st : State W)
      → l.qos ≡ some qos
      → Goes qos (on_response_headers s id (resp, code) l st)
  on_response_headers-Goes qos resp code l st e = elim (Bool-cases (is_status code 500)) [
    | inl z ↦ rw (z, e) refl
    | inr z ↦ rw z e
  ]

  on_response_body-Goes :
      (qos : UserQos) (body : Text) (end_of_stream : Bool) (l : Locals) (st : State W)
      → l.qos ≡ some qos
      → Goes qos (on_response_body s id (some qos) body end_of_stream l st)
  on_response_body-Goes qos body end_of_stream l st e =
      elim (Bool-cases (is_status l.status_code 200)) [ inl z ↦ rw z e | inr z ↦ rw z e ]

  process_message-Goes :
      (qos : UserQos) (l : Locals) (st : State W) (m : ProcessingRequest)
      → l.qos ≡ some qos
      → IsResponse m
      → Goes qos (process_message s id l st m)
  unfolding process_message handle_response_headers
  process_message-Goes qos l st (request_headers headers) e h = e
  process_message-Goes qos l st (request_body body) e h = absurd h
  process_message-Goes qos l st other e h = e
  process_message-Goes qos l st (response_headers headers) e h =
      on_response_headers-Goes qos (handle_response_headers headers).0 (status_of (pos 0) headers) l
        st e
  process_message-Goes qos l st (response_body body end_of_stream) e h =
      subst (λ q. Goes qos (on_response_body s id q body end_of_stream l st)) (sym e)
        (on_response_body-Goes qos body end_of_stream l st e)

  Goes-sent :
      (qos : UserQos) (r : Round W)
      → Goes qos r
      → (resp : ProcessingResponse) × (l : Locals) × (st : State W) × (r ≡ sent resp l st)
        × (l.qos ≡ some qos)
  Goes-sent qos (sent resp l st) g = (resp, l, st, refl, g)
  Goes-sent qos crashed g = absurd g

  process-step :
      (l : Locals) (st : State W) (m : ProcessingRequest) (ms : List ProcessingRequest)
      (resp : ProcessingResponse) (l' : Locals) (st' : State W) (rs : List ProcessingResponse)
      (end : Locals × State W)
      → process_message s id l st m ≡ sent resp l' st'
      → process s id l' st' ms ≡ some (rs, end)
      → process s id l st (m ∷ ms) ≡ some (resp ∷ rs, end)
  unfolding process
  process-step l st m ms resp l' st' rs end e e' =
      process-sent s id l st m ms resp l' st' e ∙ rw e' refl

  process-Answered :
      (qos : UserQos) (ms : List ProcessingRequest) (l : Locals) (st : State W)
      → l.qos ≡ some qos
      → All IsResponse ms
      → Answered l st ms
  unfolding process
  process-Answered qos [] l st e h = ([], (l, st), refl, refl)
  process-Answered qos (m ∷ ms) l st e h =
      let (resp, l', st', sends, e') =
        Goes-sent qos (process_message s id l st m) (process_message-Goes qos l st m e h.0) in
      let (rs, end, runs, n) = process-Answered qos ms l' st' e' h.1 in
      (resp ∷ rs, end, process-step l st m ms resp l' st' rs end sends runs, ap suc n)

  -- A stream that starts with request headers, and then a request body that goes on, is answered to
  -- its end whatever response messages follow: no message panics, and each has one response.
  pub process-goes_on :
      (headers : List HeaderValue) (body : Text) (ms : List ProcessingRequest) (st : State W)
      (set : List HeaderValue)
      → (handle_request_body s body (handle_request_headers s headers).1 st).0.resp ≡ go_on_body set
      → All IsResponse ms
      → Answered start st (request_headers headers ∷ request_body body ∷ ms)
  unfolding process_message
  process-goes_on headers body ms st set goes h =
      let (resp, token) = handle_request_headers s headers in
      let (done, st') = handle_request_body s body token st in
      let a = handle_request_body-IsAdmitted s body token st set goes in
      let l = record start { token = token } in
      let l' = record l { qos = done.qos; model = done.model; stream = done.stream } in
      let q = ap (λ o. o.qos) a.result in
      let (rs, end, runs, n) = process-Answered a.qos ms l' st' q h in
      (
        resp ∷ done.resp ∷ rs,
        end,
        process-step start st (request_headers headers) (request_body body ∷ ms) resp l st
            (done.resp ∷ rs) end refl
            (process-step l st (request_body body) ms done.resp l' st' rs end refl runs),
        ap (λ k. suc (suc k)) n,
      )
