-- ===== src/Gateway/Process/Panics.antt =====
-- When a message makes `Process` panic.
use arks.Prelude.{
  none, ℕ, ==_iff, ap, ◌↔◌, ◌≡◌, true, inl, Option, sym, refl, List, Bool-cases, inr, Bool, some,
  ◌∷◌, ◌∙◌,
}
use arks.Prelude.Int.{ℤ, pos}
use arks.Gateway.Messages.{
  other, Server, ProcessingRequest, response_headers, request_body, ProcessingResponse,
  response_body, State, request_headers, HeaderValue,
}
use arks.Gateway.Process.{
  is_status, UserQos, process_message, pos, Locals, handle_response_headers, failed_headers, negsuc,
  on_response_headers, crashed, on_response_body, process, sent, start, handle_request_headers,
  and_send,
}
use arks.Prelude.Text.{Text}
use arks.Gateway.Response.{status_of, handle_response_headers}
use arks.QosConfig.{UserQos}
use mathlib.Core.Path.{subst}
use arks.Gateway.Request.{handle_request_headers}

-- The messages that are handled with the qos of the request.
abbrev pub NeedsQos : ProcessingRequest → Type 0
NeedsQos (response_headers headers) = status_of (pos 0) headers ≡ pos 500
NeedsQos (response_body body end_of_stream) = Unit
NeedsQos _ = ⊥

is_status_iff : (code : ℤ) (n : ℕ) → (is_status code n ≡ true) ↔ (code ≡ pos n)
is_status_iff (pos m) n = (
  λ h. ap pos ((==_iff m n).0 h),
  λ e. subst (λ c. is_status c n ≡ true) (sym e) ((==_iff n n).1 refl),
)
is_status_iff (negsuc m) n = (λ h. cc, λ e. cc)

module _ {W : Type 0} (s : Server W) (id : Text) where
  failed_headers-crashed :
      (q : Option UserQos) (resp : ProcessingResponse) (l : Locals) (st : State W)
      → (failed_headers s id q resp l st ≡ crashed) ↔ (q ≡ none)
  failed_headers-crashed none resp l st = (λ h. refl, λ h. refl)
  failed_headers-crashed (some qos) resp l st = (λ h. cc, λ h. cc)

  on_response_body-crashed :
      (q : Option UserQos) (body : Text) (end_of_stream : Bool) (l : Locals) (st : State W)
      → (on_response_body s id q body end_of_stream l st ≡ crashed) ↔ (q ≡ none)
  on_response_body-crashed none body end_of_stream l st = (λ h. refl, λ h. refl)
  on_response_body-crashed (some qos) body end_of_stream l st =
      elim (Bool-cases (is_status l.status_code 200)) [
        | inl e ↦ rw e (λ h. cc, λ h. cc)
        | inr e ↦ rw e (λ h. cc, λ h. cc)
      ]

  on_response_headers-crashed :
      (resp : ProcessingResponse) (code : ℤ) (l : Locals) (st : State W)
      → (on_response_headers s id (resp, code) l st ≡ crashed) ↔ ((l.qos ≡ none) × (code ≡ pos 500))
  on_response_headers-crashed resp code l st = elim (Bool-cases (is_status code 500)) [
    | inl e ↦
        let i = failed_headers-crashed l.qos resp (record l { status_code = code }) st in
        rw e (λ h. (i.0 h, (is_status_iff code 500).0 e), λ h. i.1 h.0)
    | inr e ↦ rw e (λ h. cc, λ h. cc (e, (is_status_iff code 500).1 h.1))
  ]

  -- A message panics exactly when there is no qos and the message needs one: a response body, or
  -- response headers with status 500.
  pub process_message-crashed_iff :
      (l : Locals) (st : State W) (m : ProcessingRequest)
      → (process_message s id l st m ≡ crashed) ↔ ((l.qos ≡ none) × NeedsQos m)
  unfolding process_message handle_response_headers
  process_message-crashed_iff l st (request_headers headers) = (λ h. cc, λ h. absurd h.1)
  process_message-crashed_iff l st (request_body body) = (λ h. cc, λ h. absurd h.1)
  process_message-crashed_iff l st other = (λ h. cc, λ h. absurd h.1)
  process_message-crashed_iff l st (response_headers headers) =
      on_response_headers-crashed (handle_response_headers headers).0 (status_of (pos 0) headers) l
        st
  process_message-crashed_iff l st (response_body body end_of_stream) =
      let i = on_response_body-crashed l.qos body end_of_stream l st in
      (λ h. (i.0 h, tt), λ h. i.1 h.0)

  -- The loop after a message that is answered, or that panics.
  pub process-sent :
      (l : Locals) (st : State W) (m : ProcessingRequest) (ms : List ProcessingRequest)
      (resp : ProcessingResponse) (l' : Locals) (st' : State W)
      → process_message s id l st m ≡ sent resp l' st'
      → process s id l st (m ∷ ms) ≡ and_send s id resp (process s id l' st' ms)
  unfolding process
  process-sent l st m ms resp l' st' e =
      ap
        (λ r. elim r [
          | crashed ↦ none
          | sent resp l' st' ↦ and_send s id resp (process s id l' st' ms)
        ])
        e

  process-crashed :
      (l : Locals) (st : State W) (m : ProcessingRequest) (ms : List ProcessingRequest)
      → process_message s id l st m ≡ crashed
      → process s id l st (m ∷ ms) ≡ none
  unfolding process
  process-crashed l st m ms e =
      ap
        (λ r. elim r [
          | crashed ↦ none
          | sent resp l' st' ↦ and_send s id resp (process s id l' st' ms)
        ])
        e

  bodyless-response :
      (response : List HeaderValue) (body : Text) (end_of_stream : Bool)
      (ms : List ProcessingRequest) (l : Locals) (st : State W)
      → l.qos ≡ none
      → process s id l st (response_headers response ∷ response_body body end_of_stream ∷ ms) ≡ none
  unfolding process_message handle_response_headers
  bodyless-response response body end_of_stream ms l st e =
      let code = status_of (pos 0) response in
      let l' = record l { status_code = code } in
      let more = response_body body end_of_stream ∷ ms in
      elim (Bool-cases (is_status code 500)) [
        | inl z ↦ process-crashed l st (response_headers response) more (
            (process_message-crashed_iff l st (response_headers response)).1
              (e, (is_status_iff code 500).0 z))
        | inr z ↦
            process-sent l st (response_headers response) more (handle_response_headers response).0
              l' st (rw z refl)
            ∙ rw
                (process-crashed l' st (response_body body end_of_stream) ms (
                  (process_message-crashed_iff l' st (response_body body end_of_stream)).1 (e, tt)))
                refl
      ]

  -- A request without a body, whose response has a body, panics: no request body has set the qos.
  pub process-bodyless :
      (headers : List HeaderValue) (response : List HeaderValue) (body : Text)
      (end_of_stream : Bool) (ms : List ProcessingRequest) (st : State W)
      → process s id start st (
          request_headers headers
          ∷ response_headers response
          ∷ response_body body end_of_stream
          ∷ ms)
        ≡ none
  unfolding process_message
  process-bodyless headers response body end_of_stream ms st =
      let token = (handle_request_headers s headers).1 in
      let l = record start { token = token } in
      let more = response_body body end_of_stream ∷ ms in
      let crash = bodyless-response response body end_of_stream ms l st refl in
      process-sent start st (request_headers headers) (response_headers response ∷ more)
        (handle_request_headers s headers).0 l st refl
      ∙ rw crash refl
