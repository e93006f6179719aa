-- ===== src/Gateway/Admitted.antt =====
-- The stages of `HandleRequestBody` before the checks: the body, the token, the model list.
use arks.Prelude.{
  none, refl, [], not, List, inl, ◌≡◌, some, ◌&&◌, inr, Option, Bool-cases, false, arith,
}
use arks.Gateway.Messages.{Server, RequestFields, error_response, State, HeaderValue, go_on_body}
use arks.Gateway.Request.{
  after_parse, handle_request_body, after_qos, after_models, BodyOutcome, contains, stream_of,
  includes_usage,
}
use arks.QosConfig.{UserQos}
use arks.Prelude.Text.{Text, Result, ok, err, text_eq}
use arks.Gateway.Admission.{IsServed}
use arks.Gateway.Stages.{IsAdmitted, Passed, check_request-Passed}
use mathlib.Core.Path.{subst}

module _ {W : Type 0} (s : Server W) where
  -- A request that has passed the stages from the listing of the models on.
  abbrev Listed :
      RequestFields → UserQos → State W → List HeaderValue → BodyOutcome × State W → Type 0
  Listed req qos st hs done =
      IsServed s req qos st.world × Passed s req.model qos (stream_of req.stream) st hs done

  after_models-Listed :
      (listed : Result (List Text)) (req : RequestFields) (qos : UserQos) (st : State W)
      (hs : List HeaderValue)
      → s.provider.get_model_list qos.namespace st.world ≡ listed
      → (after_models s listed req qos st).0.resp ≡ go_on_body hs
      → Listed req qos st hs (after_models s listed req qos st)
  unfolding after_models error_response
  after_models-Listed (err m) req qos st hs e = λ h. cc
  after_models-Listed (ok models) req qos st hs e = elim (Bool-cases (contains models req.model)) [
    | inr e1 ↦ rw e1 (λ h'. cc)
    | inl e1 ↦ elim (Bool-cases (stream_of req.stream && not (includes_usage req.stream_options))) [
      | inl e2 ↦ rw (e1, e2) (λ h'. cc)
      | inr e2 ↦
          rw (e1, e2)
            (λ h'. (
              record { models = models; listed = e; contained = e1; usage_asked = ground arith },
              check_request-Passed s req.model qos (stream_of req.stream) st hs h',
            ))
    ]
  ]

  -- A request that has passed the stages from its token on.
  record Authorized (req : RequestFields) (token : Text) (st : State W) (hs : List HeaderValue)
      (done : BodyOutcome × State W) : Type 0 where
    qos : UserQos
    authorized : s.provider.get_qos_by_token token req.model st.world ≡ ok (some qos)
    passed : Listed req qos st hs done

  after_qos-Authorized :
      (found : Result (Option UserQos)) (req : RequestFields) (token : Text) (st : State W)
      (hs : List HeaderValue)
      → s.provider.get_qos_by_token token req.model st.world ≡ found
      → (after_qos s found req st).0.resp ≡ go_on_body hs
      → Authorized req token st hs (after_qos s found req st)
  unfolding after_qos error_response
  after_qos-Authorized (err m) req token st hs e h = cc
  after_qos-Authorized (ok none) req token st hs e h = cc
  after_qos-Authorized (ok (some qos)) req token st hs e h = record {
    qos = qos;
    authorized = e;
    passed =
        after_models-Listed (s.provider.get_model_list qos.namespace st.world) req qos st hs refl h;
  }

  after_parse-IsAdmitted :
      (parsed : Option RequestFields) (body token : Text) (st : State W) (hs : List HeaderValue)
      → s.codec.parse_request body ≡ parsed
      → (after_parse s parsed token st).0.resp ≡ go_on_body hs
      → IsAdmitted s body token st hs (after_parse s parsed token st)
  unfolding after_parse error_response text_eq
  after_parse-IsAdmitted none body token st hs e = λ h. cc
  after_parse-IsAdmitted (some req) body token st hs e = elim (Bool-cases (text_eq req.model [])) [
    | inl e1 ↦ rw e1 (λ h'. cc)
    | inr e1 ↦ rw e1 (λ h'.
        let found = s.provider.get_qos_by_token token req.model st.world in
        let a = after_qos-Authorized found req token st hs refl h' in
        let (served, (counted, result, headers)) = a.passed in
        record {
          req = req;
          qos = a.qos;
          parsed = e;
          named = λ n. cc (subst (λ m. text_eq m [] ≡ false) n e1);
          authorized = a.authorized;
          served = served;
          counted = counted;
          result = result;
          headers_set = headers;
        })
  ]

  -- A request body that goes on has passed every stage in turn: its body parses and names a model,
  -- the provider knows its token for the model, the model is listed and a stream asks for its
  -- usage, no rate limit and no quota is over its limit, and its count succeeded, which is the last
  -- change of the services. The headers that are set name the model, the namespace and the user.
  pub handle_request_body-IsAdmitted :
      (body token : Text) (st : State W) (headers : List HeaderValue)
      → (handle_request_body s body token st).0.resp ≡ go_on_body headers
      → IsAdmitted s body token st headers (handle_request_body s body token st)
  unfolding handle_request_body
  handle_request_body-IsAdmitted body token st headers h =
      after_parse-IsAdmitted (s.codec.parse_request body) body token st headers refl h
