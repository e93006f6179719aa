-- ===== src/Gateway/Stages.antt =====
-- The stages of `HandleRequestBody`, from the last to the first: what passing all of them means.
use arks.Prelude.{Bool, none, Option, some, [], ◌≢◌, List, refl, ◌≡◌, Bool-cases, ◌∷◌, inl, inr}
use arks.Prelude.Text.{Text, text_eq, Result, ok, err}
use arks.QosConfig.{UserQos, QuotaConfig, QuotaResult, qos_to_quota_requests}
use arks.Gateway.Messages.{
  HeaderValue, go_on_body, RequestFields, State, Server, error_response, ProcessingResponse,
}
use arks.Gateway.Limits.{
  do_request_rate_limit, check_rate_limit, check_token_quota_limit, limit_requests, judge_check,
  judge_limits, over_quota, check_amount, judge_quota, check_quota_config, check_requests,
  first_over,
}
use arks.Gateway.Request.{
  BodyOutcome, outcome, admitted_headers, after_count, after_quota, after_limits, check_request,
  stream_of, quota_check,
}
use arks.Gateway.Admission.{
  IsServed, IsWithinLimits, IsWithinQuota, check_rate_limit-none, quota_check-none,
}
use arks.RateLimiter.{RateLimitRequest, RateLimitResponse}
use mathlib.Core.Path.{subst}

module _ {W : Type 0} (s : Server W) where
  abbrev pub limits_checked : UserQos → State W → State W
  limits_checked qos st = (check_rate_limit s qos st).1

  abbrev pub quota_checked : UserQos → State W → W
  quota_checked qos st = (quota_check s qos (limits_checked qos st).world).1

  -- The rate limits, the quota and the count have all let the request through, in this order, and the
  -- count is the last change.
  pub record IsCounted (qos : UserQos) (st : State W) (after : State W) : Type 0 where
    pub limits : IsWithinLimits s qos st.world
    pub quota : IsWithinQuota s qos (limits_checked qos st).world
    pub counted : (do_request_rate_limit s qos (quota_checked qos st)).0 ≡ none
    pub world : after.world ≡ (do_request_rate_limit s qos (quota_checked qos st)).1

  -- What an admitted request has passed; `done` is what the handler returns.
  pub record IsAdmitted (body token : Text) (st : State W) (headers : List HeaderValue)
      (done : BodyOutcome × State W) : Type 0 where
    pub req : RequestFields
    pub qos : UserQos
    pub parsed : s.codec.parse_request body ≡ some req
    pub named : req.model ≢ []
    pub authorized : s.provider.get_qos_by_token token req.model st.world ≡ ok (some qos)
    pub served : IsServed s req qos st.world
    pub counted : IsCounted qos st done.1
    pub result :
        done.0
        ≡ outcome
            (go_on_body (admitted_headers req.model qos))
            (some qos)
            req.model
            (stream_of req.stream)
    pub headers_set : headers ≡ admitted_headers req.model qos

  after_count-none :
      (failure : Option Text) (model : Text) (qos : UserQos) (hs : List HeaderValue)
      → after_count s failure model qos ≡ go_on_body hs
      → (failure ≡ none) × (hs ≡ admitted_headers model qos)
  unfolding error_response
  after_count-none none model qos hs h = (refl, cc)
  after_count-none (some m) model qos hs h = cc

  -- The stages after the listing of the models.
  abbrev pub Passed :
      Text → UserQos → Bool → State W → List HeaderValue → BodyOutcome × State W → Type 0
  Passed model qos stream st hs done =
      IsCounted qos st done.1
      × (done.0 ≡ outcome (go_on_body (admitted_headers model qos)) (some qos) model stream)
      × (hs ≡ admitted_headers model qos)

  -- What a check answers is never the response that lets a request body go on.
  abbrev Refuses : Option ProcessingResponse → Type 0
  Refuses none = Unit
  Refuses (some resp) = (hs : List HeaderValue) → resp ≢ go_on_body hs

  judge_limits-Refuses :
      (qos : UserQos) (o : Option RateLimitResponse) (st : State W)
      → Refuses (judge_limits s qos o st).0
  unfolding error_response
  judge_limits-Refuses qos none st = tt
  judge_limits-Refuses qos (some r) st = λ hs h. cc

  judge_check-Refuses :
      (qos : UserQos) (answer : Result (List (Option RateLimitResponse))) (st : State W)
      → Refuses (judge_check s qos answer st).0
  unfolding error_response
  judge_check-Refuses qos (err m) st = λ hs h. cc
  judge_check-Refuses qos (ok rs) st = judge_limits-Refuses qos (first_over s rs) st

  check_requests-Refuses :
      (qos : UserQos) (asked : Result (List RateLimitRequest)) (st : State W)
      → Refuses (check_requests s qos asked st).0
  unfolding error_response
  check_requests-Refuses qos (err m) st = λ hs h. cc
  check_requests-Refuses qos (ok requests) st =
      judge_check-Refuses qos (s.limiter.check_limit requests st.world).0 _

  check_rate_limit-Refuses : (qos : UserQos) (st : State W) → Refuses (check_rate_limit s qos st).0
  unfolding check_rate_limit
  check_rate_limit-Refuses qos st =
      check_requests-Refuses qos (limit_requests s check_amount qos qos.rate_limits) st

  over_quota-Refuses : (us : List QuotaResult) → Refuses (over_quota s us)
  unfolding error_response
  over_quota-Refuses [] = tt
  over_quota-Refuses (u ∷ rest) = elim (Bool-cases u.over_limit) [
    | inl e ↦ rw e (λ hs h. cc)
    | inr e ↦ rw e (over_quota-Refuses rest)
  ]

  judge_quota-Refuses : (answer : Result (List QuotaResult)) → Refuses (judge_quota s answer)
  unfolding error_response
  judge_quota-Refuses (err m) = λ hs h. cc
  judge_quota-Refuses (ok us) = over_quota-Refuses us

  check_quota_config-Refuses :
      (conf : Result QuotaConfig) (w : W) → Refuses (check_quota_config s conf w).0
  unfolding error_response
  check_quota_config-Refuses (err m) w = λ hs h. cc
  check_quota_config-Refuses (ok c) w =
      judge_quota-Refuses (s.quota.get_usage (qos_to_quota_requests c []) w).0

  quota_check-Refuses : (qos : UserQos) (w : W) → Refuses (quota_check s qos w).0
  unfolding check_token_quota_limit
  quota_check-Refuses qos w = elim (Bool-cases (text_eq qos.quota_name [])) [
    | inl e ↦ rw e tt
    | inr e ↦
        rw e (
          check_quota_config-Refuses (s.provider.get_quota_config qos.namespace qos.quota_name w) w)
  ]

  after_limits-none :
      (o : Option ProcessingResponse) (model : Text) (qos : UserQos) (stream : Bool) (st : State W)
      (hs : List HeaderValue)
      → Refuses o
      → (after_limits s o model qos stream st).0.resp ≡ go_on_body hs
      → o ≡ none
  after_limits-none none model qos stream st hs r h = refl
  after_limits-none (some resp) model qos stream st hs r h = absurd (r hs h)

  after_quota-none :
      (o : Option ProcessingResponse) (model : Text) (qos : UserQos) (stream : Bool) (st : State W)
      (hs : List HeaderValue)
      → Refuses o
      → (after_quota s o model qos stream st).0.resp ≡ go_on_body hs
      → o ≡ none
  after_quota-none none model qos stream st hs r h = refl
  after_quota-none (some resp) model qos stream st hs r h = absurd (r hs h)

  pub check_request-Passed :
      (model : Text) (qos : UserQos) (stream : Bool) (st : State W) (hs : List HeaderValue)
      → (check_request s model qos stream st).0.resp ≡ go_on_body hs
      → Passed model qos stream st hs (check_request s model qos stream st)
  unfolding check_request
  check_request-Passed model qos stream st hs h =
      let st1 = limits_checked qos st in
      let w2 = quota_checked qos st in
      let e1 =
        after_limits-none (check_rate_limit s qos st).0 model qos stream st1 hs
          (check_rate_limit-Refuses qos st) h in
      let h1 = subst (λ o. (after_limits s o model qos stream st1).0.resp ≡ go_on_body hs) e1 h in
      let e2 =
        after_quota-none (quota_check s qos st1.world).0 model qos stream
          (record st1 { world = w2 }) hs (quota_check-Refuses qos st1.world) h1 in
      let h2 =
        subst
          (λ o.
            (after_quota s o model qos stream (record st1 { world = w2 })).0.resp ≡ go_on_body hs)
          e2 h1 in
      let (e3, e4) = after_count-none (do_request_rate_limit s qos w2).0 model qos hs h2 in
      rw (e1, e2, e3)
        (
          record {
            limits = check_rate_limit-none s qos st e1;
            quota = quota_check-none s qos st1.world e2;
            counted = e3;
            world = refl;
          },
          refl,
          e4,
        )
