-- ===== src/Gateway/Admission.antt =====
-- What an admitted request has passed, and what a rejected one leaves.
use arks.Prelude.{
  some, false, All, ◌∷◌, Option, true, ◌≡◌, arith, none, List, [], inr, Bool-cases, refl, ◌⊎◌, inl,
}
use arks.Prelude.Text.{Text, text_eq, Result, ok, eq_of_text_eq, err}
use arks.QosConfig.{UserQos, QuotaConfig, QuotaResult, qos_to_quota_requests}
use arks.RateLimiter.{RateLimitRequest, RateLimitResponse}
use arks.Gateway.Messages.{RequestFields, State, Server}
use arks.Gateway.Limits.{
  check_amount, limit_requests, check_rate_limit, first_over, judge_check, check_quota_config,
  check_token_quota_limit, judge_limits, check_requests, judge_quota, over_quota,
}
use arks.Gateway.Request.{contains, stream_of, includes_usage, quota_check}

-- Nothing in the list is over its limit; a nil response says nothing.
abbrev pub Within : Option RateLimitResponse → Type 0
Within none = Unit
Within (some r) = r.over_limit ≡ false

module _ {W : Type 0} (s : Server W) where
  -- The model of the request is listed, and a stream asks for its usage.
  pub record IsServed (req : RequestFields) (qos : UserQos) (w : W) : Type 0 where
    pub models : List Text
    pub listed : s.provider.get_model_list qos.namespace w ≡ ok models
    pub contained : contains models req.model ≡ true
    pub usage_asked : stream_of req.stream ≡ true → includes_usage req.stream_options ≡ true

  -- The limiter answered the requests of all limits, and none was over its limit.
  pub record IsWithinLimits (qos : UserQos) (w : W) : Type 0 where
    pub requests : List RateLimitRequest
    pub responses : List (Option RateLimitResponse)
    pub asked : limit_requests s check_amount qos qos.rate_limits ≡ ok requests
    pub answered : (s.limiter.check_limit requests w).0 ≡ ok responses
    pub within : All Within responses

  first_over-none : (rs : List (Option RateLimitResponse)) → first_over s rs ≡ none → All Within rs
  first_over-none [] h = tt
  first_over-none (none ∷ rest) h = (tt, first_over-none rest h)
  first_over-none (some r ∷ rest) h = ground (arith, first_over-none rest)

  judge_limits-none :
      (qos : UserQos) (o : Option RateLimitResponse) (st : State W)
      → (judge_limits s qos o st).0 ≡ none
      → o ≡ none
  judge_limits-none qos none st h = refl
  judge_limits-none qos (some r) st h = cc

  judge_check-none :
      (qos : UserQos) (answer : Result (List (Option RateLimitResponse))) (st : State W)
      → (judge_check s qos answer st).0 ≡ none
      → (rs : List (Option RateLimitResponse)) × (answer ≡ ok rs) × All Within rs
  judge_check-none qos (err m) st h = cc
  judge_check-none qos (ok rs) st h =
      (rs, refl, first_over-none rs (judge_limits-none qos (first_over s rs) st h))

  check_requests-none :
      (qos : UserQos) (asked : Result (List RateLimitRequest)) (st : State W)
      → (check_requests s qos asked st).0 ≡ none
      → (requests : List RateLimitRequest) × (asked ≡ ok requests)
        × ((rs : List (Option RateLimitResponse)) × ((s.limiter.check_limit requests st.world).0
              ≡ ok rs)
            × All Within rs)
  check_requests-none qos (err m) st h = cc
  check_requests-none qos (ok requests) st h =
      (requests, refl, judge_check-none qos (s.limiter.check_limit requests st.world).0 _ h)

  pub check_rate_limit-none :
      (qos : UserQos) (st : State W)
      → (check_rate_limit s qos st).0 ≡ none
      → IsWithinLimits qos st.world
  unfolding check_rate_limit
  check_rate_limit-none qos st h =
      let asked = limit_requests s check_amount qos qos.rate_limits in
      let (requests, e, (rs, answered, within)) = check_requests-none qos asked st h in
      record {
        requests = requests;
        responses = rs;
        asked = e;
        answered = answered;
        within = within;
      }

  abbrev pub NotOver : QuotaResult → Type 0
  NotOver u = u.over_limit ≡ false

  -- The request has no quota, or the quota service answered for it and nothing was over its limit.
  abbrev pub IsWithinQuota : UserQos → W → Type 0
  IsWithinQuota qos w =
      (qos.quota_name ≡ [])
      ⊎ ((conf : QuotaConfig) × (us : List QuotaResult) × (s.provider.get_quota_config qos.namespace
              qos.quota_name w
            ≡ ok conf)
          × ((s.quota.get_usage (qos_to_quota_requests conf []) w).0 ≡ ok us)
          × All NotOver us)

  over_quota-none : (us : List QuotaResult) → over_quota s us ≡ none → All NotOver us
  over_quota-none [] h = tt
  over_quota-none (u ∷ rest) h = ground (arith, over_quota-none rest)

  judge_quota-none :
      (answer : Result (List QuotaResult))
      → judge_quota s answer ≡ none
      → (us : List QuotaResult) × (answer ≡ ok us) × All NotOver us
  judge_quota-none (err m) h = cc
  judge_quota-none (ok us) h = (us, refl, over_quota-none us h)

  check_quota_config-none :
      (conf : Result QuotaConfig) (w : W)
      → (check_quota_config s conf w).0 ≡ none
      → (c : QuotaConfig) × (us : List QuotaResult) × (conf ≡ ok c)
        × ((s.quota.get_usage (qos_to_quota_requests c []) w).0 ≡ ok us)
        × All NotOver us
  check_quota_config-none (err m) w h = cc
  check_quota_config-none (ok c) w h =
      let (us, e, within) =
        judge_quota-none (s.quota.get_usage (qos_to_quota_requests c []) w).0 h in
      (c, us, refl, e, within)

  pub quota_check-none :
      (qos : UserQos) (w : W) → (quota_check s qos w).0 ≡ none → IsWithinQuota qos w
  unfolding check_token_quota_limit
  quota_check-none qos w = elim (Bool-cases (text_eq qos.quota_name [])) [
    | inl e ↦ λ h. inl (eq_of_text_eq qos.quota_name [] e)
    | inr e ↦ rw e (λ h.
        inr (
          check_quota_config-none (s.provider.get_quota_config qos.namespace qos.quota_name w) w h))
  ]
