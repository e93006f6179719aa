-- ===== src/Gateway/Refused.antt =====
-- pkg/gateway/handle_request.go over pkg/gateway/ratelimiter and pkg/gateway/quota: what a request that
-- does not go on leaves in Redis.
use arks.Prelude.{
  none, inr, ◌&&◌, ℕ, [], inl, sym, Bool, Option, Bool-cases, some, ap, Option-cases, refl, not,
  List, ◌≡◌, ◌≢◌,
}
use arks.RateLimiter.Limiter.{Moment, RedisRateLimiter}
use arks.QosConfig.{UserQos}
use arks.Gateway.Messages.{
  State, HeaderValue, go_on_body, Codec, RequestFields, ProcessingResponse, Server,
}
use arks.Gateway.Wiring.{new_server}
use arks.Gateway.Kept.{
  HasRoom, quota_check-Represents, limits_checked-Represents, do_request-failed,
}
use arks.Gateway.Request.{
  BodyOutcome, after_count, after_quota, after_limits, count_request, check_request, after_models,
  after_qos, after_parse, handle_request_body, admitted_headers, contains, stream_of,
  includes_usage, quota_check,
}
use arks.Redis.{Redis, RedisView, RedisLaws}
use arks.Prelude.Text.{Text, Result, ok, text_eq, err}
use arks.Services.{ConfigProvider}
use arks.RateLimiter.Counting.{Expires}
use arks.RateLimiter.Refined.{Represents}
use arks.Gateway.Limits.{do_request_rate_limit, check_rate_limit}
use mathlib.Core.Path.{subst}

-- The response is not the one that lets a request body go on.
abbrev pub IsRefusal : ProcessingResponse → Type 0
IsRefusal resp = (hs : List HeaderValue) → resp ≢ go_on_body hs

module _ {r : Redis} {v : RedisView r} (l : RedisLaws v) (c : RedisRateLimiter) (at : Moment)
    (prefix : Text) (provider : ConfigProvider r.Store) (codec : Codec) (future : Expires c at)
    (f : Text → ℕ) where
  abbrev s : Server r.Store
  s = new_server r c at prefix provider codec

  -- A refusal leaves the numbers.
  abbrev Keeps : BodyOutcome × State r.Store → Type 0
  Keeps done = IsRefusal done.0.resp → Represents l c at done.1.world f

  module _ (model : Text) (qos : UserQos) (stream : Bool) (room : HasRoom f qos.rate_limits) where
    count_request-Keeps :
        (st : State r.Store)
        → Represents l c at st.world f
        → Keeps (count_request s model qos stream st)
    unfolding count_request
    count_request-Keeps st h refused =
        elim (Option-cases (do_request_rate_limit s qos st.world).0) [
          | inl e ↦
              absurd (refused (admitted_headers model qos) (ap (λ o. after_count s o model qos) e))
          | inr (m, e) ↦
              subst (λ w. Represents l c at w f)
                (sym
                  (do_request-failed l c at prefix provider codec future qos st.world f m room h e))
                h
        ]

    after_quota-Keeps :
        (o : Option ProcessingResponse) (st : State r.Store)
        → Represents l c at st.world f
        → Keeps (after_quota s o model qos stream st)
    after_quota-Keeps (some resp) st h refused = h
    after_quota-Keeps none st h refused = count_request-Keeps st h refused

    after_limits-Keeps :
        (o : Option ProcessingResponse) (st : State r.Store)
        → Represents l c at st.world f
        → Keeps (after_limits s o model qos stream st)
    after_limits-Keeps (some resp) st h refused = h
    after_limits-Keeps none st h refused =
        after_quota-Keeps (quota_check s qos st.world).0
          (record st { world = (quota_check s qos st.world).1 })
          (quota_check-Represents l c at prefix provider codec qos st.world f h) refused

    check_request-Keeps :
        (st : State r.Store)
        → Represents l c at st.world f
        → Keeps (check_request s model qos stream st)
    unfolding check_request
    check_request-Keeps st h refused =
        after_limits-Keeps (check_rate_limit s qos st).0 (check_rate_limit s qos st).1
          (limits_checked-Represents l c at prefix provider codec qos st f room h) refused

  after_models-Keeps :
      (listed : Result (List Text)) (req : RequestFields) (qos : UserQos) (st : State r.Store)
      → HasRoom f qos.rate_limits
      → Represents l c at st.world f
      → Keeps (after_models s listed req qos st)
  unfolding after_models
  after_models-Keeps (err m) req qos st room h = λ refused. h
  after_models-Keeps (ok models) req qos st room h = elim (Bool-cases (contains models req.model)) [
    | inr e ↦ rw e (λ refused. h)
    | inl e ↦ elim (Bool-cases (stream_of req.stream && not (includes_usage req.stream_options))) [
      | inl e' ↦ rw (e, e') (λ refused. h)
      | inr e' ↦ rw (e, e') (check_request-Keeps req.model qos (stream_of req.stream) room st h)
    ]
  ]

  after_qos-Keeps :
      (found : Result (Option UserQos)) (req : RequestFields) (st : State r.Store)
      → ((qos : UserQos) → found ≡ ok (some qos) → HasRoom f qos.rate_limits)
      → Represents l c at st.world f
      → Keeps (after_qos s found req st)
  unfolding after_qos
  after_qos-Keeps (err m) req st room h refused = h
  after_qos-Keeps (ok none) req st room h refused = h
  after_qos-Keeps (ok (some qos)) req st room h refused =
      after_models-Keeps (provider.get_model_list qos.namespace st.world) req qos st (room qos refl)
        h refused

  after_parse-Keeps :
      (parsed : Option RequestFields) (token : Text) (st : State r.Store)
      → ((model : Text) (qos : UserQos)
          → provider.get_qos_by_token token model st.world ≡ ok (some qos)
          → HasRoom f qos.rate_limits)
      → Represents l c at st.world f
      → Keeps (after_parse s parsed token st)
  unfolding after_parse
  after_parse-Keeps none token st room h = λ refused. h
  after_parse-Keeps (some req) token st room h = elim (Bool-cases (text_eq req.model [])) [
    | inl e ↦ rw e (λ refused. h)
    | inr e ↦ rw e (
        after_qos-Keeps (provider.get_qos_by_token token req.model st.world) req st (room req.model)
          h)
  ]

  -- Over Redis, where every expiry lies in the future, the store represents the numbers `f`, and the
  -- counters have room for the limits of any qos of the token: a request body that does not go on,
  -- whatever stage refuses it, leaves a store that represents the same numbers.
  pub handle_request_body-refused :
      (body token : Text) (st : State r.Store)
      → ((model : Text) (qos : UserQos)
          → provider.get_qos_by_token token model st.world ≡ ok (some qos)
          → HasRoom f qos.rate_limits)
      → Represents l c at st.world f
      → IsRefusal (handle_request_body s body token st).0.resp
      → Represents l c at (handle_request_body s body token st).1.world f
  unfolding handle_request_body
  handle_request_body-refused body token st = after_parse-Keeps (codec.parse_request body) token st
