-- ===== src/Gateway/Streamed.antt =====
-- pkg/gateway/handle_response.go over Redis: what a part of a stream with a usage counts.
use arks.Prelude.{
  none, ◌++◌, ◌&&◌, arith, ◌*◌, ◌≢◌, ◌∷◌, [], ◌==◌, List, ◌≡◌, Bool, ◌+◌, refl, true, false, ◌<◌,
  if◌then◌else◌, not, length, ℕ, ◌∙◌, ◌^◌, All,
}
use arks.Gateway.Spent.{count_tokens-spends}
use arks.Gateway.Tokens.{spends, IsTotal, quota_spends}
use arks.Gateway.Response.{handle_response_body, last_usage, count_tokens, count_map}
use arks.Gateway.Response.Stream.{handle_response_body-usage}
use arks.Gateway.Response.Parts.{seen}
use arks.Gateway.Messages.{
  Server, Codec, State, Chunk, CompletionUsage, no_usage, Metric, processing_time, token_usage,
  pass_body,
}
use arks.Gateway.Wiring.{new_server}
use arks.Redis.{Redis, RedisView, RedisLaws}
use arks.RateLimiter.Limiter.{RedisRateLimiter, Moment}
use arks.Prelude.Text.{Text, ok}
use arks.Services.{ConfigProvider}
use arks.RateLimiter.Counting.{Expires}
use arks.QosConfig.{UserQos, QuotaConfig, qos_to_quota_requests}
use arks.Gateway.Concurrent.Passing.{HasRule}
use arks.Prelude.Int.{pos, is_zero_ℤ}
use arks.Quota.Counting.{total_usage}
use arks.RateLimiter.Refined.{Represents}
use arks.Redis.{Holds}

abbrev pub HasChoices : Chunk → Type 0
HasChoices evt = (evt.choices == 0) ≡ false

-- The usage of a stream in its events: that of an event with no choices after which all have some.
pub record IsLast (evts : List Chunk) (usage : CompletionUsage) : Type 0 where
  pub before : List Chunk
  pub evt : Chunk
  pub after : List Chunk
  pub events : evts ≡ before ++ (evt ∷ after)
  pub no_choices : evt.choices ≡ 0
  pub choices : All HasChoices after
  pub usage_eq : evt.usage ≡ usage

last_usage-choices :
    (usage : CompletionUsage) (evts : List Chunk)
    → All HasChoices evts
    → last_usage usage evts ≡ usage
unfolding last_usage
last_usage-choices usage [] h = refl
last_usage-choices usage (evt ∷ rest) (h, hs) = rw h (last_usage-choices usage rest hs)

last_usage-last :
    (usage : CompletionUsage) (before : List Chunk) (evt : Chunk) (after : List Chunk)
    → evt.choices ≡ 0
    → All HasChoices after
    → last_usage usage (before ++ (evt ∷ after)) ≡ evt.usage
unfolding last_usage
last_usage-last usage [] evt after z h = rw z (last_usage-choices evt.usage after h)
last_usage-last usage (x ∷ before) evt after z h =
    last_usage-last (if x.choices == 0 then x.usage else usage) before evt after z h

last_usage-IsLast :
    (evts : List Chunk) (usage : CompletionUsage)
    → IsLast evts usage
    → last_usage no_usage evts ≡ usage
last_usage-IsLast evts usage h =
    rw h.events
      (last_usage-last no_usage h.before h.evt h.after h.no_choices h.choices ∙ h.usage_eq)

-- The metrics after a part.
abbrev pub recorded : UserQos → Bool → Bool → Text → ℕ → ℕ → List Metric → List Metric
recorded qos end_of_stream has_completed model prompt completion ms =
    if not has_completed && end_of_stream
    then processing_time qos model ∷ token_usage qos model (pos prompt) (pos completion) ∷ ms
    else ms

module _ {r : Redis} {v : RedisView r} (l : RedisLaws v) (c : RedisRateLimiter) (at : Moment)
    (prefix : Text) (provider : ConfigProvider r.Store) (codec : Codec) (future : Expires c at)
    (qos : UserQos) (known : All (HasRule c) qos.rate_limits) (f : Text → ℕ) where
  abbrev s : Server r.Store
  s = new_server r c at prefix provider codec

  -- Over Redis, where every expiry lies in the future, for a user with a quota whose limits all have
  -- rules: a part of a stream that decodes, whose last event without choices has numbers of tokens that
  -- are not negative, a total above 0 and room for them, is answered with no change, completes the
  -- response, and raises the counters of limits on tokens by the total and those of the quota by the
  -- tokens of their types, and no other. Its metrics are recorded exactly when it ends a stream that
  -- had not completed.
  pub handle_response_body-spends :
      (id body : Text) (end_of_stream has_completed : Bool) (model : Text) (st : State r.Store)
      (u : CompletionUsage) (prompt completion total_tokens : ℕ) (conf : QuotaConfig)
      → (codec.decode_stream body).failure ≡ none
      → IsLast (codec.decode_stream body).chunks u
      → IsTotal u prompt completion total_tokens
      → 0 < total_tokens
      → qos.quota_name ≢ []
      → ((w : r.Store) → provider.get_quota_config qos.namespace qos.quota_name w ≡ ok conf)
      → ((j : Text)
          → f j
              + spends c at qos total_tokens qos.rate_limits j
              + total_tokens * length qos.rate_limits
              + total_usage prefix (qos_to_quota_requests conf (count_map u))
            < 2 ^ 63)
      → Represents l c at st.world f
      → (w : r.Store) × (seen
            (handle_response_body s id body end_of_stream qos model true has_completed st)
          ≡ (
            pass_body,
            true,
            w,
            recorded qos end_of_stream has_completed model prompt completion st.metrics,
          ))
        × ((j : Text)
            → Holds (v.read w j) (
                f j
                + spends c at qos total_tokens qos.rate_limits j
                + quota_spends prefix prompt completion total_tokens conf conf.limits j))
  handle_response_body-spends id body end_of_stream has_completed model st u p d t conf fine last h
        some_tokens named configured room up =
      let (passed, counted) =
        count_tokens-spends l c at prefix provider codec future qos known f u p d t conf st.world h
          named configured room up in
      let e : last_usage no_usage (codec.decode_stream body).chunks ≡ u =
        last_usage-IsLast (codec.decode_stream body).chunks u last in
      let nonzero : is_zero_ℤ u.total_tokens ≡ false = rw h.total_eq (ground arith) in
      let answered =
        handle_response_body-usage s id qos model body end_of_stream has_completed st
          (fine, rw e nonzero) in
      (
        (count_tokens s qos u st.world).1,
        answered ∙ rw (e, nonzero, passed, h.prompt_eq, h.completion_eq) refl,
        counted,
      )
