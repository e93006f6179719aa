-- ===== src/Gateway/Spent.antt =====
-- pkg/gateway/handle_response.go and check.go over pkg/gateway/ratelimiter and pkg/gateway/quota: what the
-- tokens of a response add in Redis.
use arks.Prelude.{
  none, ◌*◌, All, arith, ap, some, [], List, ◌≡◌, ◌+◌, Option, sym, ℕ, length, ◌<◌, ◌^◌, ◌≢◌,
}
use arks.RateLimiter.Limiter.{Moment, RedisRateLimiter}
use arks.QosConfig.{UserQos, QuotaConfig, qos_to_quota_requests}
use arks.Gateway.Messages.{Server, Codec, CompletionUsage, pass_body}
use arks.Gateway.Wiring.{new_server}
use arks.Gateway.Kept.{rules}
use arks.Gateway.Concurrent.Passing.{HasRule, limit_requests-some}
use arks.Gateway.Response.{count_map, count_tokens, after_limit_count, after_quota_count}
use arks.Gateway.Tokens.{
  spends, IsTotal, limit_requests-Counts, count_map-IsUsage, usage-quota_spends, quota_spends,
}
use arks.Gateway.Limits.{
  token_amount, limit_requests, do_requests, do_token_rate_limit, do_token_quota_limit,
}
use arks.Quota.Counting.{IsUsage, total_usage, usage, incr_usage_lem}
use arks.RateLimiter.{RateLimitRequest}
use arks.Prelude.Text.{Text, ok, Result, err, text_eq-ne}
use arks.RateLimiter.Counting.{Expires}
use arks.Prelude.Int.{pos}
use arks.Redis.{Holds, Redis, RedisView, RedisLaws}
use arks.Services.{ConfigProvider}
use arks.RateLimiter.Refined.{Represents, do_limit-Represents}
use mathlib.Core.Path.{subst}

module _ {r : Redis} {v : RedisView r} (l : RedisLaws v) (c : RedisRateLimiter) (at : Moment)
    (prefix : Text) (provider : ConfigProvider r.Store) (codec : Codec) (future : Expires c at)
    (qos : UserQos) (known : All (HasRule c) qos.rate_limits) (f : Text → ℕ) where
  abbrev s : Server r.Store
  s = new_server r c at prefix provider codec

  do_requests-spends :
      (tokens : ℕ) (w : r.Store) (asked : Result (List RateLimitRequest))
      (qs : List RateLimitRequest)
      → asked ≡ ok qs
      → limit_requests s (token_amount (pos tokens)) qos qos.rate_limits ≡ ok qs
      → ((j : Text) → f j + tokens * length qos.rate_limits < 2 ^ 63)
      → Represents l c at w f
      → ((do_requests s asked w).0 ≡ none)
        × Represents l c at
            (do_requests s asked w).1
            (λ j. f j + spends c at qos tokens qos.rate_limits j)
  do_requests-spends tokens w (err m) qs e e' room h = cc
  do_requests-spends tokens w (ok qs') qs e e' room h =
      let same : qs' ≡ qs = cc in
      let (units, few, charged) =
        limit_requests-Counts c at qos tokens s (rules l c at prefix provider codec) qos.rate_limits
          qs e' in
      let (done, (up, spent)) =
        do_limit-Represents l c at future qs w f units (λ j. omega (arith, few, room j)) h in
      rw same (done, (up, λ j. rw (← charged j) (spent j)))

  do_token_rate_limit-spends :
      (tokens : ℕ) (w : r.Store)
      → ((j : Text) → f j + tokens * length qos.rate_limits < 2 ^ 63)
      → Represents l c at w f
      → ((do_token_rate_limit s qos (pos tokens) w).0 ≡ none)
        × Represents l c at
            (do_token_rate_limit s qos (pos tokens) w).1
            (λ j. f j + spends c at qos tokens qos.rate_limits j)
  unfolding do_token_rate_limit
  do_token_rate_limit-spends tokens w =
      let (qs, e) =
        limit_requests-some s c (rules l c at prefix provider codec) (token_amount (pos tokens)) qos
          qos.rate_limits known in
      do_requests-spends tokens w (limit_requests s (token_amount (pos tokens)) qos qos.rate_limits)
        qs e e

  quota_counts :
      (u : CompletionUsage) (conf : QuotaConfig) (w : r.Store) (g : Text → ℕ)
      → qos.quota_name ≢ []
      → ((w' : r.Store) → provider.get_quota_config qos.namespace qos.quota_name w' ≡ ok conf)
      → All (IsUsage prefix) (qos_to_quota_requests conf (count_map u))
      → ((j : Text) → g j + total_usage prefix (qos_to_quota_requests conf (count_map u)) < 2 ^ 63)
      → Represents l c at w g
      → ((do_token_quota_limit s qos (count_map u) w).0 ≡ none)
        × ((j : Text)
            → Holds
                (v.read (do_token_quota_limit s qos (count_map u) w).1 j)
                (g j + usage prefix (qos_to_quota_requests conf (count_map u)) j))
  unfolding do_token_quota_limit
  quota_counts u conf w g named configured units room (up, h) =
      rw (text_eq-ne qos.quota_name [] named, configured w)
        (incr_usage_lem l prefix (qos_to_quota_requests conf (count_map u)) w g units up h room)

  after_limit_count-spends :
      (u : CompletionUsage) (failure : Option Text) (w : r.Store) (g : Text → ℕ)
      → failure ≡ none
      → ((do_token_quota_limit s qos (count_map u) w).0 ≡ none)
        × ((j : Text) → Holds (v.read (do_token_quota_limit s qos (count_map u) w).1 j) (g j))
      → ((after_limit_count s failure qos u w).0 ≡ pass_body)
        × ((j : Text) → Holds (v.read (after_limit_count s failure qos u w).1 j) (g j))
  after_limit_count-spends u none w g e (done, counted) = (ap (after_quota_count s) done, counted)
  after_limit_count-spends u (some m) w g e h = cc

  -- Over Redis, where every expiry lies in the future, for a user with a quota whose limits all have
  -- rules: the tokens of a response whose numbers are not negative and have room are counted without an
  -- error. Every counter of a limit on tokens grows by the total, the counters of the quota by the
  -- tokens of their types, and no other counter changes.
  pub count_tokens-spends :
      (u : CompletionUsage) (prompt completion total_tokens : ℕ) (conf : QuotaConfig) (w : r.Store)
      → IsTotal u prompt completion total_tokens
      → qos.quota_name ≢ []
      → ((w' : r.Store) → provider.get_quota_config qos.namespace qos.quota_name w' ≡ ok conf)
      → ((j : Text)
          → f j
              + spends c at qos total_tokens qos.rate_limits j
              + total_tokens * length qos.rate_limits
              + total_usage prefix (qos_to_quota_requests conf (count_map u))
            < 2 ^ 63)
      → Represents l c at w f
      → ((count_tokens s qos u w).0 ≡ pass_body)
        × ((j : Text)
            → Holds (v.read (count_tokens s qos u w).1 j) (
                f j
                + spends c at qos total_tokens qos.rate_limits j
                + quota_spends prefix prompt completion total_tokens conf conf.limits j))
  unfolding count_tokens qos_to_quota_requests
  count_tokens-spends u p d t conf w h named configured room up =
      let (done, spent) =
        subst
          (λ z.
            ((do_token_rate_limit s qos z w).0 ≡ none)
            × Represents l c at (do_token_rate_limit s qos z w).1
                (λ j. f j + spends c at qos t qos.rate_limits j))
          (sym h.total_eq) (do_token_rate_limit-spends t w (λ j. omega (arith, room j)) up) in
      let units = count_map-IsUsage prefix u p d t h conf conf.limits in
      let counted =
        quota_counts u conf (do_token_rate_limit s qos u.total_tokens w).1
          (λ j. f j + spends c at qos t qos.rate_limits j) named configured units
          (λ j. omega (arith, room j)) spent in
      let (passed, settled) =
        after_limit_count-spends u (do_token_rate_limit s qos u.total_tokens w).0
          (do_token_rate_limit s qos u.total_tokens w).1 _ done counted in
      (passed, λ j. rw (← usage-quota_spends prefix u p d t h conf conf.limits j) (settled j))
