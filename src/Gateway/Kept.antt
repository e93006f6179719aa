-- ===== src/Gateway/Kept.antt =====
-- pkg/gateway/check.go over pkg/gateway/ratelimiter and pkg/gateway/quota: what the checks and the counts
-- of a request do to the numbers in Redis.
use arks.Prelude.{
  none, ◌∙◌, ◌<◌, All, List, arith, refl, Option, ◌^◌, some, ◌≡◌, length, ◌+◌, sym, ℕ, ◌∷◌, [],
  true, inl, inr, Bool-cases, ◌*◌,
}
use arks.RateLimiter.Limiter.{Moment, RedisRateLimiter, get_rule_by_name, check_limit}
use arks.QosConfig.{UserQos, RateLimit, QuotaConfig, QuotaRequest, qos_to_quota_requests}
use arks.Quota.{get_usage, get_commands}
use arks.Gateway.Messages.{State, Server, Codec}
use arks.Gateway.Room.{
  Room, counts, limit_requests-IsCounts, check_amount-IsUnit, admits-Room, request_amount-IsUnit,
  charge-counts,
}
use arks.Gateway.Wiring.{new_server}
use arks.RateLimiter.{RateLimitResponse, get_rule, RateLimitRequest}
use arks.Redis.{Redis, RedisView, RedisLaws}
use arks.Gateway.Admission.{Within, IsWithinLimits}
use arks.RateLimiter.Refined.{
  passes, Represents, check_limit-Represents, do_limit-Represents, after_all-Reachable,
}
use arks.Prelude.Text.{Text, Result, err, ok, text_eq}
use arks.Services.{ConfigProvider}
use arks.RateLimiter.Counting.{Expires}
use arks.Gateway.Limits.{
  limit_requests, check_amount, request_amount, do_requests, judge_check, check_rate_limit,
  do_request_rate_limit, check_token_quota_limit, check_quota_config, first_over, judge_limits,
  check_requests,
}
use arks.Gateway.Stages.{limits_checked, quota_checked}
use arks.Quota.Usage.{get_usage_lem}
use arks.Gateway.Request.{quota_check}
use mathlib.Core.Path.{subst}

Within-passes : (ps : List (Option RateLimitResponse)) → All Within ps → passes ps ≡ true
Within-passes [] h = refl
Within-passes (none ∷ ps) h = Within-passes ps h.1
Within-passes (some p ∷ ps) h = rw h.0 (Within-passes ps h.1)

-- There is room in every counter for all limits at once.
abbrev pub HasRoom : (Text → ℕ) → List RateLimit → Type 0
HasRoom f limits = (j : Text) → f j + length limits < 2 ^ 63

module _ (c : RedisRateLimiter) (at : Moment) where
  -- The numbers after one request of a user.
  abbrev pub one_more : UserQos → (Text → ℕ) → Text → ℕ
  one_more qos f j = f j + counts c at qos qos.rate_limits j

  -- The numbers after a number of requests of a user.
  abbrev pub grown : UserQos → (Text → ℕ) → ℕ → Text → ℕ
  grown qos f n j = f j + n * counts c at qos qos.rate_limits j

module _ {r : Redis} {v : RedisView r} (l : RedisLaws v) (c : RedisRateLimiter) (at : Moment)
    (prefix : Text) (provider : ConfigProvider r.Store) (codec : Codec) where
  abbrev server : Server r.Store
  server = new_server r c at prefix provider codec

  pub rules : (name : Text) → server.limiter.get_rule_by_name name ≡ get_rule c.config name
  unfolding get_rule_by_name
  rules name = refl

  -- A check of the limits that answers nothing leaves the numbers, which have room under every limit.
  pub IsWithinLimits-Room :
      (qos : UserQos) (s : r.Store) (f : Text → ℕ)
      → HasRoom f qos.rate_limits
      → Represents l c at s f
      → (within : IsWithinLimits server qos s)
      → All (Room c at f qos) qos.rate_limits
        × Represents l c at (check_limit r c at within.requests s).1 f
  IsWithinLimits-Room qos s f room h within =
      let (units, few) =
        limit_requests-IsCounts server c at rules qos check_amount (check_amount-IsUnit c at)
          qos.rate_limits within.requests within.asked in
      let (ps, fine, same, h') =
        check_limit-Represents l c at within.requests s f units (λ j. omega (arith, few, room j))
          h in
      let answers : within.responses ≡ ps = cc in
      let admitted = sym same ∙ rw (← answers) (Within-passes within.responses within.within) in
      (
        admits-Room server c at rules qos f qos.rate_limits within.requests within.asked admitted,
        h',
      )

  -- Counting a request adds one to the number of every limit that counts requests.
  do_requests-one_more :
      (future : Expires c at) (qos : UserQos) (s : r.Store) (f : Text → ℕ)
      (asked : Result (List RateLimitRequest))
      → limit_requests server request_amount qos qos.rate_limits ≡ asked
      → HasRoom f qos.rate_limits
      → Represents l c at s f
      → (do_requests server asked s).0 ≡ none
      → Represents l c at (do_requests server asked s).1 (one_more c at qos f)
  do_requests-one_more future qos s f (err m) e room h done = cc
  do_requests-one_more future qos s f (ok qs) e room h done =
      let (units, few) =
        limit_requests-IsCounts server c at rules qos request_amount (request_amount-IsUnit c at)
          qos.rate_limits qs e in
      let (_, (up, spent)) =
        do_limit-Represents l c at future qs s f units (λ j. omega (arith, few, room j)) h in
      (up, λ j. rw (← charge-counts server c at rules qos qos.rate_limits qs j e) (spent j))

  judge_limits-world :
      (qos : UserQos) (o : Option RateLimitResponse) (st : State r.Store)
      → (judge_limits server qos o st).1.world ≡ st.world
  judge_limits-world qos none st = refl
  judge_limits-world qos (some p) st = refl

  pub judge_check-world :
      (qos : UserQos) (rs : Result (List (Option RateLimitResponse))) (st : State r.Store)
      → (judge_check server qos rs st).1.world ≡ st.world
  judge_check-world qos (err m) st = refl
  judge_check-world qos (ok rs) st = judge_limits-world qos (first_over server rs) st

  check_requests-world :
      (qos : UserQos) (st : State r.Store) (qs : List RateLimitRequest)
      (asked : Result (List RateLimitRequest))
      → asked ≡ ok qs
      → (check_requests server qos asked st).1.world ≡ (check_limit r c at qs st.world).1
  check_requests-world qos st qs (err m) e = cc
  check_requests-world qos st qs (ok qs') e =
      let same : qs' ≡ qs = cc in
      rw same (judge_check-world qos (check_limit r c at qs st.world).0 _)

  limits_checked-world :
      (qos : UserQos) (st : State r.Store) (within : IsWithinLimits server qos st.world)
      → (limits_checked server qos st).world ≡ (check_limit r c at within.requests st.world).1
  unfolding check_rate_limit
  limits_checked-world qos st within = check_requests-world qos st within.requests _ within.asked

  get_usage-Represents :
      (requests : List QuotaRequest) (s : r.Store) (f : Text → ℕ)
      → Represents l c at s f
      → Represents l c at (get_usage r prefix requests s).1 f
  unfolding get_usage
  get_usage-Represents requests s f (up, h) =
      let (_, _, _, same) = get_usage_lem l prefix requests s up in
      let cs = get_commands prefix requests in
      (
        subst v.Reachable (sym (l.exec_store cs s up)) (after_all-Reachable l c at cs s up),
        λ j. rw (same j) (h j),
      )

  check_quota_config-Represents :
      (conf : Result QuotaConfig) (s : r.Store) (f : Text → ℕ)
      → Represents l c at s f
      → Represents l c at (check_quota_config server conf s).1 f
  check_quota_config-Represents (err m) s f h = h
  check_quota_config-Represents (ok conf) s f h =
      get_usage-Represents (qos_to_quota_requests conf []) s f h

  pub quota_check-Represents :
      (qos : UserQos) (s : r.Store) (f : Text → ℕ)
      → Represents l c at s f
      → Represents l c at (quota_check server qos s).1 f
  unfolding check_token_quota_limit
  quota_check-Represents qos s f h = elim (Bool-cases (text_eq qos.quota_name [])) [
    | inl e ↦ rw e h
    | inr e ↦ rw e (check_quota_config-Represents _ s f h)
  ]

  -- The checks of a request that passes them leave the numbers, which have room under every limit.
  pub checked-Room :
      (qos : UserQos) (st : State r.Store) (f : Text → ℕ)
      → HasRoom f qos.rate_limits
      → Represents l c at st.world f
      → IsWithinLimits server qos st.world
      → All (Room c at f qos) qos.rate_limits × Represents l c at (quota_checked server qos st) f
  checked-Room qos st f room h within =
      let (rooms, h1) = IsWithinLimits-Room qos st.world f room h within in
      let h2 = subst (λ w. Represents l c at w f) (sym (limits_checked-world qos st within)) h1 in
      (rooms, quota_check-Represents qos (limits_checked server qos st).world f h2)

  -- A check of the limits leaves the numbers, whatever it answers.
  check_requests-Represents :
      (qos : UserQos) (st : State r.Store) (f : Text → ℕ) (asked : Result (List RateLimitRequest))
      → limit_requests server check_amount qos qos.rate_limits ≡ asked
      → HasRoom f qos.rate_limits
      → Represents l c at st.world f
      → Represents l c at (check_requests server qos asked st).1.world f
  check_requests-Represents qos st f (err m) e room h = h
  check_requests-Represents qos st f (ok qs) e room h =
      let (units, few) =
        limit_requests-IsCounts server c at rules qos check_amount (check_amount-IsUnit c at)
          qos.rate_limits qs e in
      let (_, _, _, h') =
        check_limit-Represents l c at qs st.world f units (λ j. omega (arith, few, room j)) h in
      subst (λ w. Represents l c at w f) (sym (check_requests-world qos st qs (ok qs) refl)) h'

  pub limits_checked-Represents :
      (qos : UserQos) (st : State r.Store) (f : Text → ℕ)
      → HasRoom f qos.rate_limits
      → Represents l c at st.world f
      → Represents l c at (limits_checked server qos st).world f
  unfolding check_rate_limit
  limits_checked-Represents qos st f =
      check_requests-Represents qos st f (limit_requests server check_amount qos qos.rate_limits)
        refl

  -- A count that fails leaves the store.
  do_requests-failed :
      (future : Expires c at) (qos : UserQos) (s : r.Store) (f : Text → ℕ)
      (asked : Result (List RateLimitRequest)) (message : Text)
      → limit_requests server request_amount qos qos.rate_limits ≡ asked
      → HasRoom f qos.rate_limits
      → Represents l c at s f
      → (do_requests server asked s).0 ≡ some message
      → (do_requests server asked s).1 ≡ s
  do_requests-failed future qos s f (err m) message e room h failed = refl
  do_requests-failed future qos s f (ok qs) message e room h failed =
      let (units, few) =
        limit_requests-IsCounts server c at rules qos request_amount (request_amount-IsUnit c at)
          qos.rate_limits qs e in
      let (done, _) =
        do_limit-Represents l c at future qs s f units (λ j. omega (arith, few, room j)) h in
      cc

  pub do_request-failed :
      (future : Expires c at) (qos : UserQos) (s : r.Store) (f : Text → ℕ) (message : Text)
      → HasRoom f qos.rate_limits
      → Represents l c at s f
      → (do_request_rate_limit server qos s).0 ≡ some message
      → (do_request_rate_limit server qos s).1 ≡ s
  unfolding do_request_rate_limit
  do_request-failed future qos s f message =
      do_requests-failed future qos s f (limit_requests server request_amount qos qos.rate_limits)
        message refl

  pub do_request-one_more :
      (future : Expires c at) (qos : UserQos) (s : r.Store) (f : Text → ℕ)
      → HasRoom f qos.rate_limits
      → Represents l c at s f
      → (do_request_rate_limit server qos s).0 ≡ none
      → Represents l c at (do_request_rate_limit server qos s).1 (one_more c at qos f)
  unfolding do_request_rate_limit
  do_request-one_more future qos s f =
      do_requests-one_more future qos s f (limit_requests server request_amount qos qos.rate_limits)
        refl
