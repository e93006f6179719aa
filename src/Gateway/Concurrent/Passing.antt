-- ===== src/Gateway/Concurrent/Passing.antt =====
-- pkg/gateway/check.go: where the numbers leave room, the checks and the count of a request pass.
use arks.RateLimiter.Window.{generate}
use arks.Prelude.{
  none, Option, All, arith, ◌∷◌, some, ◌≡◌, refl, List, true, [], ◌∙◌, sym, ◌+◌, false,
  if◌then◌else◌, ℕ,
}
use arks.QosConfig.{UserQos, RateLimit}
use arks.Gateway.Messages.{Server, to_rate_limit_request, Codec, State}
use arks.Gateway.Concurrent.{
  Server, LimitRuleConfig, pos, RedisRateLimiter, Moment, Text, get_rule, Redis, RedisView,
  RedisLaws, ConfigProvider, Codec, do_request_rate_limit, check_rate_limit, new_server, State,
  quota_check, Represents,
}
use arks.RateLimiter.{
  LimitType, RateLimitResponse, RateLimitRequest, LimitRuleConfig, get_rule, request_type,
  token_type,
}
use arks.RateLimiter.Refined.{
  passes, admits, Represents, check_limit-Represents, do_limit-Represents,
}
use arks.Prelude.Int.{ℤ, pos, ◌≤ℤ◌, ltb_ℤ}
use arks.Gateway.Limits.{
  first_over, limit_requests, add_request, request_for, check_amount, check_rate_limit,
  do_request_rate_limit, request_amount, check_requests, do_requests,
}
use arks.Prelude.Text.{ok, Text, text_eq, Result, err}
use arks.RateLimiter.Limiter.{RedisRateLimiter, Moment, check_limit}
use arks.Gateway.Room.{
  InRoom, limit_key, Room, opt_cons, limit_requests-ok, limit_requests-IsCounts,
  check_amount-IsUnit, request_amount-IsUnit,
}
use arks.Redis.{Redis, RedisView, RedisLaws}
use arks.Services.{ConfigProvider}
use arks.RateLimiter.Counting.{Expires}
use arks.Gateway.Wiring.{new_server}
use arks.Gateway.Kept.{HasRoom, rules}
use arks.Gateway.Request.{quota_check}

-- The limit has a rule.
abbrev pub HasRule : RedisRateLimiter → RateLimit → Type 0
HasRule c limit = (rule : LimitRuleConfig) × (get_rule c.config limit.type ≡ some rule)

module _ {W : Type 0} (s : Server W) (c : RedisRateLimiter)
    (rules : (name : Text) → s.limiter.get_rule_by_name name ≡ get_rule c.config name)
    (amount_of : LimitType → Option ℤ) (qos : UserQos) where
  add_request-some :
      (o : Option RateLimitRequest) (qs : List RateLimitRequest)
      → (qs' : List RateLimitRequest) × (add_request o (ok qs) ≡ ok qs')
  add_request-some none qs = (qs, refl)
  add_request-some (some q) qs = (q ∷ qs, refl)

  pub limit_requests-some :
      (limits : List RateLimit)
      → All (HasRule c) limits
      → (qs : List RateLimitRequest) × (limit_requests s amount_of qos limits ≡ ok qs)
  unfolding limit_requests
  limit_requests-some [] h = ([], refl)
  limit_requests-some (limit ∷ rest) ((rule, e), h) =
      let (qs, more) = limit_requests-some rest h in
      rw (rules limit.type ∙ e, limit_requests)
        (rw more (add_request-some (request_for qos limit (amount_of rule.type)) qs))

passes-within :
    {W : Type 0} (s : Server W) (ps : List (Option RateLimitResponse))
    → passes ps ≡ true
    → first_over s ps ≡ none
passes-within s [] h = refl
passes-within s (none ∷ ps) h = passes-within s ps h
passes-within s (some p ∷ ps) h = ground (arith, passes-within s ps)

fits : (k : ℕ) (limit : ℤ) → pos k ≤ℤ limit → (if ltb_ℤ limit (pos k) then false else true) ≡ true
fits k limit h = ground arith

module _ (c : RedisRateLimiter) (at : Moment) (qos : UserQos) (f : Text → ℕ) where
  room-admits :
      (limit : RateLimit) (rule : LimitRuleConfig) (type : LimitType) (qs : List RateLimitRequest)
      → get_rule c.config limit.type ≡ some rule
      → InRoom c at type (f (limit_key c at qos limit rule)) limit.value
      → admits c at f qs ≡ true
      → admits c at f (opt_cons (request_for qos limit (check_amount type)) qs) ≡ true
  unfolding to_rate_limit_request generate
  room-admits limit rule request_type qs known h more =
      rw (known, more) (fits (f (limit_key c at qos limit rule) + 1) limit.value (omega (arith, h)))
  room-admits limit rule token_type qs known h more =
      rw (known, more) (fits (f (limit_key c at qos limit rule) + 0) limit.value (omega (arith, h)))

  -- Room under every limit admits the requests that are checked.
  Room-admits :
      {W : Type 0} (s : Server W)
      → ((name : Text) → s.limiter.get_rule_by_name name ≡ get_rule c.config name)
      → (limits : List RateLimit) (qs : List RateLimitRequest)
      → limit_requests s check_amount qos limits ≡ ok qs
      → All (Room c at f qos) limits
      → admits c at f qs ≡ true
  Room-admits s rules [] qs h rooms = let p : qs ≡ [] = unfold limit_requests in cc in rw p refl
  Room-admits s rules (limit ∷ rest) qs h rooms =
      let (rule, qs', found, more, e) = limit_requests-ok s check_amount qos limit rest qs h in
      let known = sym (rules limit.type) ∙ found in
      rw e (
        room-admits limit rule rule.type qs' known (rw known at rooms.0)
          (Room-admits s rules rest qs' more rooms.1))

module _ {r : Redis} {v : RedisView r} (l : RedisLaws v) (c : RedisRateLimiter) (at : Moment)
    (prefix : Text) (provider : ConfigProvider r.Store) (codec : Codec) (qos : UserQos)
    (future : Expires c at) (unlimited : qos.quota_name ≡ [])
    (known : All (HasRule c) qos.rate_limits) where
  abbrev s : Server r.Store
  s = new_server r c at prefix provider codec

  requests-none :
      (st : State r.Store) (qs : List RateLimitRequest) (ps : List (Option RateLimitResponse))
      (asked : Result (List RateLimitRequest))
      → asked ≡ ok qs
      → (check_limit r c at qs st.world).0 ≡ ok ps
      → first_over s ps ≡ none
      → (check_requests s qos asked st).0 ≡ none
  requests-none st qs ps (err m) e fine nothing = cc
  requests-none st qs ps (ok qs') e fine nothing =
      let same : qs' ≡ qs = cc in rw same (rw fine (rw nothing refl))

  pub check_rate_limit-passes :
      (st : State r.Store) (f : Text → ℕ)
      → HasRoom f qos.rate_limits
      → Represents l c at st.world f
      → All (Room c at f qos) qos.rate_limits
      → (check_rate_limit s qos st).0 ≡ none
  unfolding check_rate_limit
  check_rate_limit-passes st f room h rooms =
      let (qs, e) =
        limit_requests-some s c (rules l c at prefix provider codec) check_amount qos
          qos.rate_limits known in
      let (units, few) =
        limit_requests-IsCounts s c at (rules l c at prefix provider codec) qos check_amount
          (check_amount-IsUnit c at) qos.rate_limits qs e in
      let (ps, fine, same, _) =
        check_limit-Represents l c at qs st.world f units (λ j. omega (arith, few, room j)) h in
      let admitted =
        same
        ∙ Room-admits c at qos f s (rules l c at prefix provider codec) qos.rate_limits qs e
            rooms in
      requests-none st qs ps (limit_requests s check_amount qos qos.rate_limits) e fine
        (passes-within s ps admitted)

  pub quota_check-passes : (w : r.Store) → (quota_check s qos w).0 ≡ none
  unfolding text_eq
  quota_check-passes w = rw unlimited refl

  do_requests-counts :
      (w : r.Store) (f : Text → ℕ) (asked : Result (List RateLimitRequest))
      (qs : List RateLimitRequest)
      → asked ≡ ok qs
      → limit_requests s request_amount qos qos.rate_limits ≡ ok qs
      → HasRoom f qos.rate_limits
      → Represents l c at w f
      → (do_requests s asked w).0 ≡ none
  do_requests-counts w f (err m) qs e e' room h = cc
  do_requests-counts w f (ok qs') qs e e' room h =
      let same : qs' ≡ qs = cc in
      let (units, few) =
        limit_requests-IsCounts s c at (rules l c at prefix provider codec) qos request_amount
          (request_amount-IsUnit c at) qos.rate_limits qs e' in
      rw same (do_limit-Represents l c at future qs w f units (λ j. omega (arith, few, room j)) h).0

  pub do_request-counts :
      (w : r.Store) (f : Text → ℕ)
      → HasRoom f qos.rate_limits
      → Represents l c at w f
      → (do_request_rate_limit s qos w).0 ≡ none
  unfolding do_request_rate_limit
  do_request-counts w f =
      let (qs, e) =
        limit_requests-some s c (rules l c at prefix provider codec) request_amount qos
          qos.rate_limits known in
      do_requests-counts w f (limit_requests s request_amount qos qos.rate_limits) qs e e
