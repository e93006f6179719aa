-- ===== src/Gateway/Limits.antt =====
-- pkg/gateway/check.go: the checks and the counts of a request against its rate limits and quota.
use arks.Prelude.{[], none, ◌∷◌, some, Option, List, if◌then◌else◌, ◌++◌}
use arks.Prelude.Int.{ℤ, pos}
use arks.Prelude.Text.{Text, text, Result, ok, err, text_eq}
use arks.RateLimiter.{LimitType, request_type, token_type, RateLimitRequest, RateLimitResponse}
use arks.QosConfig.{RateLimit, UserQos, QuotaConfig, QuotaResult, CountMap, qos_to_quota_requests}
use arks.Gateway.Messages.{
  ProcessingResponse, State, Server, rate_limit_hit, reject, to_rate_limit_request, internal_error,
  too_many_requests,
}

-- The amount that a limit of a type counts, if it is counted.
abbrev pub request_amount : LimitType → Option ℤ
request_amount request_type = some (pos 1)
request_amount token_type = none

abbrev pub token_amount : ℤ → LimitType → Option ℤ
token_amount count request_type = none
token_amount count token_type = some count

-- A request is checked for one more request, and for no more tokens.
abbrev pub check_amount : LimitType → Option ℤ
check_amount request_type = some (pos 1)
check_amount token_type = some (pos 0)

abbrev pub add_request :
    Option RateLimitRequest → Result (List RateLimitRequest) → Result (List RateLimitRequest)
add_request none rest = rest
add_request (some q) (ok qs) = ok (q ∷ qs)
add_request (some q) (err message) = err message

abbrev pub request_for : UserQos → RateLimit → Option ℤ → Option RateLimitRequest
request_for qos limit none = none
request_for qos limit (some n) = some (to_rate_limit_request qos limit.type limit.value n)

module _ {W : Type 0} (s : Server W) where
  -- The loop over `qos.RateLimits` that the three functions share.
  unfoldable pub limit_requests :
      (LimitType → Option ℤ) → UserQos → List RateLimit → Result (List RateLimitRequest)
  limit_requests amount qos [] = ok []
  limit_requests amount qos (limit ∷ rest) =
      let more = limit_requests amount qos rest in
      elim (s.limiter.get_rule_by_name limit.type) [
        | none ↦ err (text "rule " ++ (limit.type ++ text " not found"))
        | some rule ↦ add_request (request_for qos limit (amount rule.type)) more
      ]

  abbrev pub do_requests : Result (List RateLimitRequest) → W → Option Text × W
  do_requests (err message) w = (some message, w)
  do_requests (ok requests) w = s.limiter.do_limit requests w

  unfoldable pub do_request_rate_limit : UserQos → W → Option Text × W
  unfolding limit_requests
  do_request_rate_limit qos w = do_requests (limit_requests request_amount qos qos.rate_limits) w

  unfoldable pub do_token_rate_limit : UserQos → ℤ → W → Option Text × W
  unfolding limit_requests
  do_token_rate_limit qos count w =
      do_requests (limit_requests (token_amount count) qos qos.rate_limits) w

  abbrev pub incr_quota : Result QuotaConfig → CountMap → W → Option Text × W
  incr_quota (err message) counts w = (some message, w)
  incr_quota (ok conf) counts w = s.quota.incr_usage (qos_to_quota_requests conf counts) w

  unfoldable pub do_token_quota_limit : UserQos → CountMap → W → Option Text × W
  do_token_quota_limit qos counts w =
      if text_eq qos.quota_name []
      then (none, w)
      else incr_quota (s.provider.get_quota_config qos.namespace qos.quota_name w) counts w

  -- The first usage over its limit rejects.
  abbrev pub over_quota : List QuotaResult → Option ProcessingResponse
  over_quota [] = none
  over_quota (u ∷ rest) =
      if u.over_limit
      then some (
          reject s.codec too_many_requests (text "x-error-quota") (text "true")
            (s.codec.quota_json u))
      else over_quota rest

  abbrev pub quota_failed : Text → Option ProcessingResponse
  quota_failed message =
      some (reject s.codec internal_error (text "x-error-quota") (text "true") message)

  abbrev pub judge_quota : Result (List QuotaResult) → Option ProcessingResponse
  judge_quota (err message) = quota_failed message
  judge_quota (ok usage) = over_quota usage

  abbrev pub check_quota_config : Result QuotaConfig → W → Option ProcessingResponse × W
  check_quota_config (err message) w = (quota_failed message, w)
  check_quota_config (ok conf) w =
      let (usage, w') = s.quota.get_usage (qos_to_quota_requests conf []) w in
      (judge_quota usage, w')

  -- The error that goes with the response is only logged.
  unfoldable pub check_token_quota_limit : UserQos → W → Option ProcessingResponse × W
  check_token_quota_limit qos w =
      check_quota_config (s.provider.get_quota_config qos.namespace qos.quota_name w) w

  -- The first response over its limit rejects; a nil response is skipped.
  abbrev pub first_over : List (Option RateLimitResponse) → Option RateLimitResponse
  first_over [] = none
  first_over (none ∷ rest) = first_over rest
  first_over (some r ∷ rest) = if r.over_limit then some r else first_over rest

  abbrev pub limit_failed : Text → ProcessingResponse
  limit_failed message =
      reject s.codec internal_error (text "x-error-rate-limit") (text "true") message

  abbrev pub judge_limits :
      UserQos → Option RateLimitResponse → State W → Option ProcessingResponse × State W
  judge_limits qos none st = (none, st)
  judge_limits qos (some r) st = (
    some (
        reject s.codec too_many_requests (text "x-error-rate-limit") (text "true")
          (s.codec.limit_json r)),
    record st { metrics = rate_limit_hit qos r.rule_name ∷ st.metrics },
  )

  abbrev pub judge_check :
      UserQos
      → Result (List (Option RateLimitResponse))
      → State W
      → Option ProcessingResponse × State W
  judge_check qos (err message) st = (some (limit_failed message), st)
  judge_check qos (ok rs) st = judge_limits qos (first_over rs) st

  abbrev pub check_requests :
      UserQos → Result (List RateLimitRequest) → State W → Option ProcessingResponse × State W
  check_requests qos (err message) st = (some (limit_failed message), st)
  check_requests qos (ok requests) st =
      let (rs, w) = s.limiter.check_limit requests st.world in
      judge_check qos rs (record st { world = w })

  unfoldable pub check_rate_limit : UserQos → State W → Option ProcessingResponse × State W
  unfolding limit_requests
  check_rate_limit qos st = check_requests qos (limit_requests check_amount qos qos.rate_limits) st
