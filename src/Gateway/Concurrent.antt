-- ===== src/Gateway/Concurrent.antt =====
-- pkg/gateway/handle_request.go: requests of one user that run at the same time. The checks and the
-- count of one request are calls of their own, and those of other requests may come between them.
pub mod Invariant
pub mod Passing
pub mod Race
use arks.Prelude.{◌*◌, ℕ, ◌≡◌, ◌≤◌, ◌+◌, arith, ◌<◌, some, All, length, none, ◌^◌, suc}
use arks.Redis.{Redis, RedisView, RedisLaws}
use arks.RateLimiter.Limiter.{RedisRateLimiter, Moment}
use arks.Prelude.Text.{Text}
use arks.Services.{ConfigProvider}
use arks.Gateway.Messages.{Codec, State, Server, ProcessingResponse}
use arks.QosConfig.{UserQos, RateLimit}
use arks.Gateway.Room.{counts}
use arks.RateLimiter.Refined.{Represents}
use arks.Gateway.Stages.{limits_checked, quota_checked}
use arks.Gateway.Wiring.{new_server}
use arks.Gateway.Limits.{check_rate_limit, do_request_rate_limit}
use arks.RateLimiter.{LimitRuleConfig, get_rule, request_type}
use arks.Prelude.Int.{pos}
use arks.Gateway.Request.{quota_check}

module _ (r : Redis) (c : RedisRateLimiter) (at : Moment) (prefix : Text)
    (provider : ConfigProvider r.Store) (codec : Codec) (qos : UserQos) where
  abbrev s : Server r.Store
  s = new_server r c at prefix provider codec

  -- `fresh` requests have not been checked yet, `waiting` ones have passed their checks, and `admitted`
  -- ones have been counted.
  pub record System : Type 0 where
    pub fresh : ℕ
    pub waiting : ℕ
    pub admitted : ℕ
    pub state : State r.Store

  abbrev pub system : ℕ → ℕ → ℕ → State r.Store → System
  system fresh waiting admitted state = record {
    fresh = fresh;
    waiting = waiting;
    admitted = admitted;
    state = state;
  }

  -- What the checks of one request leave.
  abbrev pub after_checks : State r.Store → State r.Store
  after_checks st = record (limits_checked s qos st) { world = quota_checked s qos st }

  abbrev pub after_count : State r.Store → State r.Store
  after_count st = record st { world = (do_request_rate_limit s qos st.world).1 }

  -- A request passes its checks while fewer than `n` wait, is refused by a rate limit or by the quota,
  -- is counted, or fails to be counted.
  pub data Step (n : ℕ) : System → System → Type 0 where
    pass :
        (m w a : ℕ) (st : State r.Store)
        → w < n
        → (check_rate_limit s qos st).0 ≡ none
        → (quota_check s qos (limits_checked s qos st).world).0 ≡ none
        → Step n (system (suc m) w a st) (system m (suc w) a (after_checks st))
    refuse :
        (m w a : ℕ) (st : State r.Store) (resp : ProcessingResponse)
        → (check_rate_limit s qos st).0 ≡ some resp
        → Step n (system (suc m) w a st) (system m w a (limits_checked s qos st))
    refuse_quota :
        (m w a : ℕ) (st : State r.Store) (resp : ProcessingResponse)
        → (check_rate_limit s qos st).0 ≡ none
        → (quota_check s qos (limits_checked s qos st).world).0 ≡ some resp
        → Step n (system (suc m) w a st) (system m w a (after_checks st))
    count :
        (m w a : ℕ) (st : State r.Store)
        → (do_request_rate_limit s qos st.world).0 ≡ none
        → Step n (system m (suc w) a st) (system m w (suc a) (after_count st))
    fail :
        (m w a : ℕ) (st : State r.Store) (message : Text)
        → (do_request_rate_limit s qos st.world).0 ≡ some message
        → Step n (system m (suc w) a st) (system m w a (after_count st))

  -- `total` requests, over a store.
  pub data Reach (n total : ℕ) (st : State r.Store) : System → Type 0 where
    start : Reach n total st (system total 0 0 st)
    later : {x y : System} → Reach n total st x → Step n x y → Reach n total st y
