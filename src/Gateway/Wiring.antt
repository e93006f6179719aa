-- ===== src/Gateway/Wiring.antt =====
-- The server that cmd/gateway/main.go builds: `createRateLimiter`, `createQuotaService` and `NewServer`
-- (pkg/gateway/gateway.go) put the limiter and the quota service over one Redis behind the handlers.
-- `at` is the moment that the calls of one request read of the clock.
use arks.RateLimiter.Limiter.{Moment, RedisRateLimiter, check_limit, do_limit, get_rule_by_name}
use arks.Quota.{incr_usage, set_usage, get_usage}
use arks.Redis.{Redis}
use arks.Prelude.Text.{Text}
use arks.Services.{RateLimiterInterface, QuotaService, ConfigProvider}
use arks.Gateway.Messages.{Codec, Server}

module _ (r : Redis) where
  -- `NewRedisRateLimter`, as the interface that the handlers call.
  abbrev pub redis_limiter : RedisRateLimiter → Moment → RateLimiterInterface r.Store
  redis_limiter c at = record {
    check_limit = check_limit r c at;
    do_limit = do_limit r c at;
    get_rule_by_name = get_rule_by_name c;
  }

  -- `NewRedisQuotaService`
  abbrev pub redis_quota : Text → QuotaService r.Store
  redis_quota prefix = record {
    incr_usage = incr_usage r prefix;
    set_usage = set_usage r prefix;
    get_usage = get_usage r prefix;
  }

  abbrev pub new_server :
      RedisRateLimiter → Moment → Text → ConfigProvider r.Store → Codec → Server r.Store
  new_server c at prefix provider codec = record {
    limiter = redis_limiter c at;
    quota = redis_quota prefix;
    provider = provider;
    codec = codec;
  }
