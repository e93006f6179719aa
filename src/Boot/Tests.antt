-- ===== src/Boot/Tests.antt =====
-- Examples for the start: the settings that the flags have by default.
use arks.Prelude.{none, some, ◌≡◌, ◌↔◌, refl}
use arks.Boot.{
  Outside, Running, default_settings, main, init_redis_client, split, universal_options,
  create_rate_limiter, create_quota_service, create_config_provider, RedisSettings,
  UniversalOptions, RedisService, text_eq, Text, ok, text, pos, err,
}
use arks.Boot.Accepted.{Accepts, init_redis_client_iff}
use arks.Boot.Serving.{IsServing, main_iff}
use arks.Prelude.Text.{text, ok, text_eq, Text, err}
use arks.Prelude.Int.{pos}

abbrev sample_outside : Outside
sample_outside = record {
  Config = Unit {0};
  Provider = Unit {0};
  in_cluster_config = ok tt;
  build_config = λ path. err (text "no file");
  new_provider = λ config quota. ok tt;
  start = λ provider. none;
}

abbrev three_nodes : RedisSettings
three_nodes = record default_settings.redis { mode = text "Cluster"; addrs = text "a:1,b:2,c:3" }

init_redis_client_iff_example :
    ((opts : UniversalOptions) × (init_redis_client three_nodes ≡ ok opts)) ↔ Accepts three_nodes
init_redis_client_iff_example = init_redis_client_iff three_nodes

abbrev sample_service : Text → RedisService
sample_service prefix = record {
  client = some (universal_options default_settings.redis);
  key_prefix = prefix;
}

abbrev sample_running : Running sample_outside
sample_running = record {
  limiter = sample_service (text "arks-ratelimiter");
  quota = sample_service (text "arks-quota");
  provider = tt;
  grpc_port = pos 50052;
  http_port = pos 8080;
  metrics_port = pos 9110;
}

main_iff_example :
    (main sample_outside default_settings ≡ ok sample_running)
    ↔ IsServing sample_outside default_settings sample_running
main_iff_example = main_iff sample_outside default_settings sample_running

-- With the default flags the gateway gets to its servers.
main_default : main sample_outside default_settings ≡ ok sample_running
unfolding main init_redis_client split create_rate_limiter create_quota_service
    create_config_provider text_eq
main_default = refl
