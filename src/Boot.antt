-- ===== src/Boot.antt =====
-- cmd/gateway/main.go: the settings of the gateway, the client of Redis, and the start.
-- The flags, the Kubernetes client and the provider's cache are not part of the repository: `Outside` holds
-- what they answer. A Redis client is known by the options that `redis.NewUniversalClient` gets.
pub mod Accepted
pub mod Serving
pub mod Tests
use arks.Prelude.{
  none, ◌++◌, List, ℕ, ◌==◌, ltb, Option, [], length, some, ◌||◌, if◌then◌else◌, ◌∷◌,
}
use arks.Prelude.Text.{Text, text, text_eq, to_lower, Result, err, ok}
use arks.Prelude.Int.{ℤ, pos}

pub record RedisSettings : Type 0 where
  pub mode : Text
  pub addrs : Text
  pub username : Text
  pub password : Text
  pub db : ℤ
  pub master_name : Text
  pub pool_size : ℤ
  pub pool_timeout : ℤ
  pub max_retries : ℤ

pub record ServerSettings : Type 0 where
  pub grpc_port : ℤ
  pub http_port : ℤ
  pub log_level : ℤ

pub record ProviderSettings : Type 0 where
  pub type : Text
  pub kubeconfig : Text

-- `RateLimiterSettings` and `QuotaSettings` have the same fields.
pub record ServiceSettings : Type 0 where
  pub type : Text
  pub key_prefix : Text

pub record Settings : Type 0 where
  pub server : ServerSettings
  pub redis : RedisSettings
  pub provider : ProviderSettings
  pub rate_limit : ServiceSettings
  pub quota : ServiceSettings
  pub metrics_port : ℤ

-- The fields of `redis.UniversalOptions` that the gateway sets, and the master name, which it does not.
pub record UniversalOptions : Type 0 where
  pub addrs : List Text
  pub username : Text
  pub password : Text
  pub db : ℤ
  pub pool_size : ℤ
  pub pool_timeout : ℤ
  pub max_retries : ℤ
  pub master_name : Text

abbrev pub put_first : ℕ → List Text → List Text
put_first b [] = (b ∷ []) ∷ []
put_first b (t ∷ ts) = (b ∷ t) ∷ ts

-- `strings.Split` at one byte.
unfoldable pub split : ℕ → Text → List Text
split c [] = [] ∷ []
split c (b ∷ s) = let rest = split c s in if b == c then [] ∷ rest else put_first b rest

abbrev pub universal_options : RedisSettings → UniversalOptions
universal_options r = record {
  addrs = split b',' r.addrs;
  username = r.username;
  password = r.password;
  db = r.db;
  pool_size = r.pool_size;
  pool_timeout = r.pool_timeout;
  max_retries = r.max_retries;
  master_name = [];
}

-- The flags that `initFlags` and `initRedisFlags` declare, with no argument given.
abbrev pub default_settings : Settings
default_settings = record {
  server = record { grpc_port = pos 50052; http_port = pos 8080; log_level = pos 0 };
  redis = record {
    mode = text "single";
    addrs = text "127.0.0.1:6379";
    username = [];
    password = [];
    db = pos 0;
    master_name = [];
    pool_size = pos 10;
    pool_timeout = pos 10000000000;
    max_retries = pos 3;
  };
  provider = record { type = text "arks"; kubeconfig = [] };
  rate_limit = record { type = text "redis"; key_prefix = text "arks-ratelimiter" };
  quota = record { type = text "redis"; key_prefix = text "arks-quota" };
  metrics_port = pos 9110;
}

pub data Mode : Type 0 where
  single cluster sentinel unsupported : Mode

-- The cases of the switch on `strings.ToLower(r.Mode)`.
abbrev pub mode_of : Text → Mode
mode_of mode =
    if text_eq mode (text "single")
    then single
    else if text_eq mode (text "cluster")
    then cluster
    else if text_eq mode (text "sentinel")
    then sentinel
    else unsupported

-- The error of a mode, if it has one.
abbrev pub mode_error : Mode → RedisSettings → List Text → Option Text
mode_error single r addrs =
    if length addrs == 1 then none else some (text "redis address should be 1 for single mode")
mode_error cluster r addrs =
    if ltb (length addrs) 3
    then some (text "at least 3 addresses are required for cluster mode")
    else none
mode_error sentinel r addrs =
    if text_eq r.master_name []
    then some (text "master name is required for sentinel mode")
    else if length addrs == 0
    then some (text "sentinel addresses are required")
    else none
mode_error unsupported r addrs = some (text "unsupported redis mode: " ++ r.mode)

abbrev pub options_or : {A : Type 0} → A → Option Text → Result A
options_or a none = ok a
options_or a (some message) = err message

unfoldable pub init_redis_client : RedisSettings → Result UniversalOptions
unfolding split text_eq
init_redis_client r =
    let opts = universal_options r in
    options_or opts (mode_error (mode_of (to_lower r.mode)) r opts.addrs)

-- A limiter or a quota service over Redis: its client, nil where none was made, and its key prefix.
pub record RedisService : Type 0 where
  pub client : Option UniversalOptions
  pub key_prefix : Text

-- `createRateLimiter`, which reads the variable `redisClient`.
unfoldable pub create_rate_limiter : Option UniversalOptions → ServiceSettings → Result RedisService
create_rate_limiter client s =
    if text_eq s.type (text "redis")
    then ok (record { client = client; key_prefix = s.key_prefix })
    else err (text "invalid rate limiter type: " ++ s.type)

unfoldable pub create_quota_service :
    Option UniversalOptions → ServiceSettings → Result RedisService
create_quota_service client s =
    if text_eq s.type (text "redis")
    then ok (record { client = client; key_prefix = s.key_prefix })
    else err (text "invalid quota type: " ++ s.type)

-- What the Kubernetes client answers: configurations, a provider over one, and its start.
pub record Outside : Type 1 where
  pub Config : Type 0
  pub Provider : Type 0
  pub in_cluster_config : Result Config
  pub build_config : Text → Result Config
  pub new_provider : Config → RedisService → Result Provider
  pub start : Provider → Option Text

infixl 5 ◌>>=◌
abbrev pub ◌>>=◌ : {A B : Type 0} → Result A → (A → Result B) → Result B
ok a >>= f = f a
err message >>= f = err message

abbrev pub labelled : {A : Type 0} → Text → Result A → Result A
labelled front (ok a) = ok a
labelled front (err message) = err (front ++ message)

abbrev pub made : Result UniversalOptions → Result (Option UniversalOptions)
made (ok opts) = ok (some opts)
made (err message) = err message

module _ (o : Outside) where
  abbrev pub provider_over : RedisService → Result o.Config → Result o.Provider
  provider_over quota (ok config) = o.new_provider config quota
  provider_over quota (err message) = err message

  unfoldable pub create_config_provider : ProviderSettings → RedisService → Result o.Provider
  create_config_provider s quota =
      let config =
        if text_eq s.kubeconfig [] then o.in_cluster_config else o.build_config s.kubeconfig in
      if text_eq s.type (text "arks")
      then provider_over quota config
      else err (text "invalid config type: " ++ s.type)

  -- The server and its ports.
  pub record Running : Type 0 where
    pub limiter : RedisService
    pub quota : RedisService
    pub provider : o.Provider
    pub grpc_port : ℤ
    pub http_port : ℤ
    pub metrics_port : ℤ

  abbrev pub redis_client : Settings → Result (Option UniversalOptions)
  redis_client s =
      if text_eq s.rate_limit.type (text "redis") || text_eq s.quota.type (text "redis")
      then made (init_redis_client s.redis)
      else ok none

  abbrev pub start_provider : o.Provider → Result o.Provider
  start_provider p = options_or p (o.start p)

  abbrev pub serve : Settings → RedisService → RedisService → o.Provider → Result Running
  serve s limiter quota provider = ok (record {
    limiter = limiter;
    quota = quota;
    provider = provider;
    grpc_port = s.server.grpc_port;
    http_port = s.server.http_port;
    metrics_port = s.metrics_port;
  })

  abbrev pub with_provider : Settings → RedisService → RedisService → o.Provider → Result Running
  with_provider s limiter quota provider =
      labelled (text "start config provider failed: ") (start_provider provider)
      >>= serve s limiter quota

  abbrev pub with_quota : Settings → RedisService → RedisService → Result Running
  with_quota s limiter quota =
      labelled (text "failed to create config provider: ") (create_config_provider s.provider quota)
      >>= with_provider s limiter quota

  abbrev pub with_limiter : Settings → Option UniversalOptions → RedisService → Result Running
  with_limiter s client limiter =
      labelled (text "failed to create quota service: ") (create_quota_service client s.quota)
      >>= with_quota s limiter

  abbrev pub with_client : Settings → Option UniversalOptions → Result Running
  with_client s client =
      labelled (text "failed to create cache: ") (create_rate_limiter client s.rate_limit)
      >>= with_limiter s client

  -- `main` up to the servers; an error is the message of `klog.Fatalf`, which exits.
  unfoldable pub main : Settings → Result Running
  unfolding init_redis_client create_rate_limiter create_quota_service create_config_provider
  main s = labelled (text "failed to initialize redis client: ") (redis_client s) >>= with_client s
