-- ===== src/Boot/Serving.antt =====
-- cmd/gateway/main.go: when `main` gets to its servers, and what they are built from.
use arks.Prelude.{
  none, if◌then◌else◌, inr, inl, refl, Bool-cases, Option, [], ◌≡◌, some, ap, sym, ◌∙◌, ◌↔◌,
}
use arks.Boot.{
  Outside, Running, Settings, ServiceSettings, RedisService, main, labelled, ◌>>=◌, redis_client,
  made, create_rate_limiter, create_quota_service, create_config_provider, provider_over,
  start_provider, init_redis_client, options_or, UniversalOptions, ProviderSettings, Result,
  with_client, with_limiter, with_quota, with_provider, serve,
}
use arks.Prelude.Text.{Text, text, text_eq, eq_of_text_eq, ok, err, Result}

labelled-ok :
    {A B : Type 0} (front : Text) (m : Result A) (f : A → Result B) (b : B)
    → (labelled front m >>= f) ≡ ok b
    → (a : A) × (m ≡ ok a) × (f a ≡ ok b)
labelled-ok front (ok a) f b h = (a, refl, h)
labelled-ok front (err m) f b h = cc

abbrev over : Option UniversalOptions → ServiceSettings → RedisService
over client s = record { client = client; key_prefix = s.key_prefix }

create_rate_limiter-ok :
    (client : Option UniversalOptions) (s : ServiceSettings) (x : RedisService)
    → create_rate_limiter client s ≡ ok x
    → (s.type ≡ text "redis") × (x ≡ over client s)
unfolding create_rate_limiter
create_rate_limiter-ok client s x = elim (Bool-cases (text_eq s.type (text "redis"))) [
  | inl e ↦ rw e (λ h. (eq_of_text_eq s.type (text "redis") e, cc))
  | inr e ↦ rw e (λ h. cc)
]

create_quota_service-ok :
    (client : Option UniversalOptions) (s : ServiceSettings) (x : RedisService)
    → create_quota_service client s ≡ ok x
    → (s.type ≡ text "redis") × (x ≡ over client s)
unfolding create_quota_service
create_quota_service-ok client s x = elim (Bool-cases (text_eq s.type (text "redis"))) [
  | inl e ↦ rw e (λ h. (eq_of_text_eq s.type (text "redis") e, cc))
  | inr e ↦ rw e (λ h. cc)
]

made-ok :
    (m : Result UniversalOptions) (client : Option UniversalOptions)
    → made m ≡ ok client
    → (opts : UniversalOptions) × (m ≡ ok opts) × (client ≡ some opts)
made-ok (ok opts) client h = (opts, refl, cc)
made-ok (err m) client h = cc

module _ (o : Outside) where
  -- The configuration that the provider is over: that of the cluster, or of the named file.
  abbrev pub config_of : ProviderSettings → Result o.Config
  config_of s = if text_eq s.kubeconfig [] then o.in_cluster_config else o.build_config s.kubeconfig

  -- The limiter and the quota service are over Redis, with one client whose settings are accepted, and the
  -- provider is over Kubernetes and has started.
  pub record IsServing (s : Settings) (g : Running o) : Type 0 where
    pub opts : UniversalOptions
    pub config : o.Config
    pub limiter_type : s.rate_limit.type ≡ text "redis"
    pub quota_type : s.quota.type ≡ text "redis"
    pub provider_type : s.provider.type ≡ text "arks"
    pub accepted : init_redis_client s.redis ≡ ok opts
    pub limiter : g.limiter ≡ over (some opts) s.rate_limit
    pub quota : g.quota ≡ over (some opts) s.quota
    pub configured : config_of s.provider ≡ ok config
    pub provided : o.new_provider config g.quota ≡ ok g.provider
    pub started : o.start g.provider ≡ none
    pub ports :
        (g.grpc_port ≡ s.server.grpc_port)
        × (g.http_port ≡ s.server.http_port)
        × (g.metrics_port ≡ s.metrics_port)

  redis_client-ok :
      (s : Settings) (client : Option UniversalOptions)
      → s.rate_limit.type ≡ text "redis"
      → redis_client o s ≡ ok client
      → (opts : UniversalOptions) × (init_redis_client s.redis ≡ ok opts) × (client ≡ some opts)
  unfolding text_eq
  redis_client-ok s client e h = made-ok (init_redis_client s.redis) client (rw e at h)

  provider_over-ok :
      (quota : RedisService) (config : Result o.Config) (p : o.Provider)
      → provider_over o quota config ≡ ok p
      → (c : o.Config) × (config ≡ ok c) × (o.new_provider c quota ≡ ok p)
  provider_over-ok quota (ok c) p h = (c, refl, h)
  provider_over-ok quota (err m) p h = cc

  create_config_provider-ok :
      (s : ProviderSettings) (quota : RedisService) (p : o.Provider)
      → create_config_provider o s quota ≡ ok p
      → (s.type ≡ text "arks")
        × ((c : o.Config) × (config_of s ≡ ok c) × (o.new_provider c quota ≡ ok p))
  unfolding create_config_provider
  create_config_provider-ok s quota p = elim (Bool-cases (text_eq s.type (text "arks"))) [
    | inl e ↦
        rw e (λ h. (eq_of_text_eq s.type (text "arks") e, provider_over-ok quota (config_of s) p h))
    | inr e ↦ rw e (λ h. cc)
  ]

  start_provider-ok :
      (p q : o.Provider) (answer : Option Text)
      → options_or p answer ≡ ok q
      → (answer ≡ none) × (q ≡ p)
  start_provider-ok p q none h = (refl, cc)
  start_provider-ok p q (some m) h = cc

  main-IsServing : (s : Settings) (g : Running o) → main o s ≡ ok g → IsServing s g
  unfolding main
  main-IsServing s g h =
      let (client, h1, k1) =
        labelled-ok (text "failed to initialize redis client: ") (redis_client o s)
          (with_client o s) g h in
      let (limiter, h2, k2) =
        labelled-ok (text "failed to create cache: ") (create_rate_limiter client s.rate_limit)
          (with_limiter o s client) g k1 in
      let (quota, h3, k3) =
        labelled-ok (text "failed to create quota service: ") (create_quota_service client s.quota)
          (with_quota o s limiter) g k2 in
      let (provider, h4, k4) =
        labelled-ok (text "failed to create config provider: ")
          (create_config_provider o s.provider quota) (with_provider o s limiter quota) g k3 in
      let (started, h5, k5) =
        labelled-ok (text "start config provider failed: ") (start_provider o provider)
          (serve o s limiter quota) g k4 in
      let (t1, l) = create_rate_limiter-ok client s.rate_limit limiter h2 in
      let (t2, q) = create_quota_service-ok client s.quota quota h3 in
      let (opts, accepted, c) = redis_client-ok s client t1 h1 in
      let (t3, (config, configured, provided)) =
        create_config_provider-ok s.provider quota provider h4 in
      let (begun, p) = start_provider-ok provider started (o.start provider) h5 in
      let same : record {
        limiter = limiter;
        quota = quota;
        provider = started;
        grpc_port = s.server.grpc_port;
        http_port = s.server.http_port;
        metrics_port = s.metrics_port;
      }
          ≡ g =
        cc in
      rw (← same) (record {
        opts = opts;
        config = config;
        limiter_type = t1;
        quota_type = t2;
        provider_type = t3;
        accepted = accepted;
        limiter = l ∙ ap (λ x. over x s.rate_limit) c;
        quota = q ∙ ap (λ x. over x s.quota) c;
        configured = configured;
        provided = provided ∙ ap ok (sym p);
        started = ap o.start p ∙ begun;
        ports = (refl, refl, refl);
      })

  module _ (s : Settings) (g : Running o) (q : IsServing s g) where
    client_made : redis_client o s ≡ ok (some q.opts)
    unfolding text_eq
    client_made = rw q.limiter_type (rw q.accepted refl)

    limiter_made : create_rate_limiter (some q.opts) s.rate_limit ≡ ok g.limiter
    unfolding create_rate_limiter text_eq
    limiter_made = rw q.limiter_type (ap ok (sym q.limiter))

    quota_made : create_quota_service (some q.opts) s.quota ≡ ok g.quota
    unfolding create_quota_service text_eq
    quota_made = rw q.quota_type (ap ok (sym q.quota))

    provider_made : create_config_provider o s.provider g.quota ≡ ok g.provider
    unfolding create_config_provider text_eq
    provider_made = rw q.provider_type (rw q.configured q.provided)

    IsServing-main : main o s ≡ ok g
    unfolding main
    IsServing-main =
        let (grpc, http, metrics) = q.ports in
        rw
          (
            client_made,
            limiter_made,
            quota_made,
            provider_made,
            q.started,
            ← grpc,
            ← http,
            ← metrics,
          )
          refl

  -- `main` gets to its servers exactly when the rate limiter and the quota service are over Redis, the
  -- settings of Redis are accepted, and the provider is over Kubernetes, has a configuration and starts;
  -- the limiter and the quota service then have the one client, and the servers the ports of the settings.
  pub main_iff : (s : Settings) (g : Running o) → (main o s ≡ ok g) ↔ IsServing s g
  main_iff s g = (main-IsServing s g, IsServing-main s g)
