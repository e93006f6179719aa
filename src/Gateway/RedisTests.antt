-- ===== src/Gateway/RedisTests.antt =====
-- Examples for the gateway over Redis: a user with one limit of five requests a minute.
use arks.Prelude.{
  none, ℕ, refl, [], arith, false, All, some, ◌≡◌, ◌∷◌, ◌^◌, ◌*◌, ◌<◌, ◌+◌, true, Option,
}
use arks.RateLimiter.Tests.{expires}
use arks.Gateway.Tests.{sample_codec}
use arks.Redis.Counters.{memory, memory_laws, memory_view}
use arks.Samples.{sample_limiter, sample_moment, sample_qos, empty}
use arks.Services.{ConfigProvider}
use arks.Gateway.Messages.{
  to_rate_limit_request, State, go_on_body, Server, error_response, Codec, no_usage,
}
use arks.Gateway.Streamed.{recorded, handle_response_body-spends}
use arks.Redis.{Holds}
use arks.Gateway.Spent.{count_tokens-spends}
use arks.Gateway.Tokens.{spends, quota_spends}
use arks.Gateway.Response.{count_tokens, count_map, handle_response_body}
use arks.Quota.Counting.{total_usage}
use arks.QosConfig.{quota_requests, to_quota_request, qos_to_quota_requests}
use arks.Samples.{sample_quota}
use arks.RateLimiter.{tpm}
use arks.Gateway.Messages.{CompletionUsage, pass_body}
use arks.Gateway.Refused.{IsRefusal, handle_request_body-refused}
use arks.Gateway.Kept.{HasRoom}
use arks.Gateway.Wiring.{new_server}
use arks.Gateway.Kept.{one_more, grown}
use arks.Gateway.Room.{Room}
use arks.Gateway.Counted.{handle_request_body-one_more}
use arks.Gateway.Request.{
  handle_request_body, after_parse, admitted_headers, after_qos, after_models, check_request,
  count_request, contains,
}
use arks.RateLimiter.Limiter.{
  check_limit, check_plan, check_response, do_limit, limit_plan, get_rule_by_name,
}
use arks.RateLimiter.{get_rule, new_limit_config, add_rule, rpm}
use arks.Gateway.Limits.{check_rate_limit, limit_requests, do_request_rate_limit}
use arks.RateLimiter.Refined.{Represents}
use arks.Prelude.Text.{text_eq, ok, Text, text, err}
use arks.Prelude.Int.{add64, pos}
use arks.Gateway.Concurrent.{Reach, system}
use arks.Gateway.Concurrent.Passing.{HasRule}
use arks.Gateway.Concurrent.Race.{all_admitted}
use arks.Gateway.Concurrent.Invariant.{Below, Reach-Below}
use arks.QosConfig.{UserQos}
use arks.Gateway.Response.Parts.{seen}

abbrev sample_provider : ConfigProvider memory.Store
sample_provider = record {
  get_qos_by_token = λ token model w. ok (some sample_qos);
  get_quota_config = λ namespace name w. err (text "no quota");
  get_model_list = λ namespace w. ok (text "qwen" ∷ []);
  get_models_by_token = λ token w. ok (text "qwen" ∷ []);
}

abbrev redis_server : Server memory.Store
redis_server =
    new_server memory sample_limiter sample_moment (text "arks-quota") sample_provider sample_codec

abbrev sample_state : State memory.Store
sample_state = record { world = empty; buffers = λ id. none; timed = λ id. false; metrics = [] }

no_counts : Text → ℕ
no_counts j = 0

sample-Room : All (Room sample_limiter sample_moment no_counts sample_qos) sample_qos.rate_limits
unfolding get_rule new_limit_config add_rule text_eq no_counts
sample-Room = (omega arith, tt)

sample_goes_on :
    (handle_request_body redis_server (text "body") (text "t") sample_state).0.resp
    ≡ go_on_body (admitted_headers (text "qwen") sample_qos)
unfolding handle_request_body after_parse after_qos after_models check_request count_request
    contains check_rate_limit limit_requests do_request_rate_limit get_rule new_limit_config
    add_rule text_eq check_limit check_plan check_response do_limit limit_plan get_rule_by_name
    add64 to_rate_limit_request
sample_goes_on = refl

handle_request_body-one_more_example :
    Represents memory_laws sample_limiter sample_moment
      (handle_request_body redis_server (text "body") (text "t") sample_state).1.world
      (one_more sample_limiter sample_moment sample_qos no_counts)
unfolding no_counts
handle_request_body-one_more_example =
    (handle_request_body-one_more memory_laws sample_limiter sample_moment (text "arks-quota")
      sample_provider sample_codec expires (text "body") (text "t") sample_state
      (admitted_headers (text "qwen") sample_qos) no_counts _ sample_qos refl refl
      (λ j. omega arith) (tt, λ j. refl) sample_goes_on).1

sample-HasRule : All (HasRule sample_limiter) sample_qos.rate_limits
unfolding get_rule new_limit_config add_rule text_eq
sample-HasRule = ((rpm, refl), tt)

abbrev Run : ℕ → ℕ → ℕ → State memory.Store → Type 0
Run fresh waiting admitted st =
    Reach memory sample_limiter sample_moment (text "arks-quota") sample_provider sample_codec
      sample_qos 9 9 sample_state
      (system memory sample_limiter sample_moment (text "arks-quota") sample_provider sample_codec
        sample_qos fresh waiting admitted st)

-- Nine requests that arrive at once are all counted, under a limit of five.
all_admitted_example :
    (end : State memory.Store) × Run 0 0 9 end
    × Represents memory_laws sample_limiter sample_moment end.world
        (grown sample_limiter sample_moment sample_qos no_counts 9)
unfolding no_counts
all_admitted_example =
    all_admitted memory_laws sample_limiter sample_moment (text "arks-quota") sample_provider
      sample_codec sample_qos expires refl sample-HasRule 9 sample_state no_counts sample-Room
      (λ j. omega arith) (tt, λ j. refl)

abbrev nine :
    (end : State memory.Store) × Run 0 0 9 end
    × Represents memory_laws sample_limiter sample_moment end.world
        (grown sample_limiter sample_moment sample_qos no_counts 9)
unfolding no_counts
nine =
    all_admitted memory_laws sample_limiter sample_moment (text "arks-quota") sample_provider
      sample_codec sample_qos expires refl sample-HasRule 9 sample_state no_counts sample-Room
      (λ j. omega arith) (tt, λ j. refl)

Reach-Below_example :
    Represents memory_laws sample_limiter sample_moment nine.0.world
      (grown sample_limiter sample_moment sample_qos no_counts 9)
    × All
        (Below memory_laws sample_limiter sample_moment
          (text "arks-quota")
          sample_provider
          sample_codec
          sample_qos
          9
          (grown sample_limiter sample_moment sample_qos no_counts 9)
          0)
        sample_qos.rate_limits
unfolding no_counts
Reach-Below_example =
    Reach-Below memory_laws sample_limiter sample_moment (text "arks-quota") sample_provider
      sample_codec sample_qos expires 9 9 sample_state no_counts sample-Room (λ j. omega arith)
      (tt, λ j. refl) nine.1

-- The user's namespace serves no model.
abbrev empty_provider : ConfigProvider memory.Store
empty_provider = record sample_provider { get_model_list = λ namespace w. ok [] }

sample-IsRefusal :
    IsRefusal
      (handle_request_body
        (new_server memory sample_limiter sample_moment
          (text "arks-quota")
          empty_provider
          sample_codec)
        (text "body")
        (text "t")
        sample_state).0.resp
unfolding handle_request_body after_parse after_qos after_models contains text_eq error_response
sample-IsRefusal hs h = cc

sample-HasRoom :
    (qos : UserQos) → ok (some sample_qos) ≡ ok (some qos) → HasRoom no_counts qos.rate_limits
unfolding no_counts
sample-HasRoom qos e = let same : sample_qos ≡ qos = cc in rw (← same) (λ j. omega arith)

handle_request_body-refused_example :
    Represents memory_laws sample_limiter sample_moment
      (handle_request_body
        (new_server memory sample_limiter sample_moment
          (text "arks-quota")
          empty_provider
          sample_codec)
        (text "body")
        (text "t")
        sample_state).1.world
      no_counts
unfolding no_counts
handle_request_body-refused_example =
    handle_request_body-refused memory_laws sample_limiter sample_moment (text "arks-quota")
      empty_provider sample_codec expires no_counts (text "body") (text "t") sample_state
      (λ model qos e. sample-HasRoom qos e) (tt, λ j. refl) sample-IsRefusal

abbrev token_qos : UserQos
token_qos = record sample_qos {
  quota_name = text "basic";
  rate_limits = record { type = text "tpm"; value = pos 100 } ∷ [];
}

abbrev quota_provider : ConfigProvider memory.Store
quota_provider = record sample_provider { get_quota_config = λ namespace name w. ok sample_quota }

abbrev seven_tokens : CompletionUsage
seven_tokens = record { prompt_tokens = pos 3; completion_tokens = pos 4; total_tokens = pos 7 }

token-HasRule : All (HasRule sample_limiter) token_qos.rate_limits
unfolding get_rule new_limit_config add_rule text_eq
token-HasRule = ((tpm, refl), tt)

token_room :
    (j : Text)
    → no_counts j
        + spends sample_limiter sample_moment token_qos 7 token_qos.rate_limits j
        + 7 * 1
        + total_usage
            (text "arks-quota")
            (qos_to_quota_requests sample_quota (count_map seven_tokens))
      < 2 ^ 63
unfolding no_counts get_rule new_limit_config add_rule text_eq qos_to_quota_requests quota_requests
    to_quota_request
token_room j = ground arith

count_tokens-spends_example :
    (count_tokens
      (new_server memory sample_limiter sample_moment
        (text "arks-quota")
        quota_provider
        sample_codec)
      token_qos
      seven_tokens
      empty).0
    ≡ pass_body
unfolding no_counts
count_tokens-spends_example =
    (count_tokens-spends memory_laws sample_limiter sample_moment (text "arks-quota") quota_provider
      sample_codec expires token_qos token-HasRule no_counts seven_tokens 3 4 7 sample_quota empty
      (record { prompt_eq = refl; completion_eq = refl; total_eq = refl }) (λ e. cc) (λ w. refl)
      token_room (tt, λ j. refl)).0

-- Two events, the last one with the usage and without choices.
abbrev token_codec : Codec
token_codec = record sample_codec {
  decode_stream = λ body. record {
    chunks =
        record { choices = 1; usage = no_usage }
        ∷ record { choices = 0; usage = seven_tokens }
        ∷ [];
    failure = none;
  };
}

handle_response_body-spends_example :
    (w : Text → Option Text) × (seen (
        handle_response_body
          (new_server memory sample_limiter sample_moment
            (text "arks-quota")
            quota_provider
            token_codec)
          (text "id")
          (text "part")
          true
          token_qos
          (text "qwen")
          true
          false
          sample_state)
      ≡ (pass_body, true, w, recorded token_qos true false (text "qwen") 3 4 []))
    × ((j : Text)
        → Holds (memory_view.read w j) (
            no_counts j
            + spends sample_limiter sample_moment token_qos 7 token_qos.rate_limits j
            + quota_spends (text "arks-quota") 3 4 7 sample_quota sample_quota.limits j))
unfolding no_counts
handle_response_body-spends_example =
    handle_response_body-spends memory_laws sample_limiter sample_moment (text "arks-quota")
      quota_provider token_codec expires token_qos token-HasRule no_counts (text "id") (text "part")
      true false (text "qwen") sample_state seven_tokens 3 4 7 sample_quota refl
      (record {
        before = record { choices = 1; usage = no_usage } ∷ [];
        evt = record { choices = 0; usage = seven_tokens };
        after = [];
        events = refl;
        no_choices = refl;
        choices = tt;
        usage_eq = refl;
      })
      (record { prompt_eq = refl; completion_eq = refl; total_eq = refl }) (omega arith) (λ e. cc)
      (λ w. refl) token_room (tt, λ j. refl)
