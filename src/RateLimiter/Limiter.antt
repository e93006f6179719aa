-- ===== src/RateLimiter/Limiter.antt =====
-- pkg/gateway/ratelimiter/redis_impl.go: checking and counting requests in Redis.
-- `Moment` holds what a call reads of the clock and of `math/rand`.
use arks.Prelude.{ℕ, ◌+◌, ◌/◌, List, [], ◌∷◌, ◌++◌, Option, none, some, if◌then◌else◌}
use arks.Prelude.Int.{ℤ, pos, ◌+ℤ◌, ltb_ℤ, add64}
use arks.Prelude.Text.{Text, text, Result, ok, err}
use arks.Prelude.Decimal.{parse_int}
use arks.Redis.{
  Command, get, ttl, incr_by, expire, Reply, value, duration, error, RedisError, nil, failed, Redis,
}
use arks.RateLimiter.{LimitConfig, LimitRuleConfig, get_rule, RateLimitRequest, RateLimitResponse}
use arks.RateLimiter.Window.{generate, window_size}

pub record RedisRateLimiter : Type 0 where
  pub prefix : Text
  pub config : LimitConfig
  pub jitter : ℤ

-- `time.Now()` in nanoseconds since the Unix epoch, and the draw of `rand.Int63n` for each request.
pub record Moment : Type 0 where
  pub now : ℕ
  pub draw : ℕ → ℤ

abbrev pub unix : Moment → ℕ
unix at = at.now / 1000000000

-- `get_cmd` and `ttl_cmd` are the places of the two commands in the pipeline.
pub record CheckItem : Type 0 where
  pub req : RateLimitRequest
  pub get_cmd : ℕ
  pub ttl_cmd : ℕ

pub record CheckPlan : Type 0 where
  pub commands : List Command
  pub items : List (Option CheckItem)

module _ (c : RedisRateLimiter) (at : Moment) where
  abbrev pub key_of : RateLimitRequest → LimitRuleConfig → Text
  key_of req rule = generate c.prefix req rule (unix at)

  -- The first loop of `CheckLimit`; `n` commands are in the pipeline.
  unfoldable pub check_plan : ℕ → List RateLimitRequest → CheckPlan
  check_plan n [] = record { commands = []; items = [] }
  check_plan n (req ∷ rest) = elim (get_rule c.config req.rule_name) [
    | none ↦
        let plan = check_plan n rest in
        record { commands = plan.commands; items = none ∷ plan.items }
    | some rule ↦
        let plan = check_plan (n + 2) rest in
        record {
          commands = get (key_of req rule) ∷ ttl (key_of req rule) ∷ plan.commands;
          items = some (record { req = req; get_cmd = n; ttl_cmd = n + 1 }) ∷ plan.items;
        }
  ]

-- The counter that a GET shows: a missing key, an error and a text that is no number are 0.
abbrev pub current_value : Reply → ℤ
current_value (value t) = parse_int t
current_value _ = pos 0

-- A negative TTL says that there is no key or no expiry.
abbrev pub remaining : Reply → ℤ
remaining (duration d) = if ltb_ℤ d (pos 0) then pos 0 else d
remaining _ = pos 0

unfoldable pub check_response : Moment → (ℕ → Reply) → CheckItem → RateLimitResponse
check_response at replies item =
    let current = current_value (replies item.get_cmd) in
    record {
      rule_name = item.req.rule_name;
      over_limit = ltb_ℤ item.req.limit (add64 current item.req.request);
      current_usage = current;
      limit_max = item.req.limit;
      expires_at = pos at.now +ℤ remaining (replies item.ttl_cmd);
    }

abbrev pub check_responses :
    Moment → (ℕ → Reply) → List (Option CheckItem) → List (Option RateLimitResponse)
check_responses at replies [] = []
check_responses at replies (none ∷ items) = none ∷ check_responses at replies items
check_responses at replies (some item ∷ items) =
    some (check_response at replies item) ∷ check_responses at replies items

-- `err != nil && err != redis.Nil`
abbrev pub pipeline_error : Option RedisError → Option Text
pipeline_error none = none
pipeline_error (some nil) = none
pipeline_error (some (failed message)) = some message

abbrev pub when_no_error {ℓ} : {A : Type ℓ} → Option Text → A → Result A
when_no_error none a = ok a
when_no_error (some message) a = err message

-- The error of the pipeline whose `redis.Nil` counts too, for pipelines with no GET.
abbrev pub any_error : Option RedisError → Option Text
any_error none = none
any_error (some nil) = some (text "redis: nil")
any_error (some (failed message)) = some message

-- The commands that `DoLimit` queues for one request: the count, and the expiry where there is none.
abbrev pub expiration : RedisRateLimiter → LimitRuleConfig → ℤ → ℤ
expiration c rule drawn =
    if ltb_ℤ (pos 0) c.jitter then add64 (window_size rule) drawn else window_size rule

abbrev pub limit_commands : Text → ℤ → ℤ → ℤ → List Command
limit_commands key n d expiry =
    incr_by key n ∷ (if ltb_ℤ d (pos 0) then expire key expiry ∷ [] else [])

abbrev pub prepend : List Command → Result (List Command) → Result (List Command)
prepend cs (ok rest) = ok (cs ++ rest)
prepend cs (err message) = err message

abbrev pub error_text : RedisError → Text
error_text nil = text "redis: nil"
error_text (failed message) = message

module _ (r : Redis) (c : RedisRateLimiter) (at : Moment) where
  unfoldable pub check_limit :
      List RateLimitRequest → r.Store → Result (List (Option RateLimitResponse)) × r.Store
  unfolding check_plan
  check_limit requests s =
      let plan = check_plan c at 0 requests in
      let done = r.exec plan.commands s in
      (
        when_no_error (pipeline_error done.err) (check_responses at done.replies plan.items),
        done.store,
      )

  -- The loop of `DoLimit` from its n-th request: the TTL of each key is read at once, and an error of
  -- it returns.
  unfoldable pub limit_plan : ℕ → List RateLimitRequest → r.Store → Result (List Command) × r.Store
  limit_plan n [] s = (ok [], s)
  limit_plan n (req ∷ rest) s = elim (get_rule c.config req.rule_name) [
    | none ↦ limit_plan (n + 1) rest s
    | some rule ↦
        let key = key_of c at req rule in
        let (reply, s') = r.ttl_now key s in
        let (commands, s'') = limit_plan (n + 1) rest s' in
        elim reply [
          | error e ↦ (err (text "redis get ttl failed, err: " ++ error_text e), s')
          | duration d ↦ (
            prepend (limit_commands key req.request d (expiration c rule (at.draw n))) commands,
            s'',
          )
          | _ ↦ (prepend (incr_by key req.request ∷ []) commands, s'')
        ]
  ]

  abbrev pub run_plan : Result (List Command) → r.Store → Option Text × r.Store
  run_plan (err message) s = (some message, s)
  run_plan (ok commands) s = let done = r.exec commands s in (any_error done.err, done.store)

  -- `none` is Go's nil error.
  unfoldable pub do_limit : List RateLimitRequest → r.Store → Option Text × r.Store
  unfolding limit_plan
  do_limit requests s = let (plan, s') = limit_plan 0 requests s in run_plan plan s'

unfoldable pub get_rule_by_name : RedisRateLimiter → Text → Option LimitRuleConfig
unfolding get_rule
get_rule_by_name c name = get_rule c.config name
