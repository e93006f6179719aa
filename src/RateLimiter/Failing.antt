-- ===== src/RateLimiter/Failing.antt =====
-- What `DoLimit` leaves when it fails.
use arks.Prelude.{
  ℕ, List, ◌≡◌, ◌∷◌, ◌⊎◌, some, none, ◌+◌, ◌∙◌, ◌++◌, ◌≢◌, Option-cases, inl, inr, refl, [],
}
use arks.Prelude.Text.{Result, ok, err, Text}
use arks.Redis.{
  Redis, Reply, Command, RedisView, RedisError, RedisLaws, error, duration, value, done, incr_by,
}
use arks.RateLimiter.Limiter.{
  RedisRateLimiter, Moment, prepend, limit_plan, run_plan, key_of, do_limit, limit_commands,
  expiration,
}
use arks.RateLimiter.{RateLimitRequest, LimitRuleConfig, get_rule, ℤ}
use arks.Prelude.Int.{ℤ}
use arks.Prelude.Decimal.{value}

Reply-cases :
    (reply : Reply)
    → ((x : RedisError) × (reply ≡ error x))
      ⊎ ((d : ℤ) × (reply ≡ duration d))
      ⊎ ((t : Text) × (reply ≡ value t))
      ⊎ (reply ≡ done)
Reply-cases (error x) = inl (x, refl)
Reply-cases (duration d) = inr (inl (d, refl))
Reply-cases (value t) = inr (inr (inl (t, refl)))
Reply-cases done = inr (inr (inr refl))

module _ (r : Redis) (c : RedisRateLimiter) (at : Moment) where
  -- A property of the whole plan from its parts: the store after each TTL, and the rest of the loop.
  limit_plan_cases :
      (P : Result (List Command) × r.Store → Type 0) (n : ℕ) (req : RateLimitRequest)
      (rest : List RateLimitRequest) (s : r.Store)
      → (get_rule c.config req.rule_name ≡ none → P (limit_plan r c at (n + 1) rest s))
      → ((rule : LimitRuleConfig) (m : Text)
          → get_rule c.config req.rule_name ≡ some rule
          → P (err m, (r.ttl_now (key_of c at req rule) s).1))
      → ((rule : LimitRuleConfig) (cs : List Command)
          → get_rule c.config req.rule_name ≡ some rule
          → ((x : RedisError) → (r.ttl_now (key_of c at req rule) s).0 ≢ error x)
          → let (more, s') =
              limit_plan r c at (n + 1) rest (r.ttl_now (key_of c at req rule) s).1 in
            P (prepend cs more, s'))
      → P (limit_plan r c at n (req ∷ rest) s)
  unfolding limit_plan
  limit_plan_cases P n req rest s skip fail go =
      elim (Option-cases (get_rule c.config req.rule_name)) [
        | inl e ↦ rw (e, limit_plan) (skip e)
        | inr (rule, e) ↦ elim (Reply-cases (r.ttl_now (key_of c at req rule) s).0) [
          | inl (x, a) ↦ rw (e, limit_plan) (rw (a, limit_plan) (fail rule _ e))
          | inr (inl (d, a)) ↦
              rw (e, limit_plan)
                (rw (a, limit_plan)
                  (go rule
                    (limit_commands (key_of c at req rule) req.request d
                      (expiration c rule (at.draw n)))
                    e (λ x q. cc)))
          | inr (inr (inl (t, a))) ↦
              rw (e, limit_plan)
                (rw (a, limit_plan)
                  (go rule (incr_by (key_of c at req rule) req.request ∷ []) e (λ x q. cc)))
          | inr (inr (inr a)) ↦
              rw (e, limit_plan)
                (rw (a, limit_plan)
                  (go rule (incr_by (key_of c at req rule) req.request ∷ []) e (λ x q. cc)))
        ]
      ]

abbrev IsErr {ℓ} : {A : Type ℓ} → Result A → Type 0
IsErr (ok a) = ⊥
IsErr (err m) = Unit

IsErr-prepend :
    (cs : List Command) (more : Result (List Command)) → IsErr more → IsErr (prepend cs more)
IsErr-prepend cs (ok a) h = h
IsErr-prepend cs (err m) h = h

run_plan-IsErr :
    (r : Redis) (c : RedisRateLimiter) (at : Moment) (p : Result (List Command) × r.Store)
    → IsErr p.0
    → (m : Text) × (run_plan r c at p.0 p.1 ≡ (some m, p.1))
run_plan-IsErr r c at (ok cs, s) h = absurd h
run_plan-IsErr r c at (err m, s) h = (m, refl)

module _ {r : Redis} {v : RedisView r} (l : RedisLaws v) (c : RedisRateLimiter) (at : Moment) where
  limit_plan-read :
      (n : ℕ) (requests : List RateLimitRequest) (s : r.Store) (j : Text)
      → v.read (limit_plan r c at n requests s).1 j ≡ v.read s j
  limit_plan-read n [] s j = unfold limit_plan in refl
  limit_plan-read n (req ∷ rest) s j =
      limit_plan_cases r c at (λ p. v.read p.1 j ≡ v.read s j) n req rest s
        (λ e. limit_plan-read (n + 1) rest s j)
        (λ rule m e. l.read-ttl_now (key_of c at req rule) j s)
        (λ rule cs e _.
          limit_plan-read (n + 1) rest (r.ttl_now (key_of c at req rule) s).1 j
          ∙ l.read-ttl_now (key_of c at req rule) j s)

  module _ (req : RateLimitRequest) (rule : LimitRuleConfig)
      (known : get_rule c.config req.rule_name ≡ some rule)
      (broken : (s : r.Store)
        → (x : RedisError) × ((r.ttl_now (key_of c at req rule) s).0 ≡ error x)) where
    limit_plan_fails :
        (n : ℕ) (before after : List RateLimitRequest) (s : r.Store)
        → IsErr (limit_plan r c at n (before ++ (req ∷ after)) s).0
    limit_plan_fails n [] after s =
        limit_plan_cases r c at (λ p. IsErr p.0) n req after s (λ e. cc) (λ _ m e. tt)
          (λ rule' cs e fine.
            let same : rule ≡ rule' = cc in let (x, q) = broken s in absurd (fine x (rw same at q)))
    limit_plan_fails n (other ∷ before) after s =
        limit_plan_cases r c at (λ p. IsErr p.0) n other (before ++ (req ∷ after)) s
          (λ e. limit_plan_fails (n + 1) before after s) (λ _ m e. tt)
          (λ rule' cs e fine. IsErr-prepend cs _ (limit_plan_fails (n + 1) before after _))

    -- If the TTL of one request under a known rule always fails, `DoLimit` fails, and has counted
    -- nothing: not that request, nor those before it.
    do_limit_ttl_fails :
        (before after : List RateLimitRequest) (s : r.Store)
        → (m : Text) × ((do_limit r c at (before ++ (req ∷ after)) s).0 ≡ some m)
          × ((j : Text) → v.read (do_limit r c at (before ++ (req ∷ after)) s).1 j ≡ v.read s j)
    unfolding do_limit
    do_limit_ttl_fails before after s =
        let requests = before ++ (req ∷ after) in
        let (m, e) =
          run_plan-IsErr r c at (limit_plan r c at 0 requests s)
            (limit_plan_fails 0 before after s) in
        (m, rw e refl, λ j. rw e (limit_plan-read 0 requests s j))
