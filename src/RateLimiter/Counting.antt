-- ===== src/RateLimiter/Counting.antt =====
-- What `DoLimit` counts on a reachable Redis, and what an error leaves.
use arks.Prelude.{
  refl, ℕ, ◌+◌, ◌<◌, ◌≡◌, List, [], ◌∷◌, Option, none, some, if◌then◌else◌, Bool-cases, inl, inr,
  arith, ◌^◌, All, ◌++◌, Option-cases, ◌∙◌,
}
use arks.Prelude.Int.{pos, pos_part, ℤ, ltb_ℤ}
use arks.Prelude.Text.{Text, text_eq, ok}
use arks.RateLimiter.{LimitRuleConfig, RateLimitRequest, get_rule}
use arks.RateLimiter.Limiter.{
  RedisRateLimiter, Moment, key_of, expiration, limit_plan, limit_commands, prepend, do_limit,
}
use arks.Redis.{Redis, RedisView, RedisLaws, Command, Holds, expire, duration}
use arks.Redis.Pipelines.{Adds, Adds-incr_by, Adds-nil, Adds-conv, Adds-expire}

module _ (c : RedisRateLimiter) (at : Moment) where
  abbrev pub amount : RateLimitRequest → ℕ
  amount req = pos_part req.request

  abbrev charge_if : Option LimitRuleConfig → RateLimitRequest → Text → ℕ
  charge_if none req j = 0
  charge_if (some rule) req j = if text_eq (key_of c at req rule) j then amount req else 0

  -- What a list of requests adds to the counter under a key.
  abbrev pub charge : List RateLimitRequest → Text → ℕ
  charge [] j = 0
  charge (req ∷ rest) j = charge_if (get_rule c.config req.rule_name) req j + charge rest j

  abbrev pub total : List RateLimitRequest → ℕ
  total [] = 0
  total (req ∷ rest) = amount req + total rest

  abbrev pub IsCount : RateLimitRequest → Type 0
  IsCount req = req.request ≡ pos (amount req)

  -- Every expiry that `DoLimit` could set lies in the future.
  abbrev pub Expires : Type 0
  Expires =
      (n : ℕ) (name : Text) (rule : LimitRuleConfig)
      → get_rule c.config name ≡ some rule
      → (d : ℕ) × (expiration c rule (at.draw n) ≡ pos d) × (0 < d)

module _ (r : Redis) (c : RedisRateLimiter) (at : Moment) (n : ℕ) (req : RateLimitRequest)
    (rest : List RateLimitRequest) (s : r.Store) where
  limit_plan-none :
      get_rule c.config req.rule_name ≡ none
      → limit_plan r c at n (req ∷ rest) s ≡ limit_plan r c at (n + 1) rest s
  unfolding limit_plan
  limit_plan-none e = rw (e, limit_plan)

  abbrev rest_store : LimitRuleConfig → r.Store
  rest_store rule = (r.ttl_now (key_of c at req rule) s).1

  limit_plan-some :
      {rule : LimitRuleConfig}
      → get_rule c.config req.rule_name ≡ some rule
      → (d : ℤ) → (r.ttl_now (key_of c at req rule) s).0 ≡ duration d
      → limit_plan r c at n (req ∷ rest) s ≡ (
        prepend
            (limit_commands (key_of c at req rule) req.request d (expiration c rule (at.draw n)))
            (limit_plan r c at (n + 1) rest (rest_store rule)).0,
        (limit_plan r c at (n + 1) rest (rest_store rule)).1,
      )
  unfolding limit_plan
  limit_plan-some e d answer = rw (e, limit_plan) (rw (answer, limit_plan))

module _ {r : Redis} {v : RedisView r} (l : RedisLaws v) (c : RedisRateLimiter) (at : Moment)
    (future : Expires c at) where
  Adds-limit_commands :
      (key : Text) (a : ℕ) (d : ℤ) (e : ℕ) (cs : List Command) (w : Text → ℕ) (bound : ℕ)
      → 0 < e
      → Adds l cs w bound
      → Adds l
          (limit_commands key (pos a) d (pos e) ++ cs)
          (λ j. (if text_eq key j then a else 0) + w j)
          (a + bound)
  Adds-limit_commands key a d e cs w bound later more = elim (Bool-cases (ltb_ℤ d (pos 0))) [
    | inl fresh ↦ rw fresh (
        Adds-incr_by l key a (expire key (pos e) ∷ cs) w bound
          (Adds-expire l key e cs w bound later more))
    | inr kept ↦ rw kept (Adds-incr_by l key a cs w bound more)
  ]

  -- The plan of `DoLimit` adds the amounts of the requests under known rules.
  pub limit_plan-Adds :
      (n : ℕ) (requests : List RateLimitRequest) (s : r.Store)
      → All (IsCount c at) requests
      → v.Reachable s
      → (cs : List Command) × ((limit_plan r c at n requests s).0 ≡ ok cs)
        × v.Reachable (limit_plan r c at n requests s).1
        × ((j : Text) → v.read (limit_plan r c at n requests s).1 j ≡ v.read s j)
        × Adds l cs (charge c at requests) (total c at requests)
  limit_plan-Adds n [] s counts up = unfold limit_plan in ([], refl, up, λ j. refl, Adds-nil l)
  limit_plan-Adds n (req ∷ rest) s counts up =
      elim (Option-cases (get_rule c.config req.rule_name)) [
        | inl e ↦
            let (cs, p, up', same, adds) = limit_plan-Adds (n + 1) rest s counts.1 up in
            rw (limit_plan-none r c at n req rest s e) (
              cs,
              p,
              up',
              same,
              Adds-conv l cs _ _ _ _ (λ j. rw e (omega arith)) (omega arith) adds,
            )
        | inr (rule, e) ↦
            let key = key_of c at req rule in
            let (d, answer) = l.ttl_now-reply key s up in
            let (x, late, later) = future n req.rule_name rule e in
            let (cs, p, up', same, adds) =
              limit_plan-Adds (n + 1) rest (r.ttl_now key s).1 counts.1
                (l.ttl_now-Reachable key s up) in
            rw (limit_plan-some r c at n req rest s e d answer) (
              limit_commands key (pos (amount c at req)) d (pos x) ++ cs,
              rw (p, ← counts.0, late) refl,
              up',
              λ j. same j ∙ l.read-ttl_now key j s,
              Adds-conv l (limit_commands key (pos (amount c at req)) d (pos x) ++ cs)
                  (λ j. (if text_eq key j then amount c at req else 0) + charge c at rest j)
                  (charge c at (req ∷ rest)) _ _ (λ j. rw e refl) (omega arith)
                  (Adds-limit_commands key (amount c at req) d x cs _ _ later adds),
            )
      ]

  -- On a reachable Redis, for amounts that are not negative, with room for them in every counter and
  -- every expiry in the future, `DoLimit` succeeds and adds to each counter the amounts of the requests under its key, and to no
  -- other.
  pub do_limit_lem :
      (requests : List RateLimitRequest) (s : r.Store) (f : Text → ℕ)
      → All (IsCount c at) requests
      → v.Reachable s
      → ((j : Text) → Holds (v.read s j) (f j))
      → ((j : Text) → f j + total c at requests < 2 ^ 63)
      → ((do_limit r c at requests s).0 ≡ none)
        × ((j : Text)
            → Holds (v.read (do_limit r c at requests s).1 j) (f j + charge c at requests j))
  unfolding do_limit
  do_limit_lem requests s f counts up h b =
      let (cs, p, up', same, adds) = limit_plan-Adds 0 requests s counts up in
      let s' = (limit_plan r c at 0 requests s).1 in
      let (fine, added) = adds s' f (λ j. rw (same j) (h j)) b in
      rw p (rw (l.exec_err cs s' up', fine) refl, λ j. rw (l.exec_store cs s' up') (added j))
