-- ===== src/RateLimiter/Checking.antt =====
-- What `CheckLimit` answers on a reachable Redis.
use arks.Prelude.{
  ℕ, suc, ◌+◌, ◌≡◌, refl, ◌∙◌, ap, List, [], ◌∷◌, Option, none, some, arith, Option-cases, inl, inr,
}
use arks.Prelude.Int.{ltb_ℤ, add64}
use arks.Prelude.Text.{Text, ok}
use arks.Redis.{
  get, ttl, Reply, Redis, RedisView, RedisLaws, get_reply, after_all, reply_at, first_error, count,
  number_of, error_of, or_else, RedisError,
}
use arks.RateLimiter.{LimitRuleConfig, RateLimitRequest, RateLimitResponse, get_rule}
use arks.RateLimiter.Limiter.{
  RedisRateLimiter, Moment, key_of, check_plan, check_responses, check_response, check_limit,
  pipeline_error, current_value,
}

module _ {r : Redis} (v : RedisView r) (c : RedisRateLimiter) (at : Moment) where
  -- A response for a request under a known rule: the counter, and whether counter and request pass
  -- the limit in int64 arithmetic. An unknown rule has no response.
  abbrev pub Judges : r.Store → RateLimitRequest → Option RateLimitResponse → Type 0
  Judges s req none = get_rule c.config req.rule_name ≡ none
  Judges s req (some p) =
      (rule : LimitRuleConfig) × (get_rule c.config req.rule_name ≡ some rule)
      × (p.rule_name ≡ req.rule_name)
      × (p.limit_max ≡ req.limit)
      × (p.current_usage ≡ count v s (key_of c at req rule))
      × (p.over_limit ≡ ltb_ℤ req.limit (add64 (count v s (key_of c at req rule)) req.request))

  abbrev pub Judged : r.Store → List RateLimitRequest → List (Option RateLimitResponse) → Type 0
  Judged s [] [] = Unit
  Judged s [] (p ∷ ps) = ⊥
  Judged s (req ∷ rest) [] = ⊥
  Judged s (req ∷ rest) (p ∷ ps) = Judges s req p × Judged s rest ps

  -- No text has changed.
  abbrev pub SameTexts : r.Store → r.Store → Type 0
  SameTexts s t = (j : Text) → v.read s j ≡ v.read t j

number_of-get_reply : (o : Option Text) → current_value (get_reply o) ≡ number_of o
number_of-get_reply none = refl
number_of-get_reply (some t) = refl

-- A GET in a pipeline ends in no error but `redis.Nil`.
pipeline_error-get :
    (o : Option Text) (rest : Option RedisError)
    → pipeline_error rest ≡ none
    → pipeline_error (or_else (error_of (get_reply o)) rest) ≡ none
pipeline_error-get none rest h = refl
pipeline_error-get (some t) rest h = h

module _ (c : RedisRateLimiter) (at : Moment) (n : ℕ) (req : RateLimitRequest)
    (rest : List RateLimitRequest) where
  check_plan-none :
      get_rule c.config req.rule_name ≡ none
      → check_plan c at n (req ∷ rest) ≡ record {
        commands = (check_plan c at n rest).commands;
        items = none ∷ (check_plan c at n rest).items;
      }
  unfolding check_plan
  check_plan-none e = rw (e, check_plan)

  check_plan-some :
      {rule : LimitRuleConfig}
      → get_rule c.config req.rule_name ≡ some rule
      → check_plan c at n (req ∷ rest) ≡ record {
        commands =
            get (key_of c at req rule)
            ∷ ttl (key_of c at req rule)
            ∷ (check_plan c at (n + 2) rest).commands;
        items =
            some (record { req = req; get_cmd = n; ttl_cmd = n + 1 })
            ∷ (check_plan c at (n + 2) rest).items;
      }
  unfolding check_plan
  check_plan-some e = rw (e, check_plan)

module _ {r : Redis} {v : RedisView r} (l : RedisLaws v) (c : RedisRateLimiter) (at : Moment) where
  after-get_ttl-SameTexts :
      (k : Text) (s : r.Store) → SameTexts v c at (v.after (ttl k) (v.after (get k) s)) s
  after-get_ttl-SameTexts k s j = l.read-ttl k j (v.after (get k) s) ∙ l.read-get k j s

  read-check_plan :
      (n : ℕ) (requests : List RateLimitRequest) (s : r.Store)
      → SameTexts v c at (after_all v (check_plan c at n requests).commands s) s
  read-check_plan n [] s j = unfold check_plan in refl
  read-check_plan n (req ∷ rest) s j = elim (Option-cases (get_rule c.config req.rule_name)) [
    | inl e ↦ rw (check_plan-none c at n req rest e) (read-check_plan n rest s j)
    | inr (rule, e) ↦
        let k = key_of c at req rule in
        rw (check_plan-some c at n req rest e) (
          read-check_plan (n + 2) rest (v.after (ttl k) (v.after (get k) s)) j
          ∙ after-get_ttl-SameTexts k s j)
  ]

  error-check_plan :
      (n : ℕ) (requests : List RateLimitRequest) (s : r.Store)
      → pipeline_error (first_error v (check_plan c at n requests).commands s) ≡ none
  error-check_plan n [] s = unfold check_plan in refl
  error-check_plan n (req ∷ rest) s = elim (Option-cases (get_rule c.config req.rule_name)) [
    | inl e ↦ rw (check_plan-none c at n req rest e) (error-check_plan n rest s)
    | inr (rule, e) ↦
        let k = key_of c at req rule in
        let t = v.after (get k) s in
        let (d, answer) = l.reply-ttl k t in
        rw (check_plan-some c at n req rest e, l.reply-get k s, answer)
          (pipeline_error-get (v.read s k) _ (error-check_plan (n + 2) rest (v.after (ttl k) t)))
  ]

  Judged-check_plan :
      (n : ℕ) (requests : List RateLimitRequest) (s t : r.Store) (replies : ℕ → Reply)
      → SameTexts v c at t s
      → ((m : ℕ) → replies (n + m) ≡ reply_at v (check_plan c at n requests).commands t m)
      → Judged v c at s requests (check_responses at replies (check_plan c at n requests).items)
  unfolding check_response
  Judged-check_plan n [] s t replies same h = unfold check_plan in tt
  Judged-check_plan n (req ∷ rest) s t replies same h =
      elim (Option-cases (get_rule c.config req.rule_name)) [
        | inl e ↦
            let p = check_plan-none c at n req rest e in
            rw p (e, Judged-check_plan n rest s t replies same (λ m. rw p at (h m)))
        | inr (rule, e) ↦
            let p = check_plan-some c at n req rest e in
            let k = key_of c at req rule in
            let usage : current_value (replies n) ≡ count v s k =
              ap current_value (ap replies (omega arith) ∙ (rw p at (h 0)) ∙ l.reply-get k t)
              ∙ number_of-get_reply (v.read t k)
              ∙ ap number_of (same k) in
            let t' = v.after (ttl k) (v.after (get k) t) in
            rw p (
              (rule, e, refl, refl, usage, ap (λ x. ltb_ℤ req.limit (add64 x req.request)) usage),
              Judged-check_plan (n + 2) rest s t' replies
                  (λ j. after-get_ttl-SameTexts k t j ∙ same j)
                  (λ m. ap replies (omega arith) ∙ (rw p at (h (suc (suc m))))),
            )
      ]

  -- On a reachable Redis `CheckLimit` succeeds, judges every request by its counter, and changes no text.
  pub check_limit_lem :
      (requests : List RateLimitRequest) (s : r.Store)
      → v.Reachable s
      → (ps : List (Option RateLimitResponse)) × ((check_limit r c at requests s).0 ≡ ok ps)
        × Judged v c at s requests ps
        × SameTexts v c at (check_limit r c at requests s).1 s
  unfolding check_limit
  check_limit_lem requests s up =
      let plan = check_plan c at 0 requests in
      let done = r.exec plan.commands s in
      (
        check_responses at done.replies plan.items,
        rw (l.exec_err plan.commands s up, error-check_plan 0 requests s),
        Judged-check_plan 0 requests s s done.replies (λ j. refl)
            (λ m. ap done.replies (omega arith) ∙ l.exec_replies plan.commands s m up),
        λ j. rw (l.exec_store plan.commands s up) (read-check_plan 0 requests s j),
      )
