-- ===== src/RateLimiter/Refined.antt =====
-- The rate limiter as numbers under keys: what `CheckLimit` and `DoLimit` of
-- pkg/gateway/ratelimiter/redis_impl.go implement.
use arks.Prelude.{
  none, ap, List, false, [], some, ◌≡◌, ◌∷◌, ℕ, All, ◌+◌, arith, refl, ◌<◌, if◌then◌else◌, true,
  Option, ◌^◌, Bool, sym, ◌∙◌,
}
use arks.RateLimiter.Checking.{check_limit_lem, Judged}
use arks.RateLimiter.Counting.{
  charge, total, amount, IsCount, Expires, do_limit_lem, limit_plan-Adds,
}
use arks.Redis.{Redis, RedisView, RedisLaws, Holds, Command, after_all}
use arks.RateLimiter.{RateLimitResponse, LimitRuleConfig, RateLimitRequest, Text, get_rule}
use arks.RateLimiter.Limiter.{
  RedisRateLimiter, Moment, key_of, check_limit, do_limit, check_plan, limit_plan,
}
use arks.Prelude.Text.{Text, ok}
use arks.Prelude.Int.{ltb_ℤ, pos, add64-pos, add64}
use arks.Redis.Counters.{number_of-Holds}
use mathlib.Core.Path.{subst}

-- No response says that its request is over the limit.
abbrev pub passes : List (Option RateLimitResponse) → Bool
passes [] = true
passes (none ∷ ps) = passes ps
passes (some p ∷ ps) = if p.over_limit then false else passes ps

module _ (c : RedisRateLimiter) (at : Moment) where
  abbrev admits_one : Option LimitRuleConfig → RateLimitRequest → (Text → ℕ) → Bool → Bool
  admits_one none req f rest = rest
  admits_one (some rule) req f rest =
      if ltb_ℤ req.limit (pos (f (key_of c at req rule) + amount c at req)) then false else rest

  -- Every request under a known rule stays within its limit when its amount is added to its number.
  abbrev pub admits : (Text → ℕ) → List RateLimitRequest → Bool
  admits f [] = true
  admits f (req ∷ rest) = admits_one (get_rule c.config req.rule_name) req f (admits f rest)

  -- Each number grows by the amounts of the requests under its key.
  abbrev pub spend : (Text → ℕ) → List RateLimitRequest → Text → ℕ
  spend f requests j = f j + charge c at requests j

module _ {r : Redis} {v : RedisView r} (l : RedisLaws v) (c : RedisRateLimiter) (at : Moment) where
  -- The numbers are those in the store, and the store is reachable.
  abbrev pub Represents : r.Store → (Text → ℕ) → Type 0
  Represents s f = v.Reachable s × ((j : Text) → Holds (v.read s j) (f j))

  passes-admits :
      (requests : List RateLimitRequest) (s : r.Store) (f : Text → ℕ)
      (ps : List (Option RateLimitResponse))
      → All (IsCount c at) requests
      → ((j : Text) → Holds (v.read s j) (f j))
      → ((j : Text) → f j + total c at requests < 2 ^ 63)
      → Judged v c at s requests ps
      → passes ps ≡ admits c at f requests
  passes-admits [] s f [] hc h b g = refl
  passes-admits [] s f (p ∷ ps) hc h b g = absurd g
  passes-admits (req ∷ rest) s f [] hc h b g = absurd g
  passes-admits (req ∷ rest) s f (none ∷ ps) hc h b g =
      rw g.0 (passes-admits rest s f ps hc.1 h (λ j. omega (arith, b j)) g.1)
  passes-admits (req ∷ rest) s f (some p ∷ ps) hc h b ((rule, e, x, y, z, o), g) =
      let k = key_of c at req rule in
      let current = number_of-Holds (v.read s k) (f k) (h k) (omega (arith, b k)) in
      let sum =
        ap (λ x. add64 x req.request) current
        ∙ ap (add64 (pos (f k))) hc.0
        ∙ add64-pos (f k) (amount c at req) (omega (arith, b k)) in
      rw (e, o ∙ ap (ltb_ℤ req.limit) sum)
        (ap (λ t. if ltb_ℤ req.limit (pos (f k + amount c at req)) then false else t)
          (passes-admits rest s f ps hc.1 h (λ j. omega (arith, b j)) g))

  pub after_all-Reachable :
      (cs : List Command) (s : r.Store) → v.Reachable s → v.Reachable (after_all v cs s)
  after_all-Reachable [] s up = up
  after_all-Reachable (d ∷ cs) s up =
      after_all-Reachable cs (v.after d s) (l.after-Reachable d s up)

  pub check_limit-Represents :
      (checked : List RateLimitRequest) (s : r.Store) (f : Text → ℕ)
      → All (IsCount c at) checked
      → ((j : Text) → f j + total c at checked < 2 ^ 63)
      → Represents s f
      → (ps : List (Option RateLimitResponse)) × ((check_limit r c at checked s).0 ≡ ok ps)
        × (passes ps ≡ admits c at f checked)
        × Represents (check_limit r c at checked s).1 f
  unfolding check_limit
  check_limit-Represents checked s f hc b (up, h) =
      let (ps, fine, judged, same) = check_limit_lem l c at checked s up in
      let s' = (check_limit r c at checked s).1 in
      let up' : v.Reachable s' =
        subst v.Reachable (sym (l.exec_store (check_plan c at 0 checked).commands s up))
          (after_all-Reachable (check_plan c at 0 checked).commands s up) in
      (ps, fine, passes-admits checked s f ps hc h b judged, (up', λ j. rw (same j) (h j)))

  do_limit-Reachable :
      (future : Expires c at) (counted : List RateLimitRequest) (s : r.Store)
      → All (IsCount c at) counted
      → v.Reachable s
      → v.Reachable (do_limit r c at counted s).1
  unfolding do_limit
  do_limit-Reachable future counted s hd up =
      let (cs, p, up', _, _) = limit_plan-Adds l c at future 0 counted s hd up in
      let s' = (limit_plan r c at 0 counted s).1 in
      rw p (subst v.Reachable (sym (l.exec_store cs s' up')) (after_all-Reachable cs s' up'))

  pub do_limit-Represents :
      (future : Expires c at) (counted : List RateLimitRequest) (s : r.Store) (f : Text → ℕ)
      → All (IsCount c at) counted
      → ((j : Text) → f j + total c at counted < 2 ^ 63)
      → Represents s f
      → ((do_limit r c at counted s).0 ≡ none)
        × Represents (do_limit r c at counted s).1 (spend c at f counted)
  do_limit-Represents future counted s f hd b (up, h) =
      let (done, spent) = do_limit_lem l c at future counted s f hd up h b in
      (done, (do_limit-Reachable future counted s hd up, spent))

  -- `CheckLimit` and `DoLimit` refine a limiter that keeps numbers: where the store represents the
  -- numbers `f` and they have room, `CheckLimit` succeeds, none of its responses is over the limit
  -- exactly when the numbers admit every request, and its store still represents `f`; from there
  -- `DoLimit` succeeds and its store has the numbers after the counted requests are spent.
  pub limiter-Represents :
      (future : Expires c at) (checked counted : List RateLimitRequest) (s : r.Store) (f : Text → ℕ)
      → All (IsCount c at) checked
      → All (IsCount c at) counted
      → ((j : Text) → f j + total c at checked < 2 ^ 63)
      → ((j : Text) → f j + total c at counted < 2 ^ 63)
      → Represents s f
      → (ps : List (Option RateLimitResponse)) × ((check_limit r c at checked s).0 ≡ ok ps)
        × (passes ps ≡ admits c at f checked)
        × Represents (check_limit r c at checked s).1 f
        × ((do_limit r c at counted (check_limit r c at checked s).1).0 ≡ none)
        × ((j : Text)
            → Holds
                (v.read (do_limit r c at counted (check_limit r c at checked s).1).1 j)
                (spend c at f counted j))
  limiter-Represents future checked counted s f hc hd b b' h =
      let (ps, fine, same, h') = check_limit-Represents checked s f hc b h in
      let s' = (check_limit r c at checked s).1 in
      let (done, spent) = do_limit-Represents future counted s' f hd b' h' in
      (ps, fine, same, h', done, spent.1)
