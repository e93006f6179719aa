-- ===== src/RateLimiter/Tests.antt =====
-- Examples for the rate limiter.
use arks.Prelude.{none, ◌≡◌, refl, arith, inr, inl}
use arks.RateLimiter.Limiter.{do_limit, check_limit}
use arks.RateLimiter.Counting.{Expires, do_limit_lem}
use arks.RateLimiter.Checking.{SameTexts, check_limit_lem}
use arks.RateLimiter.Window.{window_size}
use arks.Redis.Counters.{memory, memory_view, memory_laws}
use arks.Samples.{sample_limiter, sample_moment, sample_requests, empty}
use arks.RateLimiter.Rules.{predefined}
use arks.RateLimiter.Refined.{limiter-Represents}

pub expires : Expires sample_limiter sample_moment
unfolding window_size
expires n name rule e = elim (predefined name rule e) [
  | inl p ↦ (60000000000, rw p refl, omega arith)
  | inr (inl p) ↦ (86400000000000, rw p refl, omega arith)
  | inr (inr (inl p)) ↦ (60000000000, rw p refl, omega arith)
  | inr (inr (inr p)) ↦ (86400000000000, rw p refl, omega arith)
]

check_limit_lem_example :
    SameTexts memory_view sample_limiter sample_moment
      (check_limit memory sample_limiter sample_moment sample_requests empty).1
      empty
check_limit_lem_example =
    (check_limit_lem memory_laws sample_limiter sample_moment sample_requests empty tt).3

do_limit_lem_example : (do_limit memory sample_limiter sample_moment sample_requests empty).0 ≡ none
do_limit_lem_example =
    (do_limit_lem memory_laws sample_limiter sample_moment expires sample_requests empty (λ j. 0)
      (refl, (refl, tt)) tt (λ j. refl) (λ j. omega arith)).0

limiter-Represents_example :
    (do_limit memory sample_limiter sample_moment sample_requests
      (check_limit memory sample_limiter sample_moment sample_requests empty).1).0
    ≡ none
limiter-Represents_example =
    (limiter-Represents memory_laws sample_limiter sample_moment expires sample_requests
      sample_requests empty (λ j. 0) (refl, (refl, tt)) (refl, (refl, tt)) (λ j. omega arith)
      (λ j. omega arith) (tt, λ j. refl)).4
