-- ===== src/Gateway/Concurrent/Race.antt =====
-- pkg/gateway/handle_request.go: requests that run at the same time all pass where one would.
use arks.Prelude.{◌^◌, ◌*◌, arith, [], suc, ◌≤◌, ◌+◌, ℕ, All, ◌≡◌, ◌<◌, length, zero}
use native.Mathlib.Nat.{mul-le-mul_right, mul-le-mul_left}
use arks.RateLimiter.Limiter.{Moment, RedisRateLimiter}
use arks.QosConfig.{UserQos}
use arks.Gateway.Messages.{Codec, State}
use arks.Gateway.Room.{counts, counts-le, Room}
use arks.Gateway.Wiring.{new_server}
use arks.Redis.{Holds, Redis, RedisView, RedisLaws}
use arks.Gateway.Admission.{check_rate_limit-none}
use arks.Gateway.Kept.{grown, HasRoom, checked-Room, do_request-one_more}
use arks.Gateway.Concurrent.Passing.{
  HasRule, check_rate_limit-passes, quota_check-passes, do_request-counts,
}
use arks.Gateway.Concurrent.{
  pass, count, Reach, start, later, system, after_checks, after_count, Text, ConfigProvider,
  Represents,
}
use arks.Prelude.Text.{Text}
use arks.Services.{ConfigProvider}
use arks.RateLimiter.Counting.{Expires}
use arks.RateLimiter.Refined.{Represents}
use mathlib.Core.Path.{subst}

enough :
    (k w a n d len : ℕ) → suc w + a ≡ n → d ≤ len → k + n * len < 2 ^ 63 → k + a * d + len < 2 ^ 63
enough k w a n d len e less room =
    let here : suc a * len ≤ n * len = mul-le-mul_right len (omega arith) in
    omega (arith, here, mul-le-mul_left a less)

module _ {r : Redis} {v : RedisView r} (l : RedisLaws v) (c : RedisRateLimiter) (at : Moment)
    (prefix : Text) (provider : ConfigProvider r.Store) (codec : Codec) (qos : UserQos)
    (future : Expires c at) (unlimited : qos.quota_name ≡ [])
    (known : All (HasRule c) qos.rate_limits) (n : ℕ) (begin : State r.Store) (f : Text → ℕ)
    (rooms : All (Room c at f qos) qos.rate_limits)
    (room : (j : Text) → f j + n * length qos.rate_limits < 2 ^ 63) where
  -- A run in which `m` requests are to be checked, `w` wait and `a` have been counted.
  abbrev Run : ℕ → ℕ → ℕ → State r.Store → Type 0
  Run m w a st =
      Reach r c at prefix provider codec qos n n begin
        (system r c at prefix provider codec qos m w a st)

  pass-all :
      (m w : ℕ) (st : State r.Store)
      → m + w ≡ n
      → Run m w 0 st
      → Represents l c at st.world f
      → (end : State r.Store) × Run 0 n 0 end × Represents l c at end.world f
  pass-all zero w st e run h = (st, subst (λ k. Run 0 k 0 st) (omega arith) run, h)
  pass-all (suc m) w st e run h =
      let few : HasRoom f qos.rate_limits = λ j.
        let here : 1 * length qos.rate_limits ≤ n * length qos.rate_limits =
          mul-le-mul_right (length qos.rate_limits) (omega arith) in
        omega (arith, room j, here) in
      let limits =
        check_rate_limit-passes l c at prefix provider codec qos future unlimited known st f few h
          rooms in
      let quota = quota_check-passes l c at prefix provider codec qos future unlimited known _ in
      let within = check_rate_limit-none (new_server r c at prefix provider codec) qos st limits in
      let (_, h') = checked-Room l c at prefix provider codec qos st f few h within in
      pass-all m (suc w) (after_checks r c at prefix provider codec qos st) (omega arith)
        (later run (pass m w 0 st (omega arith) limits quota)) h'

  count-all :
      (w a : ℕ) (st : State r.Store)
      → w + a ≡ n
      → Run 0 w a st
      → Represents l c at st.world (grown c at qos f a)
      → (end : State r.Store) × Run 0 0 n end × Represents l c at end.world (grown c at qos f n)
  count-all zero a st e run h =
      let p : a ≡ n = omega arith in
      (
        st,
        subst (λ k. Run 0 0 k st) p run,
        subst (λ k. Represents l c at st.world (grown c at qos f k)) p h,
      )
  count-all (suc w) a st e run h =
      let g = grown c at qos f a in
      let few : HasRoom g qos.rate_limits = λ j.
        enough (f j) w a n (counts c at qos qos.rate_limits j) (length qos.rate_limits) e
          (counts-le c at qos qos.rate_limits j) (room j) in
      let done =
        do_request-counts l c at prefix provider codec qos future unlimited known st.world g few
          h in
      let grows =
        do_request-one_more l c at prefix provider codec future qos st.world g few h done in
      count-all w (suc a) (after_count r c at prefix provider codec qos st) (omega arith)
        (later run (count 0 w a st done)) (grows.0, λ j. subst (Holds _) (omega arith) (grows.1 j))

  -- The check and the count of a request are apart: where a user has no quota, every limit has a rule and
  -- the numbers leave room for one request, any number of requests that arrive at once can all be admitted,
  -- and the store then represents the numbers with all of them added.
  pub all_admitted :
      Represents l c at begin.world f
      → (end : State r.Store) × Run 0 0 n end × Represents l c at end.world (grown c at qos f n)
  all_admitted h =
      let (st, run, h1) = pass-all n 0 begin (omega arith) start h in
      count-all n 0 st (omega arith) run (h1.0, λ j. subst (Holds _) (omega arith) (h1.1 j))
