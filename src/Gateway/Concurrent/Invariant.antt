-- ===== src/Gateway/Concurrent/Invariant.antt =====
-- pkg/gateway/handle_request.go: how far requests that run at the same time pass a rate limit.
use arks.Prelude.{
  ◌*◌, ◌^◌, length, ◌<◌, ◌+◌, arith, some, All, ℕ, ◌≤◌, List, ◌∷◌, [], sym, suc, Option, none,
}
use native.Mathlib.Nat.{mul-le-mul_right}
use arks.RateLimiter.Limiter.{Moment, RedisRateLimiter}
use arks.QosConfig.{UserQos, RateLimit}
use arks.Gateway.Messages.{Codec, State}
use arks.Gateway.Room.{counts, limit_key, Room, InRoom, counts-le, RoomUnder}
use arks.Gateway.Concurrent.{
  System, Redis, RedisView, RedisLaws, Text, ConfigProvider, LimitRuleConfig, Represents, get_rule,
  request_type, pos, Step, pass, refuse, refuse_quota, count, fail, Reach, start, later, State,
}
use arks.Redis.{Holds, Redis, RedisView, RedisLaws}
use arks.Prelude.Text.{Text}
use arks.Services.{ConfigProvider}
use arks.RateLimiter.{LimitRuleConfig, get_rule, request_type, LimitType, token_type}
use arks.RateLimiter.Refined.{Represents}
use arks.Prelude.Int.{pos, ◌+ℤ◌, ℤ, ◌<ℤ◌}
use arks.RateLimiter.Counting.{Expires}
use arks.Gateway.Wiring.{new_server}
use arks.Gateway.Kept.{
  grown, limits_checked-Represents, checked-Room, do_request-one_more, do_request-failed,
}
use mathlib.Core.Path.{subst}
use arks.Gateway.Admission.{check_rate_limit-none}

-- A number stays below a limit on requests and some more.
abbrev BelowType : LimitType → ℕ → ℤ → ℕ → Type 0
BelowType request_type k limit more = pos k <ℤ limit +ℤ pos more
BelowType token_type k limit more = Unit

BelowType-start :
    (c : RedisRateLimiter) (at : Moment) (type : LimitType) (k : ℕ) (limit : ℤ) (more : ℕ)
    → InRoom c at type k limit
    → BelowType type k limit more
unfolding ◌+ℤ◌
BelowType-start c at request_type k limit more h = ground arith
BelowType-start c at token_type k limit more h = tt

BelowType-more :
    (type : LimitType) (k k' : ℕ) (limit : ℤ) (more more' : ℕ)
    → k' + more ≤ k + more'
    → BelowType type k limit more
    → BelowType type k' limit more'
unfolding ◌+ℤ◌
BelowType-more request_type k k' limit more more' less h = ground arith
BelowType-more token_type k k' limit more more' less h = tt

room_up : (k w d n : ℕ) → w < n → k + suc w * d ≤ k + n * d
room_up k w d n b = omega (arith, mul-le-mul_right d b)

module _ {r : Redis} {v : RedisView r} (l : RedisLaws v) (c : RedisRateLimiter) (at : Moment)
    (prefix : Text) (provider : ConfigProvider r.Store) (codec : Codec) (qos : UserQos) where
  abbrev Concurrent : Type 0
  Concurrent = System r c at prefix provider codec qos

  abbrev BelowUnder : ℕ → (Text → ℕ) → ℕ → RateLimit → Option LimitRuleConfig → Type 0
  BelowUnder n f waiting limit none = Unit
  BelowUnder n f waiting limit (some rule) =
      let k = limit_key c at qos limit rule in
      let d = counts c at qos qos.rate_limits k in
      BelowType rule.type (f k + waiting * d) limit.value (n * d)

  -- The requests that are counted or wait stay below the limit, with `n` more.
  abbrev pub Below : ℕ → (Text → ℕ) → ℕ → RateLimit → Type 0
  Below n f waiting limit = BelowUnder n f waiting limit (get_rule c.config limit.type)

  record Inv (n : ℕ) (f : Text → ℕ) (x : Concurrent) : Type 0 where
    holds : Represents l c at x.state.world (grown c at qos f x.admitted)
    below : All (Below n (grown c at qos f x.admitted) x.waiting) qos.rate_limits
    room :
        (j : Text)
        → grown c at qos f x.admitted j + (x.fresh + x.waiting) * length qos.rate_limits < 2 ^ 63

  abbrev limit_keys : RateLimit → LimitRuleConfig → Text
  limit_keys = limit_key c at qos

  BelowUnder-pass :
      (n w : ℕ) (f : Text → ℕ) (limit : RateLimit) (o : Option LimitRuleConfig)
      → w < n
      → RoomUnder c at f qos limit o
      → BelowUnder n f (suc w) limit o
  BelowUnder-pass n w f limit none b h = tt
  BelowUnder-pass n w f limit (some rule) b h =
      let k = limit_keys limit rule in
      let d = counts c at qos qos.rate_limits k in
      BelowType-more rule.type (f k) (f k + suc w * d) limit.value 0 (n * d)
        (omega (arith, room_up (f k) w d n b))
        (BelowType-start c at rule.type (f k) limit.value 0 h)

  Below-pass :
      (n w : ℕ) (f : Text → ℕ) (limits : List RateLimit)
      → w < n
      → All (Room c at f qos) limits
      → All (Below n f (suc w)) limits
  Below-pass n w f [] b h = tt
  Below-pass n w f (limit ∷ rest) b h = (
    BelowUnder-pass n w f limit (get_rule c.config limit.type) b h.0,
    Below-pass n w f rest b h.1,
  )

  BelowUnder-less :
      (n w w' : ℕ) (f f' : Text → ℕ) (limit : RateLimit) (o : Option LimitRuleConfig)
      → ((j : Text)
          → f' j + w' * counts c at qos qos.rate_limits j
            ≤ f j + w * counts c at qos qos.rate_limits j)
      → BelowUnder n f w limit o
      → BelowUnder n f' w' limit o
  BelowUnder-less n w w' f f' limit none less h = tt
  BelowUnder-less n w w' f f' limit (some rule) less h =
      let k = limit_keys limit rule in
      let d = counts c at qos qos.rate_limits k in
      BelowType-more rule.type (f k + w * d) (f' k + w' * d) limit.value (n * d) (n * d)
        (omega (arith, less k)) h

  Below-less :
      (n w w' : ℕ) (f f' : Text → ℕ) (limits : List RateLimit)
      → ((j : Text)
          → f' j + w' * counts c at qos qos.rate_limits j
            ≤ f j + w * counts c at qos qos.rate_limits j)
      → All (Below n f w) limits
      → All (Below n f' w') limits
  Below-less n w w' f f' [] less h = tt
  Below-less n w w' f f' (limit ∷ rest) less h = (
    BelowUnder-less n w w' f f' limit (get_rule c.config limit.type) less h.0,
    Below-less n w w' f f' rest less h.1,
  )

  BelowUnder-start :
      (n : ℕ) (f : Text → ℕ) (limit : RateLimit) (o : Option LimitRuleConfig)
      → RoomUnder c at f qos limit o
      → BelowUnder n (grown c at qos f 0) 0 limit o
  BelowUnder-start n f limit none h = tt
  BelowUnder-start n f limit (some rule) h =
      let k = limit_keys limit rule in
      let d = counts c at qos qos.rate_limits k in
      BelowType-more rule.type (f k) (f k + 0 * d + 0 * d) limit.value 0 (n * d) (omega arith)
        (BelowType-start c at rule.type (f k) limit.value 0 h)

  Below-start :
      (n : ℕ) (f : Text → ℕ) (limits : List RateLimit)
      → All (Room c at f qos) limits
      → All (Below n (grown c at qos f 0) 0) limits
  Below-start n f [] h = tt
  Below-start n f (limit ∷ rest) h =
      (BelowUnder-start n f limit (get_rule c.config limit.type) h.0, Below-start n f rest h.1)

  module _ (future : Expires c at) where
    -- Every step keeps the invariant.
    Step-Inv :
        {n : ℕ} {f : Text → ℕ} {x y : Concurrent}
        → Step r c at prefix provider codec qos n x y
        → Inv n f x
        → Inv n f y
    Step-Inv {n} {f} (pass m w a st b limits quota) inv =
        let within =
          check_rate_limit-none (new_server r c at prefix provider codec) qos st limits in
        let (rooms, h) =
          checked-Room l c at prefix provider codec qos st (grown c at qos f a)
            (λ j. omega (arith, inv.room j)) inv.holds within in
        record {
          holds = h;
          below = Below-pass n w (grown c at qos f a) qos.rate_limits b rooms;
          room = λ j. omega (arith, inv.room j);
        }
    Step-Inv {n} {f} (refuse m w a st resp limits) inv = record {
      holds =
          limits_checked-Represents l c at prefix provider codec qos st (grown c at qos f a)
            (λ j. omega (arith, inv.room j)) inv.holds;
      below = inv.below;
      room = λ j. omega (arith, inv.room j);
    }
    Step-Inv {n} {f} (refuse_quota m w a st resp limits quota) inv =
        let within =
          check_rate_limit-none (new_server r c at prefix provider codec) qos st limits in
        let (rooms, h) =
          checked-Room l c at prefix provider codec qos st (grown c at qos f a)
            (λ j. omega (arith, inv.room j)) inv.holds within in
        record { holds = h; below = inv.below; room = λ j. omega (arith, inv.room j) }
    Step-Inv {n} {f} (count m w a st done) inv = record {
      holds =
          let grows =
            do_request-one_more l c at prefix provider codec future qos st.world
              (grown c at qos f a) (λ j. omega (arith, inv.room j)) inv.holds done in
          (grows.0, λ j. subst (Holds _) (omega arith) (grows.1 j));
      below =
          Below-less n (suc w) w (grown c at qos f a) (grown c at qos f (suc a)) qos.rate_limits
            (λ j. omega arith) inv.below;
      room = λ j. omega (arith, inv.room j, counts-le c at qos qos.rate_limits j);
    }
    Step-Inv {n} {f} (fail m w a st message failed) inv = record {
      holds =
          subst (λ w. Represents l c at w (grown c at qos f a))
            (sym (
              do_request-failed l c at prefix provider codec future qos st.world
                (grown c at qos f a) message (λ j. omega (arith, inv.room j)) inv.holds failed))
            inv.holds;
      below =
          Below-less n (suc w) w (grown c at qos f a) (grown c at qos f a) qos.rate_limits
            (λ j. omega arith) inv.below;
      room = λ j. omega (arith, inv.room j);
    }

    Reach-Inv :
        (n total : ℕ) (st : State r.Store) (f : Text → ℕ) {x : Concurrent}
        → All (Room c at f qos) qos.rate_limits
        → ((j : Text) → f j + total * length qos.rate_limits < 2 ^ 63)
        → Represents l c at st.world f
        → Reach r c at prefix provider codec qos n total st x
        → Inv n f x
    Reach-Inv n total st f rooms room h start = record {
      holds = (h.0, λ j. subst (Holds _) (omega arith) (h.1 j));
      below = Below-start n f qos.rate_limits rooms;
      room = λ j. omega (arith, room j);
    }
    Reach-Inv n total st f rooms room h (later run step) =
        Step-Inv step (Reach-Inv n total st f rooms room h run)

    -- Requests of one user run at the same time over Redis, at most `n` of them between their checks and
    -- their count, where every expiry lies in the future, the counters have room for all of them, and at
    -- the start no limit on requests is reached and no limit on tokens is exceeded. Then at any time the store represents the numbers
    -- at the start with every counted request added, and for every limit on requests the number under its
    -- key, with the waiting requests added, stays below the limit with `n` requests added.
    pub Reach-Below :
        (n total : ℕ) (st : State r.Store) (f : Text → ℕ) {x : Concurrent}
        → All (Room c at f qos) qos.rate_limits
        → ((j : Text) → f j + total * length qos.rate_limits < 2 ^ 63)
        → Represents l c at st.world f
        → Reach r c at prefix provider codec qos n total st x
        → Represents l c at x.state.world (grown c at qos f x.admitted)
          × All (Below n (grown c at qos f x.admitted) x.waiting) qos.rate_limits
    Reach-Below n total st f rooms room h run =
        let inv = Reach-Inv n total st f rooms room h run in (inv.holds, inv.below)
