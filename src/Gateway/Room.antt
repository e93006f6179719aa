-- ===== src/Gateway/Room.antt =====
-- pkg/gateway/check.go over pkg/gateway/ratelimiter: what the rate limits of a user say of the numbers
-- under the keys of their counters.
use arks.RateLimiter.Window.{generate}
use arks.Prelude.{
  none, some, ◌∷◌, inl, inr, if◌then◌else◌, ◌≡◌, Option, ℕ, ◌+◌, [], Option-cases, Bool, List, refl,
  length, ◌≤◌, All, arith, true, ap, sym, ◌∙◌, false,
}
use arks.RateLimiter.Limiter.{key_of, Moment, RedisRateLimiter}
use arks.QosConfig.{UserQos, RateLimit}
use arks.Prelude.Text.{Text, text_eq, Result, ok, err}
use arks.RateLimiter.{
  LimitType, LimitRuleConfig, get_rule, request_type, RateLimitRequest, token_type,
}
use arks.Gateway.Messages.{Server, to_rate_limit_request}
use arks.Prelude.Int.{ℤ, pos, ◌<ℤ◌, ◌≤ℤ◌, pos_part, ltb_ℤ}
use arks.Gateway.Limits.{limit_requests, add_request, request_for, request_amount, check_amount}
use arks.RateLimiter.Counting.{IsCount, total, charge}
use arks.RateLimiter.Refined.{admits}

module _ (c : RedisRateLimiter) (at : Moment) where
  -- The key under which a limit of a user counts.
  abbrev pub limit_key : UserQos → RateLimit → LimitRuleConfig → Text
  limit_key qos limit rule =
      key_of c at (to_rate_limit_request qos limit.type limit.value (pos 1)) rule

  -- There is room for one more request, or for no more tokens.
  abbrev pub InRoom : LimitType → ℕ → ℤ → Type 0
  InRoom request_type k limit = pos k <ℤ limit
  InRoom token_type k limit = pos k ≤ℤ limit

  abbrev pub RoomUnder : (Text → ℕ) → UserQos → RateLimit → Option LimitRuleConfig → Type 0
  RoomUnder f qos limit none = Unit
  RoomUnder f qos limit (some rule) = InRoom rule.type (f (limit_key qos limit rule)) limit.value

  -- The numbers `f` leave room under a limit that has a rule.
  abbrev pub Room : (Text → ℕ) → UserQos → RateLimit → Type 0
  Room f qos limit = RoomUnder f qos limit (get_rule c.config limit.type)

  abbrev counts_type : LimitType → Bool → ℕ
  counts_type request_type hit = if hit then 1 else 0
  counts_type token_type hit = 0

  abbrev counts_under : Option LimitRuleConfig → UserQos → RateLimit → Text → ℕ
  counts_under none qos limit j = 0
  counts_under (some rule) qos limit j =
      counts_type rule.type (text_eq (limit_key qos limit rule) j)

  -- How many of the limits count one request under a key.
  abbrev pub counts : UserQos → List RateLimit → Text → ℕ
  counts qos [] j = 0
  counts qos (limit ∷ rest) j =
      counts_under (get_rule c.config limit.type) qos limit j + counts qos rest j

abbrev pub opt_cons : Option RateLimitRequest → List RateLimitRequest → List RateLimitRequest
opt_cons none qs = qs
opt_cons (some q) qs = q ∷ qs

module _ (c : RedisRateLimiter) (at : Moment) (qos : UserQos) where
  counts_type-le : (type : LimitType) (hit : Bool) → counts_type c at type hit ≤ 1
  counts_type-le request_type true = omega arith
  counts_type-le request_type false = omega arith
  counts_type-le token_type hit = omega arith

  counts_under-le :
      (o : Option LimitRuleConfig) (limit : RateLimit) (j : Text)
      → counts_under c at o qos limit j ≤ 1
  counts_under-le none limit j = omega arith
  counts_under-le (some rule) limit j = counts_type-le rule.type _

  pub counts-le : (limits : List RateLimit) (j : Text) → counts c at qos limits j ≤ length limits
  counts-le [] j = omega arith
  counts-le (limit ∷ rest) j =
      omega (arith, counts_under-le (get_rule c.config limit.type) limit j, counts-le rest j)

module _ {W : Type 0} (s : Server W) (amount_of : LimitType → Option ℤ) (qos : UserQos) where
  -- The requests of a list of limits: one for each limit that is counted, under its rule.
  add_request-ok :
      (o : Option RateLimitRequest) (more : Result (List RateLimitRequest))
      (qs : List RateLimitRequest)
      → add_request o more ≡ ok qs
      → (qs' : List RateLimitRequest) × (more ≡ ok qs') × (qs ≡ opt_cons o qs')
  add_request-ok none more qs h = (qs, h, refl)
  add_request-ok (some q) (ok qs') qs h = (qs', refl, cc)
  add_request-ok (some q) (err m) qs h = cc

  pub limit_requests-ok :
      (limit : RateLimit) (rest : List RateLimit) (qs : List RateLimitRequest)
      → limit_requests s amount_of qos (limit ∷ rest) ≡ ok qs
      → (rule : LimitRuleConfig) × (qs' : List RateLimitRequest) × (s.limiter.get_rule_by_name
            limit.type
          ≡ some rule)
        × (limit_requests s amount_of qos rest ≡ ok qs')
        × (qs ≡ opt_cons (request_for qos limit (amount_of rule.type)) qs')
  unfolding limit_requests
  limit_requests-ok limit rest qs = elim (Option-cases (s.limiter.get_rule_by_name limit.type)) [
    | inl e ↦ rw (e, limit_requests) (λ h. cc)
    | inr (rule, e) ↦
        rw (e, limit_requests)
          (λ h.
            let (qs', a, b) =
              add_request-ok (request_for qos limit (amount_of rule.type))
                (limit_requests s amount_of qos rest) qs h in
            (rule, qs', refl, a, b))
  ]

module _ (c : RedisRateLimiter) (at : Moment) where
  -- The amounts of a kind of request are numbers of at most one.
  abbrev IsUnit : (LimitType → Option ℤ) → Type 0
  IsUnit amount_of =
      (type : LimitType) (n : ℤ)
      → amount_of type ≡ some n
      → (n ≡ pos (pos_part n)) × (pos_part n ≤ 1)

  pub check_amount-IsUnit : IsUnit check_amount
  check_amount-IsUnit request_type n e = let p : n ≡ pos 1 = cc in rw p (refl, omega arith)
  check_amount-IsUnit token_type n e = let p : n ≡ pos 0 = cc in rw p (refl, omega arith)

  pub request_amount-IsUnit : IsUnit request_amount
  request_amount-IsUnit request_type n e = let p : n ≡ pos 1 = cc in rw p (refl, omega arith)
  request_amount-IsUnit token_type n e = cc

  -- The requests of the limits are counts, and their total is at most the number of the limits.
  abbrev pub IsCounts : List RateLimit → List RateLimitRequest → Type 0
  IsCounts limits qs = All (IsCount c at) qs × (total c at qs ≤ length limits)

  IsCounts-cons :
      (amount_of : LimitType → Option ℤ) (qos : UserQos) (limit : RateLimit) (rest : List RateLimit)
      (type : LimitType) (qs : List RateLimitRequest)
      → IsUnit amount_of
      → IsCounts rest qs
      → (o : Option ℤ) → amount_of type ≡ o
      → IsCounts (limit ∷ rest) (opt_cons (request_for qos limit o) qs)
  unfolding to_rate_limit_request
  IsCounts-cons amount_of qos limit rest type qs unit (a, b) none e = (a, omega arith)
  IsCounts-cons amount_of qos limit rest type qs unit (a, b) (some n) e =
      let (p, q) = unit type n e in ((p, a), omega arith)

not_over :
    (k : ℕ) (limit : ℤ) (b : Bool)
    → (if ltb_ℤ limit (pos k) then false else b) ≡ true
    → (pos k ≤ℤ limit) × (b ≡ true)
not_over k limit b h = (ground arith, ground arith)

module _ (c : RedisRateLimiter) (at : Moment) (qos : UserQos) (limit : RateLimit)
    (rule : LimitRuleConfig) (qs : List RateLimitRequest)
    (known : get_rule c.config limit.type ≡ some rule) where
  admits-opt_cons :
      (f : Text → ℕ) (type : LimitType)
      → rule.type ≡ type
      → admits c at f (opt_cons (request_for qos limit (check_amount type)) qs) ≡ true
      → InRoom c at type (f (limit_key c at qos limit rule)) limit.value × (admits c at f qs ≡ true)
  unfolding to_rate_limit_request generate
  admits-opt_cons f request_type e = rw known (λ a.
      let (room, others) =
        not_over (f (limit_key c at qos limit rule) + 1) limit.value (admits c at f qs) a in
      (omega arith, others))
  admits-opt_cons f token_type e = rw known (λ a.
      let (room, others) =
        not_over (f (limit_key c at qos limit rule) + 0) limit.value (admits c at f qs) a in
      (omega arith, others))

  charge-opt_cons :
      (j : Text) (type : LimitType)
      → rule.type ≡ type
      → charge c at (opt_cons (request_for qos limit (request_amount type)) qs) j
        ≡ counts_under c at (some rule) qos limit j + charge c at qs j
  unfolding to_rate_limit_request generate
  charge-opt_cons j request_type e = rw (known, e) refl
  charge-opt_cons j token_type e = rw e (omega arith)

module _ {W : Type 0} (s : Server W) (c : RedisRateLimiter) (at : Moment)
    (rules : (name : Text) → s.limiter.get_rule_by_name name ≡ get_rule c.config name)
    (qos : UserQos) where
  pub limit_requests-IsCounts :
      (amount_of : LimitType → Option ℤ)
      → IsUnit c at amount_of
      → (limits : List RateLimit) (qs : List RateLimitRequest)
      → limit_requests s amount_of qos limits ≡ ok qs
      → IsCounts c at limits qs
  limit_requests-IsCounts amount_of unit [] qs h =
      let p : qs ≡ [] = unfold limit_requests in cc in rw p (tt, omega arith)
  limit_requests-IsCounts amount_of unit (limit ∷ rest) qs h =
      let (rule, qs', known, more, e) = limit_requests-ok s amount_of qos limit rest qs h in
      rw e (
        IsCounts-cons c at amount_of qos limit rest rule.type qs' unit
          (limit_requests-IsCounts amount_of unit rest qs' more) (amount_of rule.type) refl)

  -- Where the numbers admit the requests that are checked, they leave room under every limit.
  pub admits-Room :
      (f : Text → ℕ) (limits : List RateLimit) (qs : List RateLimitRequest)
      → limit_requests s check_amount qos limits ≡ ok qs
      → admits c at f qs ≡ true
      → All (Room c at f qos) limits
  admits-Room f [] qs h a = tt
  admits-Room f (limit ∷ rest) qs h a =
      let (rule, qs', found, more, e) = limit_requests-ok s check_amount qos limit rest qs h in
      let known = sym (rules limit.type) ∙ found in
      let (room, others) =
        admits-opt_cons c at qos limit rule qs' known f rule.type refl (rw e at a) in
      (rw known room, admits-Room f rest qs' more others)

  -- Counting the requests of the limits adds one for each limit that counts under a key.
  pub charge-counts :
      (limits : List RateLimit) (qs : List RateLimitRequest) (j : Text)
      → limit_requests s request_amount qos limits ≡ ok qs
      → charge c at qs j ≡ counts c at qos limits j
  charge-counts [] qs j h = let p : qs ≡ [] = unfold limit_requests in cc in rw p refl
  charge-counts (limit ∷ rest) qs j h =
      let (rule, qs', found, more, e) = limit_requests-ok s request_amount qos limit rest qs h in
      let known = sym (rules limit.type) ∙ found in
      rw (e, known)
        (charge-opt_cons c at qos limit rule qs' known j rule.type refl
          ∙ ap (λ n. counts_under c at (some rule) qos limit j + n) (charge-counts rest qs' j more))
