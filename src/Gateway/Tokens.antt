-- ===== src/Gateway/Tokens.antt =====
-- pkg/gateway/check.go and utils.go: the requests made from the tokens of a response, under each key.
use arks.RateLimiter.Window.{generate, get_window_start}
use arks.Prelude.{
  none, ◌≤◌, ◌*◌, All, arith, ap, if◌then◌else◌, some, [], refl, List, ◌≡◌, ◌+◌, Option, sym, ℕ,
  ◌∙◌, ◌∷◌, length, Bool, inl, Bool-cases, inr,
}
use arks.RateLimiter.Limiter.{Moment, RedisRateLimiter}
use arks.QosConfig.{
  UserQos, RateLimit, QuotaConfig, QuotaItem, quota_requests, to_quota_request, count_of,
}
use arks.Gateway.Messages.{Server, CompletionUsage, to_rate_limit_request}
use arks.Gateway.Room.{limit_key, limit_requests-ok, opt_cons}
use arks.Gateway.Kept.{rules}
use arks.Gateway.Response.{count_map}
use arks.Gateway.Limits.{token_amount, limit_requests, request_for}
use arks.Quota.{generate as quota_key}
use arks.Quota.Counting.{IsUsage, usage}
use arks.RateLimiter.{
  RateLimitRequest, LimitRuleConfig, LimitType, get_rule, request_type, token_type,
}
use arks.Prelude.Text.{Text, text_eq, ok, text}
use arks.RateLimiter.Counting.{IsCount, total, charge}
use arks.Prelude.Int.{pos}

module _ (c : RedisRateLimiter) (at : Moment) (qos : UserQos) (tokens : ℕ) where
  abbrev spends_type : LimitType → Bool → ℕ
  spends_type request_type hit = 0
  spends_type token_type hit = if hit then tokens else 0

  abbrev spends_under : Option LimitRuleConfig → RateLimit → Text → ℕ
  spends_under none limit j = 0
  spends_under (some rule) limit j =
      spends_type rule.type (text_eq (limit_key c at qos limit rule) j)

  -- The tokens that the limits on tokens count under a key.
  abbrev pub spends : List RateLimit → Text → ℕ
  spends [] j = 0
  spends (limit ∷ rest) j = spends_under (get_rule c.config limit.type) limit j + spends rest j

  abbrev Counts : List RateLimit → List RateLimitRequest → Type 0
  Counts limits qs =
      All (IsCount c at) qs
      × (total c at qs ≤ tokens * length limits)
      × ((j : Text) → charge c at qs j ≡ spends limits j)

  Counts-cons :
      (limit : RateLimit) (rest : List RateLimit) (rule : LimitRuleConfig)
      (qs : List RateLimitRequest) (type : LimitType)
      → rule.type ≡ type
      → get_rule c.config limit.type ≡ some rule
      → Counts rest qs
      → Counts (limit ∷ rest) (opt_cons (request_for qos limit (token_amount (pos tokens) type)) qs)
  unfolding to_rate_limit_request generate get_window_start
  Counts-cons limit rest rule qs request_type e known (a, b, d) =
      (a, omega (arith, b), λ j. rw (known, e) (d j ∙ omega arith))
  Counts-cons limit rest rule qs token_type e known (a, b, d) = (
    (refl, a),
    omega (arith, b),
    λ j.
        rw (known, e)
          (ap (λ n. spends_type token_type (text_eq (limit_key c at qos limit rule) j) + n) (d j)),
  )

  pub limit_requests-Counts :
      {W : Type 0} (s : Server W)
      → ((name : Text) → s.limiter.get_rule_by_name name ≡ get_rule c.config name)
      → (limits : List RateLimit) (qs : List RateLimitRequest)
      → limit_requests s (token_amount (pos tokens)) qos limits ≡ ok qs
      → Counts limits qs
  limit_requests-Counts s rules [] qs h =
      let p : qs ≡ [] = unfold limit_requests in cc in rw p (tt, omega arith, λ j. refl)
  limit_requests-Counts s rules (limit ∷ rest) qs h =
      let (rule, qs', found, more, e) =
        limit_requests-ok s (token_amount (pos tokens)) qos limit rest qs h in
      rw e (
        Counts-cons limit rest rule qs' rule.type refl (sym (rules limit.type) ∙ found)
          (limit_requests-Counts s rules rest qs' more))

-- The tokens of a response, as numbers.
pub record IsTotal (u : CompletionUsage) (prompt completion total_tokens : ℕ) : Type 0 where
  pub prompt_eq : u.prompt_tokens ≡ pos prompt
  pub completion_eq : u.completion_tokens ≡ pos completion
  pub total_eq : u.total_tokens ≡ pos total_tokens

-- The tokens that a quota of a type counts.
abbrev pub tokens_of : ℕ → ℕ → ℕ → Text → ℕ
tokens_of prompt completion total_tokens type =
    if text_eq (text "prompt") type
    then prompt
    else if text_eq (text "response") type
    then completion
    else if text_eq (text "total") type
    then total_tokens
    else 0

module _ (prefix : Text) (p d t : ℕ) (conf : QuotaConfig) where
  -- What the items of a quota count under a key.
  abbrev pub quota_spends : List QuotaItem → Text → ℕ
  quota_spends [] j = 0
  quota_spends (item ∷ items) j =
      (if text_eq (quota_key prefix (to_quota_request conf [] item)) j
        then tokens_of p d t item.type
        else 0)
      + quota_spends items j

module _ (prefix : Text) (u : CompletionUsage) (p d t : ℕ) (h : IsTotal u p d t)
    (conf : QuotaConfig) where
  count_of-tokens_of : (type : Text) → count_of (count_map u) type ≡ pos (tokens_of p d t type)
  count_of-tokens_of type =
      rw (h.prompt_eq, h.completion_eq, h.total_eq)
        (elim (Bool-cases (text_eq (text "prompt") type)) [
          | inl a ↦ rw a refl
          | inr a ↦ elim (Bool-cases (text_eq (text "response") type)) [
            | inl b ↦ rw (a, b) refl
            | inr b ↦ elim (Bool-cases (text_eq (text "total") type)) [
              | inl e ↦ rw (a, b, e) refl
              | inr e ↦ rw (a, b, e) refl
            ]
          ]
        ])

  pub count_map-IsUsage :
      (items : List QuotaItem) → All (IsUsage prefix) (quota_requests conf (count_map u) items)
  unfolding quota_requests to_quota_request
  count_map-IsUsage [] = tt
  count_map-IsUsage (item ∷ items) =
      (rw (count_of-tokens_of item.type) refl, count_map-IsUsage items)

  pub usage-quota_spends :
      (items : List QuotaItem) (j : Text)
      → usage prefix (quota_requests conf (count_map u) items) j
        ≡ quota_spends prefix p d t conf items j
  unfolding quota_requests to_quota_request quota_key
  usage-quota_spends [] j = refl
  usage-quota_spends (item ∷ items) j =
      rw (count_of-tokens_of item.type, usage-quota_spends items j) refl
