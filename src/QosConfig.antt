-- ===== src/QosConfig.antt =====
-- pkg/gateway/qosconfig/types.go and pkg/gateway/quota/types.go: the QoS of a user, the quotas, and
-- the quota requests made from them.
use arks.Prelude.{Bool, List, [], ◌∷◌, Option, none, some}
use arks.Prelude.Int.{ℤ, pos}
use arks.Prelude.Text.{Text, text}
use arks.RateLimiter.{Label, lookup}

pub record RateLimit : Type 0 where
  pub type : Text
  pub value : ℤ

pub record UserQos : Type 0 where
  pub user : Text
  pub namespace : Text
  pub model : Text
  pub quota_name : Text
  pub rate_limits : List RateLimit

pub record QuotaItem : Type 0 where
  pub type : Text
  pub value : ℤ

pub record QuotaConfig : Type 0 where
  pub name : Text
  pub namespace : Text
  pub limits : List QuotaItem

pub record QuotaRequest : Type 0 where
  pub identifier : List Label
  pub limit : ℤ
  pub request : ℤ

pub record QuotaResult : Type 0 where
  pub identifier : List Label
  pub over_limit : Bool
  pub current_usage : ℤ
  pub limit_max : ℤ

-- Go's map of token counts; a nil map and an empty one read alike.
abbrev pub CountMap : Type 0
CountMap = List (Text × ℤ)

-- A missing key reads as 0.
abbrev pub or_zero : Option ℤ → ℤ
or_zero none = pos 0
or_zero (some n) = n

abbrev pub count_of : CountMap → Text → ℤ
count_of m k = or_zero (lookup k m)

unfoldable pub to_quota_request : QuotaConfig → CountMap → QuotaItem → QuotaRequest
to_quota_request conf counts item = record {
  identifier =
      record { key = text "namespace"; value = conf.namespace }
      ∷ record { key = text "quotaname"; value = conf.name }
      ∷ record { key = text "type"; value = item.type }
      ∷ [];
  limit = item.value;
  request = count_of counts item.type;
}

unfoldable pub quota_requests : QuotaConfig → CountMap → List QuotaItem → List QuotaRequest
quota_requests conf counts [] = []
quota_requests conf counts (item ∷ items) =
    to_quota_request conf counts item ∷ quota_requests conf counts items

unfoldable pub qos_to_quota_requests : QuotaConfig → CountMap → List QuotaRequest
unfolding quota_requests
qos_to_quota_requests conf counts = quota_requests conf counts conf.limits
