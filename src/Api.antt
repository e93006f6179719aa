-- ===== src/Api.antt =====
-- api/v1: the custom resources that the gateway reads, with the fields that it uses.
use arks.Prelude.{List, Option}
use arks.Prelude.Int.{ℤ}
use arks.Prelude.Text.{Text}
use arks.QosConfig.{RateLimit, QuotaItem}

-- `arks_endpoint` and `quota` are the names of local references; an absent one is the empty text.
pub record ArksQos : Type 0 where
  pub arks_endpoint : Text
  pub rate_limits : List RateLimit
  pub quota : Text

pub record ArksToken : Type 0 where
  pub name : Text
  pub namespace : Text
  pub token : Text
  pub qos : List ArksQos

-- `last_update_time` in nanoseconds since the Unix epoch.
pub record QuotaStatus : Type 0 where
  pub type : Text
  pub used : ℤ
  pub last_update_time : Option ℤ

pub record ArksQuota : Type 0 where
  pub name : Text
  pub namespace : Text
  pub quotas : List QuotaItem
  pub quota_status : List QuotaStatus
