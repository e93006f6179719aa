-- ===== src/RateLimiter.antt =====
-- pkg/gateway/ratelimiter/types.go and rate_limiter.go: units, rules, requests and responses.
-- `LimitUnit` and `LimitType` are strings of which the code uses the constants alone.
pub mod Window
pub mod Limiter
pub mod Checking
pub mod Counting
pub mod Failing
pub mod Refined
pub mod Rules
pub mod Tests
use arks.Prelude.{ℕ, Bool, List, [], ◌∷◌, Option, none, some, if◌then◌else◌}
use arks.Prelude.Int.{ℤ, pos}
use arks.Prelude.Text.{Text, text, text_eq}

pub data LimitUnit : Type 0 where
  second minute hour day : LimitUnit

-- The `panic` of an unknown unit is out of reach of the four constants.
abbrev pub unit_to_seconds : LimitUnit → ℤ
unit_to_seconds second = pos 1
unit_to_seconds minute = pos 60
unit_to_seconds hour = pos 3600
unit_to_seconds day = pos 86400

pub data LimitType : Type 0 where
  request_type token_type : LimitType

pub record LimitRuleConfig : Type 0 where
  pub name : Text
  pub type : LimitType
  pub period : ℤ
  pub unit : LimitUnit
  pub description : Text

-- The map of rules, by name.
pub record LimitConfig : Type 0 where
  pub rules : List (Text × LimitRuleConfig)

abbrev pub lookup {ℓ} : {A : Type ℓ} → Text → List (Text × A) → Option A
lookup k [] = none
lookup k ((j, v) ∷ m) = if text_eq j k then some v else lookup k m

abbrev pub insert {ℓ} : {A : Type ℓ} → Text → A → List (Text × A) → List (Text × A)
insert k v [] = (k, v) ∷ []
insert k v ((j, w) ∷ m) = if text_eq j k then (k, v) ∷ m else (j, w) ∷ insert k v m

unfoldable pub add_rule : LimitConfig → LimitRuleConfig → LimitConfig
add_rule c rule = record { rules = insert rule.name rule c.rules }

unfoldable pub get_rule : LimitConfig → Text → Option LimitRuleConfig
get_rule c name = lookup name c.rules

abbrev pub rpm : LimitRuleConfig
rpm = record {
  name = text "rpm";
  type = request_type;
  period = pos 1;
  unit = minute;
  description = text "Requests per minute";
}

abbrev pub rpd : LimitRuleConfig
rpd = record {
  name = text "rpd";
  type = request_type;
  period = pos 1;
  unit = day;
  description = text "Requests per day";
}

abbrev pub tpm : LimitRuleConfig
tpm = record {
  name = text "tpm";
  type = token_type;
  period = pos 1;
  unit = minute;
  description = text "Tokens per minute";
}

abbrev pub tpd : LimitRuleConfig
tpd = record {
  name = text "tpd";
  type = token_type;
  period = pos 1;
  unit = day;
  description = text "Tokens per day";
}

unfoldable pub new_limit_config : LimitConfig
unfolding add_rule text_eq
new_limit_config = add_rule (add_rule (add_rule (add_rule (record { rules = [] }) rpm) rpd) tpm) tpd

pub record Label : Type 0 where
  pub key : Text
  pub value : Text

pub record RateLimitRequest : Type 0 where
  pub identifier : List Label
  pub rule_name : Text
  pub limit : ℤ
  pub request : ℤ

-- `expires_at` counts the nanoseconds since the Unix epoch.
pub record RateLimitResponse : Type 0 where
  pub rule_name : Text
  pub over_limit : Bool
  pub current_usage : ℤ
  pub limit_max : ℤ
  pub expires_at : ℤ
