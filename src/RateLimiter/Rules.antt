-- ===== src/RateLimiter/Rules.antt =====
-- The predefined rules: what the map holds, and where the windows of the rules start.
use arks.Prelude.{ℕ, ◌*◌, ◌≡◌, refl, ◌⊎◌, inl, inr, some, arith, ◌↔◌, ◌/◌, ap}
use arks.Prelude.Int.{pos, pos_part}
use arks.Prelude.Text.{Text, text_eq_iff, text}
use arks.RateLimiter.{
  LimitRuleConfig, unit_to_seconds, rpm, rpd, tpm, tpd, new_limit_config, get_rule,
}
use arks.RateLimiter.Window.{window_size, get_window_start}

pub predefined :
    (name : Text) (rule : LimitRuleConfig)
    → get_rule new_limit_config name ≡ some rule
    → (rule ≡ rpm) ⊎ (rule ≡ rpd) ⊎ (rule ≡ tpm) ⊎ (rule ≡ tpd)
unfolding get_rule new_limit_config
predefined name rule e = ground arith

-- The seconds of a rule's unit.
abbrev pub seconds : LimitRuleConfig → ℕ
seconds rule = pos_part (unit_to_seconds rule.unit)

window_size-predefined :
    (name : Text) (rule : LimitRuleConfig)
    → get_rule new_limit_config name ≡ some rule
    → window_size rule ≡ pos (seconds rule * 1000000000)
unfolding window_size
window_size-predefined name rule e = elim (predefined name rule e) [
  | inl p ↦ rw p refl
  | inr (inl p) ↦ rw p refl
  | inr (inr (inl p)) ↦ rw p refl
  | inr (inr (inr p)) ↦ rw p refl
]

-- The window of a predefined rule starts at the last multiple of its seconds, counted from the Unix
-- epoch: Go truncates from the year 1, which is a whole number of days before.
pub get_window_start-predefined :
    (name : Text) (rule : LimitRuleConfig) (now : ℕ)
    → get_rule new_limit_config name ≡ some rule
    → get_window_start now rule ≡ pos (now / seconds rule * seconds rule)
unfolding get_window_start window_size
get_window_start-predefined name rule now e = elim (predefined name rule e) [
  | inl p ↦ rw p (ground arith)
  | inr (inl p) ↦ rw p (ground arith)
  | inr (inr (inl p)) ↦ rw p (ground arith)
  | inr (inr (inr p)) ↦ rw p (ground arith)
]

-- Two times have the same window start exactly when they lie in the same period of the rule.
pub get_window_start_iff :
    (name : Text) (rule : LimitRuleConfig) (now later : ℕ)
    → get_rule new_limit_config name ≡ some rule
    → (get_window_start now rule ≡ get_window_start later rule)
      ↔ (now / seconds rule ≡ later / seconds rule)
get_window_start_iff name rule now later e =
    rw (get_window_start-predefined name rule now e, get_window_start-predefined name rule later e)
      (elim (predefined name rule e) [
        | inl p ↦ rw p (λ h. omega (arith, ap pos_part h), λ h. rw h refl)
        | inr (inl p) ↦ rw p (λ h. omega (arith, ap pos_part h), λ h. rw h refl)
        | inr (inr (inl p)) ↦ rw p (λ h. omega (arith, ap pos_part h), λ h. rw h refl)
        | inr (inr (inr p)) ↦ rw p (λ h. omega (arith, ap pos_part h), λ h. rw h refl)
      ])

-- A predefined rule stands under its own name.
pub predefined_name :
    (name : Text) (rule : LimitRuleConfig)
    → get_rule new_limit_config name ≡ some rule
    → name ≡ rule.name
unfolding get_rule new_limit_config
predefined_name name rule e = ground (
  arith,
  text_eq_iff (text "rpm") name,
  text_eq_iff (text "rpd") name,
  text_eq_iff (text "tpm") name,
  text_eq_iff (text "tpd") name,
)
