-- ===== src/Gateway/Keys.antt =====
-- The Redis keys of the counters tell users, models, rules and windows apart.
use arks.Prelude.{
  ℕ, ◌∙◌, ◌≡◌, append_assoc, ◌++◌, arith, sym, All-append, ◌∷◌, ◌↔◌, inr, some, inl, ◌/◌, ◌<◌, ap,
  ◌^◌, ◌≤◌, refl, ◌*◌,
}
use arks.Prelude.Int.{ℤ, pos, pos_part}
use arks.Prelude.Text.{Text, Lacks, cut_first, cut_last, text}
use arks.Prelude.Decimal.{format_int, parse_int-format_int, parse_int}
use arks.RateLimiter.{LimitRuleConfig, get_rule, new_limit_config}
use arks.RateLimiter.Window.{get_window_start, generate}
use arks.QosConfig.{UserQos}
use arks.Gateway.Messages.{to_rate_limit_request}
use mathlib.Core.List.{append_cancel_left, append_cancel_right}
use arks.RateLimiter.Rules.{
  predefined_name, seconds, predefined, get_window_start-predefined, get_window_start_iff,
}

-- Names of Kubernetes objects hold neither `=` nor `:`.
pub record IsPlain (qos : UserQos) : Type 0 where
  pub namespace_plain : Lacks b'=' qos.namespace
  pub user_plain : Lacks b'=' qos.user
  pub model_plain : Lacks b':' qos.model

-- Names of rules hold neither `.` nor `:`.
pub record IsRuleName (name : Text) : Type 0 where
  pub no_dot : Lacks b'.' name
  pub no_colon : Lacks b':' name

abbrev pub counter_key : Text → UserQos → Text → ℤ → ℤ → LimitRuleConfig → ℕ → Text
counter_key prefix qos name limit n rule now =
    generate prefix (to_rate_limit_request qos name limit n) rule now

-- A label's value, up to the next label's name.
value_of :
    (a b next u v : Text)
    → Lacks b'=' a
    → Lacks b'=' b
    → Lacks b'=' next
    → a ++ (next ++ (b'=' ∷ u)) ≡ b ++ (next ++ (b'=' ∷ v))
    → (a ≡ b) × (u ≡ v)
value_of a b next u v ha hb hn e =
    let e' : (a ++ next) ++ (b'=' ∷ u) ≡ (b ++ next) ++ (b'=' ∷ v) =
      append_assoc a next (b'=' ∷ u) ∙ e ∙ sym (append_assoc b next (b'=' ∷ v)) in
    let (front, back) =
      cut_first b'=' (a ++ next) (b ++ next) u v (All-append _ a next ha hn)
        (All-append _ b next hb hn) e' in
    (append_cancel_right a b next front, back)

-- The end of a key: the model, the rule and the window.
tail_of :
    (m m' name name' w w' : Text)
    → Lacks b':' m
    → Lacks b':' m'
    → IsRuleName name
    → IsRuleName name'
    → m ++ (b'.' ∷ (name ++ (b':' ∷ w))) ≡ m' ++ (b'.' ∷ (name' ++ (b':' ∷ w')))
    → (m ≡ m') × (name ≡ name') × (w ≡ w')
tail_of m m' name name' w w' hm hm' hn hn' e =
    let regroup = λ (a : Text) (b : Text) (c : Text). append_assoc a (b'.' ∷ b) (b':' ∷ c) in
    let (front, back) =
      cut_first b':' (m ++ (b'.' ∷ name)) (m' ++ (b'.' ∷ name')) w w'
        (All-append _ m (b'.' ∷ name) hm (omega arith, hn.no_colon))
        (All-append _ m' (b'.' ∷ name') hm' (omega arith, hn'.no_colon))
        (regroup m name w ∙ e ∙ sym (regroup m' name' w')) in
    let (models, names) = cut_last b'.' m m' name name' hn.no_dot hn'.no_dot front in
    (models, names, back)

abbrev from_model : UserQos → Text → Text → Text
from_model qos name w = qos.model ++ (b'.' ∷ (name ++ (b':' ∷ w)))

abbrev from_user : UserQos → Text → Text → Text
from_user qos name w = qos.user ++ (text ".model" ++ (b'=' ∷ from_model qos name w))

abbrev from_namespace : UserQos → Text → Text → Text
from_namespace qos name w = qos.namespace ++ (text ".user" ++ (b'=' ∷ from_user qos name w))

-- Two requests share a counter only if they have the same namespace, user, model, rule name and window.
pub generate-injective :
    (prefix : Text) (qos qos' : UserQos) (name name' : Text) (limit limit' n n' : ℤ)
    (rule rule' : LimitRuleConfig) (now now' : ℕ)
    → IsPlain qos
    → IsPlain qos'
    → IsRuleName name
    → IsRuleName name'
    → counter_key prefix qos name limit n rule now
      ≡ counter_key prefix qos' name' limit' n' rule' now'
    → (qos.namespace ≡ qos'.namespace)
      × (qos.user ≡ qos'.user)
      × (qos.model ≡ qos'.model)
      × (name ≡ name')
      × (format_int (get_window_start now rule) ≡ format_int (get_window_start now' rule'))
unfolding generate to_rate_limit_request
generate-injective prefix qos qos' name name' limit limit' n n' rule rule' now now' p p' q q' e =
    let w = format_int (get_window_start now rule) in
    let w' = format_int (get_window_start now' rule') in
    let named : from_namespace qos name w ≡ from_namespace qos' name' w' =
      append_cancel_left (text ":namespace=") _ _ (append_cancel_left prefix _ _ e) in
    let (namespaces, users) =
      value_of qos.namespace qos'.namespace (text ".user") (from_user qos name w)
        (from_user qos' name' w') p.namespace_plain p'.namespace_plain (omega arith) named in
    let (user, models) =
      value_of qos.user qos'.user (text ".model") (from_model qos name w) (from_model qos' name' w')
        p.user_plain p'.user_plain (omega arith) users in
    let (model, rules, windows) =
      tail_of qos.model qos'.model name name' w w' p.model_plain p'.model_plain q q' models in
    (namespaces, user, model, rules, windows)

predefined-IsRuleName :
    (name : Text) (rule : LimitRuleConfig)
    → get_rule new_limit_config name ≡ some rule
    → IsRuleName name
predefined-IsRuleName name rule e =
    rw (predefined_name name rule e) (elim (predefined name rule e) [
      | inl p ↦ rw p (record { no_dot = omega arith; no_colon = omega arith })
      | inr (inl p) ↦ rw p (record { no_dot = omega arith; no_colon = omega arith })
      | inr (inr (inl p)) ↦ rw p (record { no_dot = omega arith; no_colon = omega arith })
      | inr (inr (inr p)) ↦ rw p (record { no_dot = omega arith; no_colon = omega arith })
    ])

format_int-pos-injective :
    (a b : ℕ) → a < 2 ^ 63 → b < 2 ^ 63 → format_int (pos a) ≡ format_int (pos b) → a ≡ b
format_int-pos-injective a b ha hb e = ap pos_part (
    sym (parse_int-format_int (pos a) (omega arith) (omega arith))
    ∙ ap parse_int e
    ∙ parse_int-format_int (pos b) (omega arith) (omega arith))

period-le :
    (name : Text) (rule : LimitRuleConfig) (now : ℕ)
    → get_rule new_limit_config name ≡ some rule
    → now / seconds rule * seconds rule ≤ now
period-le name rule now e = elim (predefined name rule e) [
  | inl p ↦ rw p (omega arith)
  | inr (inl p) ↦ rw p (omega arith)
  | inr (inr (inl p)) ↦ rw p (omega arith)
  | inr (inr (inr p)) ↦ rw p (omega arith)
]

window_period :
    (name : Text) (rule : LimitRuleConfig) (now later : ℕ)
    → get_rule new_limit_config name ≡ some rule
    → now < 2 ^ 63
    → later < 2 ^ 63
    → format_int (get_window_start now rule) ≡ format_int (get_window_start later rule)
    → now / seconds rule ≡ later / seconds rule
window_period name rule now later e hn hl w =
    let starts = get_window_start-predefined name rule in
    (get_window_start_iff name rule now later e).0 (
      rw (starts now e, starts later e)
        (ap pos (
          format_int-pos-injective (now / seconds rule * seconds rule)
            (later / seconds rule * seconds rule) (omega (arith, period-le name rule now e))
            (omega (arith, period-le name rule later e)) (rw (starts now e, starts later e) at w))))

-- Under the predefined rules, at times that int64 holds, and for users whose namespace and name hold no
-- `=` and whose model holds no `:`, two requests count under one key exactly when they have the
-- same namespace, user, model and rule name, and their times lie in the same period of the rule.
pub counter_key-eq_iff :
    (prefix : Text) (qos qos' : UserQos) (name name' : Text) (limit limit' n n' : ℤ)
    (rule rule' : LimitRuleConfig) (now now' : ℕ)
    → IsPlain qos
    → IsPlain qos'
    → get_rule new_limit_config name ≡ some rule
    → get_rule new_limit_config name' ≡ some rule'
    → now < 2 ^ 63
    → now' < 2 ^ 63
    → (counter_key prefix qos name limit n rule now
        ≡ counter_key prefix qos' name' limit' n' rule' now')
      ↔ ((qos.namespace ≡ qos'.namespace)
          × (qos.user ≡ qos'.user)
          × (qos.model ≡ qos'.model)
          × (name ≡ name')
          × (now / seconds rule ≡ now' / seconds rule'))
counter_key-eq_iff prefix qos qos' name name' limit limit' n n' rule rule' now now' p p' known
      known' hn hn' =
    (to, from)
  where
    to :
        counter_key prefix qos name limit n rule now
          ≡ counter_key prefix qos' name' limit' n' rule' now'
        → (qos.namespace ≡ qos'.namespace)
          × (qos.user ≡ qos'.user)
          × (qos.model ≡ qos'.model)
          × (name ≡ name')
          × (now / seconds rule ≡ now' / seconds rule')
    to e =
        let (a, b, c, d, w) =
          generate-injective prefix qos qos' name name' limit limit' n n' rule rule' now now' p p'
            (predefined-IsRuleName name rule known) (predefined-IsRuleName name' rule' known') e in
        let same : rule ≡ rule' = cc (ap (get_rule new_limit_config) d) in
        (a, b, c, d, rw (← same) (window_period name rule now now' known hn hn' (rw (← same) at w)))

    from :
        (qos.namespace ≡ qos'.namespace)
          × (qos.user ≡ qos'.user)
          × (qos.model ≡ qos'.model)
          × (name ≡ name')
          × (now / seconds rule ≡ now' / seconds rule')
        → counter_key prefix qos name limit n rule now
          ≡ counter_key prefix qos' name' limit' n' rule' now'
    from (a, b, c, d, w) =
        let same : rule ≡ rule' = cc (ap (get_rule new_limit_config) d) in
        let start : get_window_start now rule ≡ get_window_start now' rule' =
          rw (← same) ((get_window_start_iff name rule now now' known).1 (rw (← same) at w)) in
        unfold generate to_rate_limit_request in rw (a, b, c, d, start) refl
