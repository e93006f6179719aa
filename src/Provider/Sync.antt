-- ===== src/Provider/Sync.antt =====
-- pkg/gateway/qosconfig/arks_impl.go: what the sync of quota usage keeps.
use arks.Prelude.{
  none, inl, some, refl, inr, arith, List, [], ◌∷◌, Option, ap, ◌≡◌, true, Bool-cases, ◌∙◌,
  if◌then◌else◌, sym, Bool, false,
}
use arks.Provider.{sync_status, sync_usages, QuotaResult, QuotaStatus, quota_type}
use arks.Prelude.Int.{ℤ, ◌≤ℤ◌, ltb_ℤ}
use arks.Prelude.Text.{Text, text_eq, eq_of_text_eq, text_eq-differ}
use arks.QosConfig.{QuotaResult}
use arks.Api.{QuotaStatus}
use mathlib.Core.Path.{subst}

-- The usage that the first status entry of a type shows.
abbrev pub used_of : Text → List QuotaStatus → Option ℤ
used_of type [] = none
used_of type (s ∷ rest) = if text_eq s.type type then some s.used else used_of type rest

-- The larger of what the status shows and what the quota service counts.
abbrev pub raised : Option ℤ → ℤ → ℤ
raised none current = current
raised (some used) current = if ltb_ℤ used current then current else used

-- What the status of a type shows after the usages, in order.
abbrev pub after_usages : Text → List QuotaResult → Option ℤ → Option ℤ
after_usages type [] shown = shown
after_usages type (u ∷ rest) shown =
    after_usages type rest (
      if text_eq (quota_type u.identifier) type then some (raised shown u.current_usage) else shown)

-- The first entry of the type is the one that the sync changes.
hit-used :
    (now : ℤ) (type : Text) (current : ℤ) (s : QuotaStatus) (rest : List QuotaStatus) (t : Text)
    (m : Bool)
    → text_eq s.type t ≡ m
    → text_eq s.type type ≡ true
    → used_of t (sync_status now type current (s ∷ rest)).status
      ≡ (if m then some (raised (used_of t (s ∷ rest)) current) else used_of t (s ∷ rest))
unfolding sync_status
hit-used now type current s rest t true b e = elim (Bool-cases (ltb_ℤ s.used current)) [
  | inl l ↦ rw (e, l, b, l) refl
  | inr l ↦ rw (e, l, b, l) refl
]
hit-used now type current s rest t false b e = elim (Bool-cases (ltb_ℤ s.used current)) [
  | inl l ↦ rw (e, l, b) refl
  | inr l ↦ rw (e, l, b) refl
]

sync_status-used :
    (now : ℤ) (type : Text) (current : ℤ) (status : List QuotaStatus) (t : Text)
    → used_of t (sync_status now type current status).status
      ≡ (if text_eq type t then some (raised (used_of t status) current) else used_of t status)
unfolding sync_status
sync_status-used now type current [] t = refl
sync_status-used now type current (s ∷ rest) t = elim (Bool-cases (text_eq s.type type)) [
  | inl e ↦
      hit-used now type current s rest t (text_eq type t)
        (ap (λ x. text_eq x t) (eq_of_text_eq s.type type e)) e
  | inr e ↦ rw e (elim (Bool-cases (text_eq s.type t)) [
    | inl z ↦ rw (z, text_eq-differ s.type type t e z) refl
    | inr z ↦ rw z (sync_status-used now type current rest t)
  ])
]

-- The sync takes, for each type, the largest of what the status showed and what the quota service
-- counts for the type.
pub sync_usages-used :
    (now : ℤ) (us : List QuotaResult) (status : List QuotaStatus) (t : Text)
    → used_of t (sync_usages now us status).status ≡ after_usages t us (used_of t status)
unfolding sync_usages
sync_usages-used now [] status t = refl
sync_usages-used now (u ∷ rest) status t =
    sync_usages-used now rest
      (sync_status now (quota_type u.identifier) u.current_usage status).status t
    ∙ ap (after_usages t rest)
        (sync_status-used now (quota_type u.identifier) u.current_usage status t)

-- A status that shows a usage still shows one, and not a smaller one.
abbrev pub NotLowered : Option ℤ → Option ℤ → Type 0
NotLowered none after = Unit
NotLowered (some before) none = ⊥
NotLowered (some before) (some after) = before ≤ℤ after

NotLowered-trans : (a b : ℤ) (o : Option ℤ) → a ≤ℤ b → NotLowered (some b) o → NotLowered (some a) o
NotLowered-trans a b none h l = l
NotLowered-trans a b (some c) h l = omega arith

raised-up : (a c : ℤ) → a ≤ℤ raised (some a) c
raised-up a c = ground arith

after_usages-NotLowered :
    (t : Text) (us : List QuotaResult) (shown : Option ℤ)
    → NotLowered shown (after_usages t us shown)
after_usages-NotLowered t us none = tt
after_usages-NotLowered t [] (some a) = omega arith
after_usages-NotLowered t (u ∷ rest) (some a) =
    elim (Bool-cases (text_eq (quota_type u.identifier) t)) [
      | inl e ↦ rw e (
          NotLowered-trans a (raised (some a) u.current_usage) _ (raised-up a u.current_usage)
            (after_usages-NotLowered t rest (some (raised (some a) u.current_usage))))
      | inr e ↦ rw e (after_usages-NotLowered t rest (some a))
    ]

-- The sync never lowers the usage that the status of a type shows, and never drops it.
pub sync_usages-NotLowered :
    (now : ℤ) (us : List QuotaResult) (status : List QuotaStatus) (t : Text)
    → NotLowered (used_of t status) (used_of t (sync_usages now us status).status)
sync_usages-NotLowered now us status t =
    subst (NotLowered (used_of t status)) (sym (sync_usages-used now us status t))
      (after_usages-NotLowered t us (used_of t status))
