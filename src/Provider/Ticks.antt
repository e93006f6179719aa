-- ===== src/Provider/Ticks.antt =====
-- pkg/gateway/qosconfig/arks_impl.go: the ticks that sync the quota usage, between other changes of the
-- cluster.
use arks.Prelude.{
  none, List, Option, ◌⊎◌, ◌≡◌, All, [], ◌∷◌, inr, true, if◌then◌else◌, arith, ◌∙◌, some, refl, inl,
  false, sym, Bool, ap,
}
use arks.Provider.{
  after_usage, sync_listed, Cluster, Synced, apply_sync, sync_quota, sync_quotas, sync_quota_usage,
  sync_usages, ArksQuota, QuotaService, Text, ℤ, qos_to_quota_requests, quota_config, QuotaResult,
}
use arks.Provider.Sync.{used_of, NotLowered, sync_usages-NotLowered}
use arks.Prelude.Text.{Text, ok, Result, err}
use arks.Api.{ArksQuota}
use arks.Services.{QuotaService}
use arks.Prelude.Int.{ℤ}
use arks.QosConfig.{QuotaRequest, qos_to_quota_requests, QuotaResult}
use mathlib.Core.Path.{subst}

-- The key of a quota.
abbrev pub IsAt : Text → Text → ArksQuota → Type 0
IsAt namespace name quota = (quota.namespace ≡ namespace) × (quota.name ≡ name)

abbrev pub Shows : {W : Type 0} → (Text → Text → Text → W → Option ℤ) → W → ArksQuota → Type 0
Shows shown w quota =
    (type : Text) → shown quota.namespace quota.name type w ≡ used_of type quota.quota_status

-- No two quotas have the same key.
abbrev pub Distinct : List ArksQuota → Type 0
Distinct [] = Unit
Distinct (quota ∷ rest) = All (λ x. ¬ (IsAt x.namespace x.name quota)) rest × Distinct rest

-- What the sync relies on: a list has the quotas as the cluster shows them, each once (the update of
-- an outdated quota is refused by its resource version), an update changes nothing or the status of its
-- quota, and the quota service has no quota objects.
pub record QuotaLaws {W : Type 0} (k : Cluster W) (q : QuotaService W) : Type 0 where
  pub shown : Text → Text → Text → W → Option ℤ
  pub listed :
      (w : W) (quotas : List ArksQuota)
      → k.list_quotas w ≡ ok quotas
      → All (Shows shown w) quotas × Distinct quotas
  pub updated :
      (quota : ArksQuota) (w : W) (namespace name type : Text)
      → (shown namespace name type (k.update_quota_status quota w).1 ≡ shown namespace name type w)
        ⊎ (IsAt namespace name quota
            × (shown namespace name type (k.update_quota_status quota w).1
                ≡ used_of type quota.quota_status))
  pub asked :
      (requests : List QuotaRequest) (w : W) (namespace name type : Text)
      → shown namespace name type (q.get_usage requests w).1 ≡ shown namespace name type w
  pub set :
      (requests : List QuotaRequest) (w : W) (namespace name type : Text)
      → shown namespace name type (q.set_usage requests w).1 ≡ shown namespace name type w

NotLowered-refl : (o : Option ℤ) → NotLowered o o
NotLowered-refl none = tt
NotLowered-refl (some a) = omega arith

NotLowered-chain : (a b c : Option ℤ) → NotLowered a b → NotLowered b c → NotLowered a c
NotLowered-chain none b c h i = tt
NotLowered-chain (some x) none c h i = absurd h
NotLowered-chain (some x) (some y) none h i = i
NotLowered-chain (some x) (some y) (some z) h i = omega arith

module _ {W : Type 0} (k : Cluster W) (q : QuotaService W) (l : QuotaLaws k q) where
  -- A tick of the sync, or another change, which lowers no usage that is shown.
  pub data Ticks (w : W) : W → Type 0 where
    start : Ticks w w
    tick : {x : W} (now : ℤ) → Ticks w x → Ticks w (sync_quota_usage k q now x).1
    other :
        {x y : W}
        → Ticks w x
        → ((namespace name type : Text)
            → NotLowered (l.shown namespace name type x) (l.shown namespace name type y))
        → Ticks w y

  module _ (now : ℤ) where
    -- A usage is as before, or that of the new status of the quota.
    abbrev Moved : ArksQuota → Synced → W → W → Type 0
    Moved quota s w w' =
        (namespace name type : Text)
        → (l.shown namespace name type w' ≡ l.shown namespace name type w)
          ⊎ (IsAt namespace name quota × (l.shown namespace name type w' ≡ used_of type s.status))

    set_if :
        (b : Bool) (requests : List QuotaRequest) (w : W) (namespace name type : Text)
        → l.shown namespace name type (if b then (q.set_usage requests w).1 else w)
          ≡ l.shown namespace name type w
    set_if true requests w = l.set requests w
    set_if false requests w = λ namespace name type. refl

    update_if :
        (b : Bool) (quota : ArksQuota) (s : Synced) (w w' : W)
        → ((namespace name type : Text)
            → l.shown namespace name type w' ≡ l.shown namespace name type w)
        → Moved quota s w (
            if b
            then (k.update_quota_status (record quota { quota_status = s.status }) w').1
            else w')
    update_if false quota s w w' same = λ namespace name type. inl (same namespace name type)
    update_if true quota s w w' same = λ namespace name type.
        elim (l.updated (record quota { quota_status = s.status }) w' namespace name type) [
          | inl e ↦ inl (e ∙ same namespace name type)
          | inr (at, e) ↦ inr (at, e)
        ]

    apply_sync-Moved :
        (quota : ArksQuota) (s : Synced) (w : W) → Moved quota s w (apply_sync k q now quota s w)
    apply_sync-Moved quota s w =
        update_if s.update_cr quota s w _
          (set_if s.update_quota (qos_to_quota_requests (quota_config quota) []) w)

    -- One quota: its status takes the usages, or all is as before.
    abbrev Synchronised : ArksQuota → W → W → Type 0
    Synchronised quota w w' =
        (namespace name type : Text)
        → (l.shown namespace name type w' ≡ l.shown namespace name type w)
          ⊎ (IsAt namespace name quota
              × NotLowered (used_of type quota.quota_status) (l.shown namespace name type w'))

    after_usage-Synchronised :
        (quota : ArksQuota) (usage : Result (List QuotaResult)) (w w' : W)
        → ((namespace name type : Text)
            → l.shown namespace name type w' ≡ l.shown namespace name type w)
        → Synchronised quota w (after_usage k q now quota usage w')
    after_usage-Synchronised quota (err message) w w' same namespace name type =
        inl (same namespace name type)
    after_usage-Synchronised quota (ok usage) w w' same namespace name type =
        let s = sync_usages now usage quota.quota_status in
        elim (apply_sync-Moved quota s w' namespace name type) [
          | inl e ↦ inl (e ∙ same namespace name type)
          | inr (at, e) ↦ inr (at, rw e (sync_usages-NotLowered now usage quota.quota_status type))
        ]

    sync_quota-Synchronised :
        (quota : ArksQuota) (w : W) → Synchronised quota w (sync_quota k q now quota w)
    unfolding sync_quota
    sync_quota-Synchronised quota w =
        let requests = qos_to_quota_requests (quota_config quota) [] in
        after_usage-Synchronised quota (q.get_usage requests w).0 w (q.get_usage requests w).1
          (l.asked requests w)

    -- The other quotas of the list are shown as they were.
    others-Shows :
        (quota : ArksQuota) (rest : List ArksQuota) (w w' : W)
        → All (λ x. ¬ (IsAt x.namespace x.name quota)) rest
        → Synchronised quota w w'
        → All (Shows l.shown w) rest
        → All (Shows l.shown w') rest
    others-Shows quota [] w w' apart moved h = tt
    others-Shows quota (x ∷ rest) w w' (a, apart) moved (h, hs) = (
      λ type. elim (moved x.namespace x.name type) [
        | inl e ↦ e ∙ h type
        | inr (at, up) ↦ absurd (a at)
      ],
      others-Shows quota rest w w' apart moved hs,
    )

    Synchronised-NotLowered :
        (quota : ArksQuota) (w w' : W) (namespace name type : Text)
        → Shows l.shown w quota
        → Synchronised quota w w'
        → NotLowered (l.shown namespace name type w) (l.shown namespace name type w')
    Synchronised-NotLowered quota w w' namespace name type h moved =
        elim (moved namespace name type) [
          | inl e ↦ rw e (NotLowered-refl (l.shown namespace name type w))
          | inr ((a, b), up) ↦
              subst (λ o. NotLowered o (l.shown namespace name type w'))
                (sym (h type)
                  ∙ (ap (λ x. l.shown x quota.name type w) a
                      ∙ ap (λ y. l.shown namespace y type w) b))
                up
        ]

    sync_quotas-NotLowered :
        (quotas : List ArksQuota) (w : W) (namespace name type : Text)
        → All (Shows l.shown w) quotas
        → Distinct quotas
        → NotLowered
            (l.shown namespace name type w)
            (l.shown namespace name type (sync_quotas k q now quotas w))
    sync_quotas-NotLowered [] w namespace name type h apart =
        NotLowered-refl (l.shown namespace name type w)
    sync_quotas-NotLowered (quota ∷ rest) w namespace name type (h, hs) (a, apart) =
        let moved = sync_quota-Synchronised quota w in
        NotLowered-chain (l.shown namespace name type w) _ _
          (Synchronised-NotLowered quota w (sync_quota k q now quota w) namespace name type h moved)
          (sync_quotas-NotLowered rest (sync_quota k q now quota w) namespace name type
            (others-Shows quota rest w (sync_quota k q now quota w) a moved hs) apart)

    sync_listed-NotLowered :
        (listing : Result (List ArksQuota)) (w : W) (namespace name type : Text)
        → k.list_quotas w ≡ listing
        → NotLowered
            (l.shown namespace name type w)
            (l.shown namespace name type (sync_listed k q now listing w).1)
    sync_listed-NotLowered (err message) w namespace name type e =
        NotLowered-refl (l.shown namespace name type w)
    sync_listed-NotLowered (ok quotas) w namespace name type e =
        let (h, apart) = l.listed w quotas e in
        sync_quotas-NotLowered quotas w namespace name type h apart

    sync_quota_usage-NotLowered :
        (w : W) (namespace name type : Text)
        → NotLowered
            (l.shown namespace name type w)
            (l.shown namespace name type (sync_quota_usage k q now w).1)
    unfolding sync_quota_usage
    sync_quota_usage-NotLowered w namespace name type =
        sync_listed-NotLowered (k.list_quotas w) w namespace name type refl

  -- However many ticks of the sync run, between changes of the cluster that lower no usage, a usage
  -- that the status of a quota shows is still shown, and not lower.
  pub Ticks-NotLowered :
      {w x : W} (namespace name type : Text)
      → Ticks w x
      → NotLowered (l.shown namespace name type w) (l.shown namespace name type x)
  Ticks-NotLowered {w} namespace name type start = NotLowered-refl (l.shown namespace name type w)
  Ticks-NotLowered {w} namespace name type (tick {x} now run) =
      NotLowered-chain (l.shown namespace name type w) _ _
        (Ticks-NotLowered namespace name type run)
        (sync_quota_usage-NotLowered now x namespace name type)
  Ticks-NotLowered {w} namespace name type (other run up) =
      NotLowered-chain (l.shown namespace name type w) _ _
        (Ticks-NotLowered namespace name type run) (up namespace name type)
