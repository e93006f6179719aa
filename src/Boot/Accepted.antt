-- ===== src/Boot/Accepted.antt =====
-- cmd/gateway/main.go: which settings of Redis `initRedisClient` accepts.
use arks.Prelude.{
  inl, ◌⊎◌, refl, suc, ◌==◌, ap, ◌≢◌, arith, [], if◌then◌else◌, Bool-cases, ◌≤◌, ◌∙◌, List, ◌∷◌,
  inr, ℕ, ◌≡◌, ◌<◌, length, true, some, false, ◌↔◌, none, Option,
}
use arks.Boot.{
  RedisSettings, split, put_first, to_lower, Text, text, Mode, mode_of, mode_error, single, cluster,
  sentinel, unsupported, init_redis_client, text_eq, options_or, UniversalOptions, ok,
  universal_options,
}
use arks.Prelude.Text.{Text, to_lower, text, text_eq, text_eq_refl, eq_of_text_eq, ok, text_eq-ne}

abbrev pub occurs : ℕ → Text → ℕ
occurs c [] = 0
occurs c (b ∷ s) = if b == c then suc (occurs c s) else occurs c s

length-put_first : (b : ℕ) (ts : List Text) → 0 < length ts → length (put_first b ts) ≡ length ts
length-put_first b [] h = absurd (omega (arith, h))
length-put_first b (t ∷ ts) h = refl

length-split : (c : ℕ) (s : Text) → length (split c s) ≡ suc (occurs c s)
unfolding split
length-split c [] = refl
length-split c (b ∷ s) = elim (Bool-cases (b == c)) [
  | inl e ↦ rw e (ap suc (length-split c s))
  | inr e ↦
      rw e (length-put_first b (split c s) (omega (arith, length-split c s)) ∙ length-split c s)
]

-- Single mode with one address, cluster mode with at least three, and sentinel mode with a master name.
abbrev pub Accepts : RedisSettings → Type 0
Accepts r =
    ((to_lower r.mode ≡ text "single") × (occurs b',' r.addrs ≡ 0))
    ⊎ ((to_lower r.mode ≡ text "cluster") × (2 ≤ occurs b',' r.addrs))
    ⊎ ((to_lower r.mode ≡ text "sentinel") × (r.master_name ≢ []))

abbrev addrs_of : RedisSettings → List Text
addrs_of r = split b',' r.addrs

-- A mode has no error exactly when its settings are accepted.
abbrev Fits : Mode → RedisSettings → Type 0
Fits single r = occurs b',' r.addrs ≡ 0
Fits cluster r = 2 ≤ occurs b',' r.addrs
Fits sentinel r = r.master_name ≢ []
Fits unsupported r = ⊥

mode_error-Fits : (m : Mode) (r : RedisSettings) → (mode_error m r (addrs_of r) ≡ none) ↔ Fits m r
mode_error-Fits single r =
    (λ h. ground (arith, length-split b',' r.addrs), λ h. ground (arith, length-split b',' r.addrs))
mode_error-Fits cluster r =
    (λ h. ground (arith, length-split b',' r.addrs), λ h. ground (arith, length-split b',' r.addrs))
mode_error-Fits sentinel r = (
  λ h e.
      let p : text_eq r.master_name [] ≡ true = ap (λ m. text_eq m []) e ∙ text_eq_refl [] in
      ground arith,
  λ h.
      let p : text_eq r.master_name [] ≡ false = text_eq-ne r.master_name [] h in
      ground (arith, length-split b',' r.addrs),
)
mode_error-Fits unsupported r = (λ h. cc, λ h. absurd h)

Fits-Accepts :
    (r : RedisSettings) (mode : Text) → to_lower r.mode ≡ mode → Fits (mode_of mode) r → Accepts r
Fits-Accepts r mode e = elim (Bool-cases (text_eq mode (text "single"))) [
  | inl a ↦ rw a (λ h. inl (e ∙ eq_of_text_eq mode (text "single") a, h))
  | inr a ↦ elim (Bool-cases (text_eq mode (text "cluster"))) [
    | inl b ↦ rw (a, b) (λ h. inr (inl (e ∙ eq_of_text_eq mode (text "cluster") b, h)))
    | inr b ↦ elim (Bool-cases (text_eq mode (text "sentinel"))) [
      | inl d ↦ rw (a, b, d) (λ h. inr (inr (e ∙ eq_of_text_eq mode (text "sentinel") d, h)))
      | inr d ↦ rw (a, b, d) (λ h. absurd h)
    ]
  ]
]

Accepts-Fits : (r : RedisSettings) → Accepts r → Fits (mode_of (to_lower r.mode)) r
unfolding text_eq
Accepts-Fits r (inl (p, h)) = rw p h
Accepts-Fits r (inr (inl (p, h))) = rw p h
Accepts-Fits r (inr (inr (p, h))) = rw p h

options_or-ok :
    {A : Type 0} (a b : A) (o : Option Text) → options_or a o ≡ ok b → (o ≡ none) × (b ≡ a)
options_or-ok a b none h = (refl, cc)
options_or-ok a b (some m) h = cc

-- `initRedisClient` succeeds exactly for single mode with one address, cluster mode with at least three
-- and sentinel mode with a master name.
pub init_redis_client_iff :
    (r : RedisSettings) → ((opts : UniversalOptions) × (init_redis_client r ≡ ok opts)) ↔ Accepts r
unfolding init_redis_client
init_redis_client_iff r =
    let m = mode_of (to_lower r.mode) in
    (
      λ (opts, h). Fits-Accepts r (to_lower r.mode) refl (
          (mode_error-Fits m r).0
            (options_or-ok (universal_options r) opts (mode_error m r (addrs_of r)) h).0),
      λ a. (universal_options r, rw ((mode_error-Fits m r).1 (Accepts-Fits r a)) refl),
    )
