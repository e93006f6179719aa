-- ===== src/Gateway/Http/Models.antt =====
-- pkg/gateway/http_handler.go over pkg/gateway/qosconfig/arks_impl.go: whom the list of models is for.
use arks.Prelude.{
  none, ◌≡◌, ◌↔◌, some, inr, map, inl, List, ◌≢◌, refl, Bool-cases, ◌++◌, [], ◌∷◌, Option, true, ap,
}
use arks.Provider.{
  Cluster, get_qos_by_token, get_models_by_token, arks_provider, find_qos, with_first,
}
use arks.Gateway.Request.{bearer, contains}
use arks.Gateway.Http.{
  handle_get_models, json, models_response, answer_token, answer_models, write_models,
  ModelResponse, unauthorized_answer, Text, Result, strip_prefix, ok, text_eq, err,
}
use arks.Prelude.Text.{
  Text, Result, strip_prefix, ok, text_eq, strip_prefix-eq, strip_prefix-append,
}
use arks.Api.{ArksToken, ArksQos}
use arks.QosConfig.{UserQos}

-- The header holds no bearer token, or an empty one.
abbrev pub HasNoToken : Text → Type 0
HasNoToken authorization = (token : Text) → authorization ≡ bearer ++ token → token ≡ []

contains-find_qos :
    (obj : ArksToken) (model : Text) (qs : List ArksQos)
    → (contains (map (λ q. q.arks_endpoint) qs) model ≡ true)
      ↔ ((qos : UserQos) × (find_qos obj model qs ≡ ok (some qos)))
unfolding contains find_qos
contains-find_qos obj model [] = (λ h. cc, λ (qos, h). cc)
contains-find_qos obj model (q ∷ rest) = elim (Bool-cases (text_eq q.arks_endpoint model)) [
  | inl e ↦ rw e (λ h. (_, refl), λ h. refl)
  | inr e ↦ rw e (contains-find_qos obj model rest)
]

module _ {W : Type 0} (k : Cluster W) where
  -- The header holds a bearer token, with which the model may be used.
  abbrev pub Authorizes : Text → W → Text → Type 0
  Authorizes authorization w model =
      (token : Text) × (authorization ≡ bearer ++ token)
      × (token ≢ [])
      × ((qos : UserQos) × (get_qos_by_token k token model w ≡ ok (some qos)))

  -- The models of a token are those for which it stands for a qos.
  models-qos :
      (token : Text) (listed : Result (List ArksToken)) (names : List Text) (model : Text)
      → with_first token listed (λ obj. ok (map (λ q. q.arks_endpoint) obj.qos)) ≡ ok names
      → (contains names model ≡ true) ↔ (
          (qos : UserQos) × (with_first token listed (λ obj. find_qos obj model obj.qos)
            ≡ ok (some qos)))
  models-qos token (err m) names model h = cc
  models-qos token (ok []) names model h = cc
  models-qos token (ok (obj ∷ rest)) names model h =
      let same : map (λ q. q.arks_endpoint) obj.qos ≡ names = cc in
      rw (← same) (contains-find_qos obj model obj.qos)

  get_models_by_token-qos :
      (token : Text) (w : W) (names : List Text) (model : Text)
      → get_models_by_token k token w ≡ ok names
      → (contains names model ≡ true)
        ↔ ((qos : UserQos) × (get_qos_by_token k token model w ≡ ok (some qos)))
  unfolding get_models_by_token get_qos_by_token
  get_models_by_token-qos token w = models-qos token (k.list_tokens token w)

  module _ (marshal : ModelResponse → Result Text) where
    -- What the handler has done when it answers a list.
    abbrev pub Lists : Text → W → Text → Type 0
    Lists authorization w body =
        (names : List Text) × (marshal (models_response names) ≡ ok body)
        × ((model : Text) → (contains names model ≡ true) ↔ Authorizes authorization w model)

    write_models-json :
        (encoded : Result Text) (body : Text)
        → write_models (arks_provider k) marshal encoded ≡ json body
        → encoded ≡ ok body
    write_models-json (err m) body h = cc
    write_models-json (ok bytes) body h = cc

    answer_models-json :
        (found : Result (List Text)) (body : Text)
        → answer_models (arks_provider k) marshal found ≡ json body
        → (names : List Text) × (found ≡ ok names) × (marshal (models_response names) ≡ ok body)
    answer_models-json (err m) body h = cc
    answer_models-json (ok names) body h =
        (names, refl, write_models-json (marshal (models_response names)) body h)

    -- A header that holds a bearer token authorizes what the token does.
    Authorizes-bearer :
        (authorization token : Text) (w : W) (model : Text)
        → strip_prefix bearer authorization ≡ some token
        → token ≢ []
        → ((qos : UserQos) × (get_qos_by_token k token model w ≡ ok (some qos)))
          ↔ Authorizes authorization w model
    Authorizes-bearer authorization token w model e named = (
      λ found. (token, strip_prefix-eq bearer authorization token e, named, found),
      λ (token', e', _, found).
          let same : token ≡ token' =
            cc (e, ap (strip_prefix bearer) e', strip_prefix-append bearer token') in
          rw same found,
    )

    answer_found-Lists :
        (authorization token : Text) (w : W) (body : Text)
        → strip_prefix bearer authorization ≡ some token
        → token ≢ []
        → answer_models (arks_provider k) marshal (get_models_by_token k token w) ≡ json body
        → Lists authorization w body
    answer_found-Lists authorization token w body e named h =
        let (names, found, encoded) = answer_models-json (get_models_by_token k token w) body h in
        (
          names,
          encoded,
          λ model.
              let (to, from) = get_models_by_token-qos token w names model found in
              let (in_header, out) = Authorizes-bearer authorization token w model e named in
              (λ h'. in_header (to h'), λ a. from (out a)),
        )

    answer_token-json :
        (authorization : Text) (found : Option Text) (w : W) (body : Text)
        → strip_prefix bearer authorization ≡ found
        → answer_token (arks_provider k) marshal found w ≡ json body
        → Lists authorization w body
    unfolding text_eq
    answer_token-json authorization none w body e h = cc
    answer_token-json authorization (some []) w body e h = cc
    answer_token-json authorization (some (b ∷ bs)) w body e h =
        answer_found-Lists authorization (b ∷ bs) w body e (λ p. cc) h

    write_models-authorized :
        (encoded : Result Text)
        → write_models (arks_provider k) marshal encoded ≢ unauthorized_answer
    write_models-authorized (err m) h = cc
    write_models-authorized (ok bytes) h = cc

    answer_models-authorized :
        (found : Result (List Text))
        → answer_models (arks_provider k) marshal found ≢ unauthorized_answer
    answer_models-authorized (err m) h = cc
    answer_models-authorized (ok names) h =
        write_models-authorized (marshal (models_response names)) h

    answer_token-unauthorized :
        (authorization : Text) (found : Option Text) (w : W)
        → strip_prefix bearer authorization ≡ found
        → (answer_token (arks_provider k) marshal found w ≡ unauthorized_answer)
          ↔ HasNoToken authorization
    unfolding text_eq
    answer_token-unauthorized authorization none w e = (
      λ h token e'. cc (e, ap (strip_prefix bearer) e', strip_prefix-append bearer token),
      λ h. refl,
    )
    answer_token-unauthorized authorization (some []) w e = (
      λ h token e'. cc (e, ap (strip_prefix bearer) e', strip_prefix-append bearer token),
      λ h. refl,
    )
    answer_token-unauthorized authorization (some (b ∷ bs)) w e = (
      λ h. absurd (answer_models-authorized (get_models_by_token k (b ∷ bs) w) h),
      λ h. cc (h (b ∷ bs) (strip_prefix-eq bearer authorization (b ∷ bs) e)),
    )

    -- The handler answers 401 exactly when the header holds no bearer token or an empty one.
    pub handle_get_models-unauthorized_iff :
        (authorization : Text) (w : W)
        → (handle_get_models (arks_provider k) marshal authorization w ≡ unauthorized_answer)
          ↔ HasNoToken authorization
    unfolding handle_get_models
    handle_get_models-unauthorized_iff authorization w =
        answer_token-unauthorized authorization (strip_prefix bearer authorization) w refl

    -- Where the handler answers a list, it is the encoded list of names that holds exactly the models for
    -- which the bearer token of the header stands for a qos.
    pub handle_get_models-json :
        (authorization : Text) (w : W) (body : Text)
        → handle_get_models (arks_provider k) marshal authorization w ≡ json body
        → Lists authorization w body
    unfolding handle_get_models
    handle_get_models-json authorization w body =
        answer_token-json authorization (strip_prefix bearer authorization) w body refl
