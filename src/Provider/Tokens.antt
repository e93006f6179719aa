-- ===== src/Provider/Tokens.antt =====
-- pkg/gateway/qosconfig/arks_impl.go: what `GetQosByToken` finds.
use arks.Prelude.{inl, some, inr, List, [], ◌∷◌, Option, ◌⊎◌, ◌≡◌, Bool-cases, refl}
use arks.Provider.{Cluster, find_qos, Text, UserQos, get_qos_by_token, with_first}
use arks.Api.{ArksQos, ArksToken}
use arks.Prelude.Text.{Text, ok, text_eq, eq_of_text_eq, Result, err}
use arks.QosConfig.{UserQos}

abbrev pub In : ArksQos → List ArksQos → Type 0
In e [] = ⊥
In e (x ∷ rest) = (x ≡ e) ⊎ In e rest

-- The qos that an entry of a token stands for.
abbrev pub Stands : ArksToken → Text → ArksQos → UserQos → Type 0
Stands obj model e qos =
    (e.arks_endpoint ≡ model)
    × (qos.user ≡ obj.name)
    × (qos.namespace ≡ obj.namespace)
    × (qos.model ≡ model)
    × (qos.quota_name ≡ e.quota)
    × (qos.rate_limits ≡ e.rate_limits)

abbrev pub Found : ArksToken → Text → List ArksQos → Option UserQos → Type 0
Found obj model qs o =
    (qos : UserQos) × (e : ArksQos) × (o ≡ some qos) × In e qs × Stands obj model e qos

abbrev qos_of : ArksToken → ArksQos → UserQos
qos_of obj e = record {
  user = obj.name;
  namespace = obj.namespace;
  model = e.arks_endpoint;
  quota_name = e.quota;
  rate_limits = e.rate_limits;
}

find_qos-Found :
    (obj : ArksToken) (model : Text) (qs : List ArksQos) (o : Option UserQos)
    → find_qos obj model qs ≡ ok o
    → Found obj model qs o
unfolding find_qos
find_qos-Found obj model [] o = λ h. cc
find_qos-Found obj model (e ∷ rest) o = elim (Bool-cases (text_eq e.arks_endpoint model)) [
  | inl z ↦
      let s = eq_of_text_eq e.arks_endpoint model z in
      rw z (λ h. (qos_of obj e, e, cc, inl refl, (s, refl, refl, s, refl, refl)))
  | inr z ↦
      rw z
        (λ h. let (qos, e', r, i, s) = find_qos-Found obj model rest o h in (qos, e', r, inr i, s))
]

module _ {W : Type 0} (k : Cluster W) where
  abbrev pub IsListed : Text → Text → W → Option UserQos → Type 0
  IsListed token model w o =
      (obj : ArksToken) × (rest : List ArksToken) × (k.list_tokens token w ≡ ok (obj ∷ rest))
      × Found obj model obj.qos o

  with_first-IsListed :
      (token model : Text) (w : W) (o : Option UserQos) (listed : Result (List ArksToken))
      → k.list_tokens token w ≡ listed
      → with_first token listed (λ obj. find_qos obj model obj.qos) ≡ ok o
      → IsListed token model w o
  with_first-IsListed token model w o (err m) e h = cc
  with_first-IsListed token model w o (ok []) e h = cc
  with_first-IsListed token model w o (ok (obj ∷ rest)) e h =
      (obj, rest, e, find_qos-Found obj model obj.qos o h)

  -- `GetQosByToken` never succeeds with a nil qos. When it succeeds, the first token object that the
  -- index lists has an entry for the model, and the qos has the name and the namespace of the object,
  -- the model, and the quota and the rate limits of the entry.
  pub get_qos_by_token-Found :
      (token model : Text) (w : W) (o : Option UserQos)
      → get_qos_by_token k token model w ≡ ok o
      → IsListed token model w o
  unfolding get_qos_by_token
  get_qos_by_token-Found token model w o h =
      with_first-IsListed token model w o (k.list_tokens token w) refl h
