-- ===== src/Gateway/Auth.antt =====
-- Which token `HandleRequestHeaders` takes.
use arks.Prelude.{◌∙◌, ◌≢◌, Bool-cases, All, ◌∷◌, ◌≡◌, inr, ◌++◌, refl, List, Option-cases, inl, []}
use arks.Prelude.Text.{
  Text, text, text_eq, to_lower, strip_prefix, strip_prefix-eq, strip_prefix-append, text_eq_refl,
  eq_of_text_eq, text_eq-ne,
}
use arks.Gateway.Messages.{
  HeaderValue, Server, reject, unauthorized, go_on_headers, raw_header, ProcessingResponse,
}
use arks.Gateway.Request.{bearer, find_token, handle_request_headers}

-- An authorization header, in any letter case, with the bearer token `t`.
abbrev pub HasToken : HeaderValue → Text → Type 0
HasToken n t = (to_lower n.key ≡ text "authorization") × (n.raw_value ≡ bearer ++ t)

abbrev pub NoToken : HeaderValue → Type 0
NoToken n = (t : Text) → ¬ HasToken n t

find_token-skip :
    (n : HeaderValue) (rest : List HeaderValue)
    → NoToken n
    → find_token (n ∷ rest) ≡ find_token rest
unfolding find_token
find_token-skip n rest h = elim (Bool-cases (text_eq (to_lower n.key) (text "authorization"))) [
  | inr other ↦ rw other refl
  | inl auth ↦ elim (Option-cases (strip_prefix bearer n.raw_value)) [
    | inl e ↦ rw auth (rw (e, find_token) refl)
    | inr (t, e) ↦ absurd (h t (eq_of_text_eq _ _ auth, strip_prefix-eq bearer n.raw_value t e))
  ]
]

find_token-take :
    (n : HeaderValue) (t : Text) (rest : List HeaderValue)
    → HasToken n t
    → find_token (n ∷ rest) ≡ t
unfolding find_token
find_token-take n t rest (k, v) =
    rw (k, v, text_eq_refl (text "authorization"), strip_prefix-append bearer t) refl

find_token_first :
    (before : List HeaderValue) (n : HeaderValue) (t : Text) (after : List HeaderValue)
    → All NoToken before
    → HasToken n t
    → find_token (before ++ (n ∷ after)) ≡ t
find_token_first [] n t after h e = find_token-take n t after e
find_token_first (m ∷ before) n t after h e =
    find_token-skip m (before ++ (n ∷ after)) h.0 ∙ find_token_first before n t after h.1 e

find_token_none : (headers : List HeaderValue) → All NoToken headers → find_token headers ≡ []
find_token_none [] h = unfold find_token in refl
find_token_none (n ∷ rest) h = find_token-skip n rest h.0 ∙ find_token_none rest h.1

module _ {W : Type 0} (s : Server W) where
  abbrev pub no_token : ProcessingResponse
  no_token =
      reject s.codec unauthorized (text "x-error-token") (text "true")
        (text "no token found in request headers")

  -- The token is that of the first authorization header with a bearer token, whatever follows it.
  -- The request goes on if the token is not empty, and is answered with 401 if it is.
  pub handle_request_headers_first :
      (before : List HeaderValue) (n : HeaderValue) (t : Text) (after : List HeaderValue)
      → All NoToken before
      → HasToken n t
      → ((handle_request_headers s (before ++ (n ∷ after))).1 ≡ t)
        × (t ≢ []
            → (handle_request_headers s (before ++ (n ∷ after))).0
              ≡ go_on_headers (raw_header (text "x-went-into-req-headers") (text "true") ∷ []))
        × (t ≡ [] → (handle_request_headers s (before ++ (n ∷ after))).0 ≡ no_token)
  unfolding handle_request_headers
  handle_request_headers_first before n t after h e =
      let found = find_token_first before n t after h e in
      (found, λ ne. rw found (rw (text_eq-ne t [] ne) refl), λ em. rw found (rw em refl))

  -- Without such a header the request is answered with 401, and the token is empty.
  pub handle_request_headers_none :
      (headers : List HeaderValue)
      → All NoToken headers
      → handle_request_headers s headers ≡ (no_token, [])
  unfolding handle_request_headers
  handle_request_headers_none headers h = rw (find_token_none headers h) refl
