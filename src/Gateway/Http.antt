-- ===== src/Gateway/Http.antt =====
-- pkg/gateway/http_handler.go: the list of the models that a token may use.
pub mod Models
pub mod Tests
use arks.Prelude.{none, [], ◌∷◌, if◌then◌else◌, Option, List, some}
use arks.Services.{ConfigProvider}
use arks.Gateway.Request.{bearer}
use arks.Gateway.Messages.{unauthorized, internal_error}
use arks.Prelude.Text.{Text, Result, text, err, text_eq, ok, strip_prefix}
use arks.Prelude.Int.{ℤ}

-- The fields of `openai.Model` that the handler sets.
pub record ModelEntry : Type 0 where
  pub id : Text
  pub object : Text

-- `entries` is the field `Data`.
pub record ModelResponse : Type 0 where
  pub object : Text
  pub entries : List ModelEntry

-- `http.Error` with its status and message, or a JSON body with status 200.
pub data HttpAnswer : Type 0 where
  http_error : ℤ → Text → HttpAnswer
  json : Text → HttpAnswer

abbrev pub unauthorized_answer : HttpAnswer
unauthorized_answer = http_error unauthorized (text "Unauthorized")

-- The loop over the names.
unfoldable pub model_list : List Text → List ModelEntry
model_list [] = []
model_list (name ∷ rest) = record { id = name; object = text "model" } ∷ model_list rest

abbrev pub models_response : List Text → ModelResponse
models_response names = record { object = text "list"; entries = model_list names }

-- `marshal` is `json.Marshal`; an absent header reads as the empty text.
module _ {W : Type 0} (provider : ConfigProvider W) (marshal : ModelResponse → Result Text) where
  abbrev pub write_models : Result Text → HttpAnswer
  write_models (err message) = http_error internal_error (text "error in processing model list")
  write_models (ok bytes) = json bytes

  abbrev pub answer_models : Result (List Text) → HttpAnswer
  answer_models (err message) = http_error internal_error (text "error in getting model list")
  answer_models (ok names) = write_models (marshal (models_response names))

  abbrev pub answer_token : Option Text → W → HttpAnswer
  answer_token none w = unauthorized_answer
  answer_token (some token) w =
      if text_eq token []
      then unauthorized_answer
      else answer_models (provider.get_models_by_token token w)

  unfoldable pub handle_get_models : Text → W → HttpAnswer
  unfolding model_list text_eq
  handle_get_models authorization w = answer_token (strip_prefix bearer authorization) w
