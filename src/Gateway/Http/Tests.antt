-- ===== src/Gateway/Http/Tests.antt =====
-- Examples for the list of models.
use arks.Prelude.{◌++◌, [], refl, ◌∷◌, List, ◌≡◌}
use arks.Quota.Tests.{sample_cluster}
use arks.Provider.{get_models_by_token, arks_provider}
use arks.Samples.{empty}
use arks.Gateway.Http.{
  handle_get_models, json, ModelResponse, ModelEntry, model_list, text, text_eq, Text, Result,
  strip_prefix, ok,
}
use arks.Gateway.Http.Models.{Lists, handle_get_models-json}
use arks.Prelude.Text.{Result, text, text_eq, Text, ok, strip_prefix}

abbrev names : List ModelEntry → Text
names [] = []
names (m ∷ ms) = m.id ++ names ms

-- An encoder that keeps the names.
abbrev marshal : ModelResponse → Result Text
marshal r = ok (names r.entries)

listed :
    handle_get_models (arks_provider sample_cluster) marshal (text "Bearer t") empty
    ≡ json (text "qwen")
unfolding handle_get_models get_models_by_token model_list text_eq strip_prefix
listed = refl

handle_get_models-json_example : Lists sample_cluster marshal (text "Bearer t") empty (text "qwen")
handle_get_models-json_example =
    handle_get_models-json sample_cluster marshal (text "Bearer t") empty (text "qwen") listed
