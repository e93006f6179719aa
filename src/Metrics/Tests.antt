-- ===== src/Metrics/Tests.antt =====
-- Examples for the metrics.
use arks.Prelude.{All}
use arks.Samples.{sample_qos}
use arks.Metrics.{collect, text}
use arks.Metrics.Labelled.{IsOf, collect-IsOf}
use arks.Gateway.Messages.{token_usage}
use arks.Prelude.Int.{pos}
use arks.Prelude.Text.{text}

collect-IsOf_example :
    All
      (IsOf sample_qos)
      (collect (λ n. n) (pos 2) (pos 30) (token_usage sample_qos (text "qwen") (pos 3) (pos 4)))
collect-IsOf_example =
    collect-IsOf (λ n. n) (pos 2) (pos 30) (token_usage sample_qos (text "qwen") (pos 3) (pos 4))
