-- ===== src/Quota.antt =====
-- pkg/gateway/quota: the keys of the usage counters, and the quota service over Redis.
pub mod Usage
pub mod Counting
pub mod Tests
use arks.Prelude.{ℕ, ◌+◌, List, [], ◌∷◌, ◌++◌, Option, none, some}
use arks.Prelude.Int.{ℤ, pos, ltb_ℤ}
use arks.Prelude.Text.{Text, Result, ok, err}
use arks.Prelude.Decimal.{parse_int}
use arks.Redis.{Command, get, incr_by, set, Reply, value, error, nil, failed, Redis}
use arks.RateLimiter.Window.{write_labels}
use arks.RateLimiter.Limiter.{any_error, pipeline_error}
use arks.QosConfig.{QuotaRequest, QuotaResult}

-- `CacheKeyGenerator.Generate`
unfoldable pub generate : Text → QuotaRequest → Text
generate prefix desc = prefix ++ (b':' ∷ write_labels desc.identifier [])

abbrev pub incr_commands : Text → List QuotaRequest → List Command
incr_commands prefix [] = []
incr_commands prefix (req ∷ rest) =
    incr_by (generate prefix req) req.request ∷ incr_commands prefix rest

abbrev pub set_commands : Text → List QuotaRequest → List Command
set_commands prefix [] = []
set_commands prefix (req ∷ rest) = set (generate prefix req) req.request ∷ set_commands prefix rest

abbrev pub get_commands : Text → List QuotaRequest → List Command
get_commands prefix [] = []
get_commands prefix (req ∷ rest) = get (generate prefix req) ∷ get_commands prefix rest

-- The counter that a GET shows, or the error that ends `GetUsage`.
abbrev pub usage_value : Reply → Result ℤ
usage_value (value t) = ok (parse_int t)
usage_value (error nil) = ok (pos 0)
usage_value (error (failed message)) = err message
usage_value _ = ok (parse_int [])

abbrev pub usage_result : QuotaRequest → ℤ → QuotaResult
usage_result req current = record {
  identifier = req.identifier;
  over_limit = ltb_ℤ req.limit current;
  current_usage = current;
  limit_max = req.limit;
}

abbrev pub add_result : QuotaResult → Result (List QuotaResult) → Result (List QuotaResult)
add_result p (ok ps) = ok (p ∷ ps)
add_result p (err message) = err message

-- The last loop of `GetUsage`, from the n-th command.
unfoldable pub usage_results : ℕ → (ℕ → Reply) → List QuotaRequest → Result (List QuotaResult)
usage_results n replies [] = ok []
usage_results n replies (req ∷ rest) =
    let more = usage_results (n + 1) replies rest in
    elim (usage_value (replies n)) [
      | ok current ↦ add_result (usage_result req current) more
      | err message ↦ err message
    ]

module _ (r : Redis) (prefix : Text) where
  -- `none` is Go's nil error.
  unfoldable pub incr_usage : List QuotaRequest → r.Store → Option Text × r.Store
  incr_usage requests s =
      let done = r.exec (incr_commands prefix requests) s in (any_error done.err, done.store)

  unfoldable pub set_usage : List QuotaRequest → r.Store → Option Text × r.Store
  set_usage requests s =
      let done = r.exec (set_commands prefix requests) s in (any_error done.err, done.store)

  abbrev pub usage_outcome :
      Option Text → (ℕ → Reply) → List QuotaRequest → Result (List QuotaResult)
  usage_outcome none replies requests = usage_results 0 replies requests
  usage_outcome (some message) replies requests = err message

  unfoldable pub get_usage : List QuotaRequest → r.Store → Result (List QuotaResult) × r.Store
  unfolding usage_results
  get_usage requests s =
      let done = r.exec (get_commands prefix requests) s in
      (usage_outcome (pipeline_error done.err) done.replies requests, done.store)
