-- ===== src/Quota/Usage.antt =====
-- What the quota service reads, adds and sets on a reachable Redis.
use arks.Prelude.{ℕ, ◌∷◌, ◌≡◌, ◌+◌, arith, Option, ap, some, refl, none, [], List, suc, ◌∙◌}
use arks.Prelude.Int.{ltb_ℤ}
use arks.Redis.{
  Redis, RedisView, RedisLaws, count, RedisError, after_all, get_reply, Reply, or_else, reply_at,
  first_error, number_of, error_of, get,
}
use arks.Quota.{
  generate, get_usage, Text, usage_value, usage_results, QuotaRequest, pipeline_error, Reply,
  get_commands, get, usage_result,
}
use arks.Prelude.Text.{Text, ok}
use arks.QosConfig.{QuotaRequest, QuotaResult}
use arks.RateLimiter.Limiter.{pipeline_error}

module _ {r : Redis} (v : RedisView r) (prefix : Text) where
  -- A result for each request: the counter under its key, and whether it passes the limit.
  abbrev pub Reports : r.Store → List QuotaRequest → List QuotaResult → Type 0
  Reports s [] [] = Unit
  Reports s [] (p ∷ ps) = ⊥
  Reports s (req ∷ rest) [] = ⊥
  Reports s (req ∷ rest) (p ∷ ps) =
      ((p.identifier ≡ req.identifier)
        × (p.limit_max ≡ req.limit)
        × (p.current_usage ≡ count v s (generate prefix req))
        × (p.over_limit ≡ ltb_ℤ req.limit (count v s (generate prefix req))))
      × Reports s rest ps

pipeline_error-or_else :
    (o : Option Text) (rest : Option RedisError)
    → pipeline_error rest ≡ none
    → pipeline_error (or_else (error_of (get_reply o)) rest) ≡ none
pipeline_error-or_else none rest h = refl
pipeline_error-or_else (some t) rest h = h

usage_value-get_reply : (o : Option Text) → usage_value (get_reply o) ≡ ok (number_of o)
usage_value-get_reply none = refl
usage_value-get_reply (some t) = refl

module _ {r : Redis} {v : RedisView r} (l : RedisLaws v) (prefix : Text) where
  error-get_commands :
      (requests : List QuotaRequest) (s : r.Store)
      → pipeline_error (first_error v (get_commands prefix requests) s) ≡ none
  error-get_commands [] s = refl
  error-get_commands (req ∷ rest) s = rw (l.reply-get (generate prefix req) s) (
      pipeline_error-or_else (v.read s (generate prefix req)) _
        (error-get_commands rest (v.after (get (generate prefix req)) s)))

  read-get_commands :
      (requests : List QuotaRequest) (s : r.Store) (j : Text)
      → v.read (after_all v (get_commands prefix requests) s) j ≡ v.read s j
  read-get_commands [] s j = refl
  read-get_commands (req ∷ rest) s j =
      read-get_commands rest (v.after (get (generate prefix req)) s) j
      ∙ l.read-get (generate prefix req) j s

  usage_results-Reports :
      (n : ℕ) (requests : List QuotaRequest) (s t : r.Store) (replies : ℕ → Reply)
      → ((j : Text) → v.read t j ≡ v.read s j)
      → ((m : ℕ) → replies (n + m) ≡ reply_at v (get_commands prefix requests) t m)
      → (ps : List QuotaResult) × (usage_results n replies requests ≡ ok ps)
        × Reports v prefix s requests ps
  unfolding usage_results
  usage_results-Reports n [] s t replies same h = ([], refl, tt)
  usage_results-Reports n (req ∷ rest) s t replies same h =
      let k = generate prefix req in
      let (ps, e, reports) =
        usage_results-Reports (n + 1) rest s (v.after (get k) t) replies
          (λ j. l.read-get k j t ∙ same j) (λ m. ap replies (omega arith) ∙ h (suc m)) in
      let current : usage_value (replies n) ≡ ok (count v s k) =
        ap usage_value (ap replies (omega arith) ∙ h 0 ∙ l.reply-get k t)
        ∙ usage_value-get_reply (v.read t k)
        ∙ ap (λ o. ok (number_of o)) (same k) in
      (
        usage_result req (count v s k) ∷ ps,
        rw (current, usage_results) (rw e refl),
        ((refl, refl, refl, refl), reports),
      )

  -- On a reachable Redis `GetUsage` succeeds, reports every counter, and changes no text.
  pub get_usage_lem :
      (requests : List QuotaRequest) (s : r.Store)
      → v.Reachable s
      → (ps : List QuotaResult) × ((get_usage r prefix requests s).0 ≡ ok ps)
        × Reports v prefix s requests ps
        × ((j : Text) → v.read (get_usage r prefix requests s).1 j ≡ v.read s j)
  unfolding get_usage
  get_usage_lem requests s up =
      let cs = get_commands prefix requests in
      let (ps, e, reports) =
        usage_results-Reports 0 requests s s (r.exec cs s).replies (λ j. refl)
          (λ m. ap (r.exec cs s).replies (omega arith) ∙ l.exec_replies cs s m up) in
      (
        ps,
        rw (l.exec_err cs s up, error-get_commands requests s) e,
        reports,
        λ j. rw (l.exec_store cs s up) (read-get_commands requests s j),
      )
