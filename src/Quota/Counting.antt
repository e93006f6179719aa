-- ===== src/Quota/Counting.antt =====
-- What the quota service adds and sets on a reachable Redis.
use arks.Prelude.{
  ℕ, ◌∷◌, ◌^◌, ◌+◌, ◌≡◌, ◌<◌, All, Option, ap, some, refl, none, [], if◌then◌else◌, List, ◌∙◌, sym,
}
use arks.Prelude.Int.{pos, pos_part}
use arks.Redis.{Redis, RedisView, RedisLaws, Holds, first_error, after_all, set, incr_by}
use arks.Quota.{
  generate, incr_usage, set_usage, Text, QuotaRequest, set_commands, incr_commands, set, incr_by,
}
use arks.Prelude.Text.{Text, text_eq}
use arks.QosConfig.{QuotaRequest}
use arks.Redis.Pipelines.{Adds, Adds-nil, Adds-incr_by}
use arks.Prelude.Decimal.{format_int}
use mathlib.Core.Path.{subst}

module _ (prefix : Text) where
  abbrev pub used : QuotaRequest → ℕ
  used req = pos_part req.request

  -- What a list of requests adds to the counter under a key.
  abbrev pub usage : List QuotaRequest → Text → ℕ
  usage [] j = 0
  usage (req ∷ rest) j = (if text_eq (generate prefix req) j then used req else 0) + usage rest j

  abbrev pub total_usage : List QuotaRequest → ℕ
  total_usage [] = 0
  total_usage (req ∷ rest) = used req + total_usage rest

  abbrev pub IsUsage : QuotaRequest → Type 0
  IsUsage req = req.request ≡ pos (used req)

  -- The text under a key after the requests have been written in order.
  abbrev pub written : List QuotaRequest → Text → Option Text → Option Text
  written [] j o = o
  written (req ∷ rest) j o =
      written rest j (if text_eq (generate prefix req) j then some (format_int req.request) else o)

module _ {r : Redis} {v : RedisView r} (l : RedisLaws v) (prefix : Text) where
  incr_commands-Adds :
      (requests : List QuotaRequest)
      → All (IsUsage prefix) requests
      → Adds l (incr_commands prefix requests) (usage prefix requests) (total_usage prefix requests)
  incr_commands-Adds [] counts = Adds-nil l
  incr_commands-Adds (req ∷ rest) counts =
      subst
        (λ z.
          Adds l (incr_by (generate prefix req) z ∷ incr_commands prefix rest)
            (usage prefix (req ∷ rest)) (total_usage prefix (req ∷ rest)))
        (sym counts.0)
        (Adds-incr_by l (generate prefix req) (used prefix req) (incr_commands prefix rest)
          (usage prefix rest) (total_usage prefix rest) (incr_commands-Adds rest counts.1))

  -- On a reachable Redis, with room for the amounts in every counter, `IncrUsage` succeeds and adds to
  -- each counter the amounts of the requests under its key, and to no other.
  pub incr_usage_lem :
      (requests : List QuotaRequest) (s : r.Store) (f : Text → ℕ)
      → All (IsUsage prefix) requests
      → v.Reachable s
      → ((j : Text) → Holds (v.read s j) (f j))
      → ((j : Text) → f j + total_usage prefix requests < 2 ^ 63)
      → ((incr_usage r prefix requests s).0 ≡ none)
        × ((j : Text)
            → Holds (v.read (incr_usage r prefix requests s).1 j) (f j + usage prefix requests j))
  unfolding incr_usage
  incr_usage_lem requests s f counts up h b =
      let cs = incr_commands prefix requests in
      let (fine, added) = incr_commands-Adds requests counts s f h b in
      (rw (l.exec_err cs s up, fine) refl, λ j. rw (l.exec_store cs s up) (added j))

  set_commands-written :
      (requests : List QuotaRequest) (s : r.Store)
      → (first_error v (set_commands prefix requests) s ≡ none)
        × ((j : Text)
            → v.read (after_all v (set_commands prefix requests) s) j
              ≡ written prefix requests j (v.read s j))
  set_commands-written [] s = (refl, λ j. refl)
  set_commands-written (req ∷ rest) s =
      let k = generate prefix req in
      let (fine, same) = set_commands-written rest (v.after (set k req.request) s) in
      (
        rw (l.reply-set k req.request s) fine,
        λ j. same j ∙ ap (written prefix rest j) (l.read-set k j req.request s),
      )

  -- On a reachable Redis `SetUsage` succeeds and writes the amounts of the requests, the last one where
  -- two share a key, and leaves every other text.
  pub set_usage_lem :
      (requests : List QuotaRequest) (s : r.Store)
      → v.Reachable s
      → ((set_usage r prefix requests s).0 ≡ none)
        × ((j : Text)
            → v.read (set_usage r prefix requests s).1 j ≡ written prefix requests j (v.read s j))
  unfolding set_usage
  set_usage_lem requests s up =
      let cs = set_commands prefix requests in
      let (fine, same) = set_commands-written requests s in
      (rw (l.exec_err cs s up, fine) refl, λ j. rw (l.exec_store cs s up) (same j))
