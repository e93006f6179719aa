-- ===== src/Gateway/Response/Parts.antt =====
-- A response that does not stream arrives in parts, which `HandleResponseBody` puts together.
use arks.Prelude.{
  none, Bool, if◌then◌else◌, inl, map, sym, [], Bool-cases, inr, refl, ◌≡◌, true, false, ◌≢◌, List,
  ◌∷◌, ◌++◌, append-nil, ap, ◌∙◌, append_assoc,
}
use arks.Prelude.Text.{Text, ok, text_eq_refl, text_eq, text_eq-ne}
use arks.Gateway.Messages.{
  Server, ProcessingResponse, Metric, State, CompletionUsage, pass_body, ResponseFields,
  processing_time, token_usage,
}
use arks.QosConfig.{UserQos}
use arks.Gateway.Response.{
  buffered, handle_response_body, handle_parts, ok, count_tokens, finish, is_zero_ℤ, count_usage,
  text_eq, put, after_unmarshal,
}
use arks.Prelude.Int.{is_zero_ℤ}
use mathlib.Core.Path.{subst}

-- What others see of a call: the response, whether it completes, the services and the metrics.
abbrev pub Seen : Type 0 → Type 0
Seen W = ProcessingResponse × Bool × W × List Metric

abbrev pub seen : {W : Type 0} → ProcessingResponse × Bool × State W → Seen W
seen (resp, complete, st) = (resp, complete, st.world, st.metrics)

abbrev pub join : List Text → Text
join [] = []
join (p ∷ ps) = p ++ join ps

module _ {W : Type 0} (s : Server W) (id : Text) (qos : UserQos) (model : Text) where
  -- The responses to the parts before the last one, and the state that they leave.
  abbrev pub before_last : List Text → State W → List ProcessingResponse × State W
  before_last [] st = ([], st)
  before_last (p ∷ ps) st =
      let (resp, complete, st') = handle_response_body s id p false qos model false false st in
      let (rest, st'') = before_last ps st' in (resp ∷ rest, st'')

  -- A whole response with a usage: its tokens are counted, and with them its metrics are recorded.
  abbrev pub whole_answer : CompletionUsage → W → List Metric → Seen W
  whole_answer usage w ms =
      let (resp, w') = count_tokens s qos usage w in
      if is_zero_ℤ usage.total_tokens then (pass_body, false, w, ms) else (
        resp,
        true,
        w',
        processing_time qos model
            ∷ token_usage qos model usage.prompt_tokens usage.completion_tokens
            ∷ ms,
      )

  abbrev Kept : State W → State W → Text → Type 0
  Kept st st' t =
      (buffered s (st'.buffers id) ≡ buffered s (st.buffers id) ++ t)
      × (st'.world ≡ st.world)
      × (st'.metrics ≡ st.metrics)

  part-Kept :
      (p : Text) (st : State W)
      → ((handle_response_body s id p false qos model false false st).0 ≡ pass_body)
        × Kept st (handle_response_body s id p false qos model false false st).2 p
  unfolding handle_response_body handle_parts finish
  part-Kept p st = (refl, (rw (text_eq_refl id) refl, refl, refl))

  before_last-Kept :
      (ps : List Text) (st : State W)
      → ((before_last ps st).0 ≡ map (λ p. pass_body) ps) × Kept st (before_last ps st).1 (join ps)
  before_last-Kept [] st = (refl, (sym (append-nil (buffered s (st.buffers id))), refl, refl))
  before_last-Kept (p ∷ ps) st =
      let st' = (handle_response_body s id p false qos model false false st).2 in
      let (r1, (b1, w1, m1)) = part-Kept p st in
      let (r2, (b2, w2, m2)) = before_last-Kept ps st' in
      (
        rw (r1, r2) refl,
        (
          b2 ∙ ap (λ t. t ++ join ps) b1 ∙ append_assoc (buffered s (st.buffers id)) p (join ps),
          w2 ∙ w1,
          m2 ∙ m1,
        ),
      )

  last-answer :
      (last : Text) (res : ResponseFields) (st : State W)
      → text_eq res.model [] ≡ false
      → (let done = after_unmarshal s (ok res) last qos false st in
          seen (done.0.resp, done.0.complete, finish s id model true qos false done))
        ≡ whole_answer res.usage st.world st.metrics
  unfolding finish count_usage
  last-answer last res st named = elim (Bool-cases (is_zero_ℤ res.usage.total_tokens)) [
    | inl z ↦ rw (named, z) refl
    | inr z ↦ rw (named, z) refl
  ]

  last-whole :
      (last : Text) (res : ResponseFields) (st : State W)
      → s.codec.parse_response (buffered s (st.buffers id) ++ last) ≡ ok res
      → text_eq res.model [] ≡ false
      → seen (handle_response_body s id last true qos model false false st)
        ≡ whole_answer res.usage st.world st.metrics
  unfolding handle_response_body handle_parts
  last-whole last res st parsed named =
      let st1 = record st { timed = put st.timed id true; buffers = put st.buffers id none } in
      subst
        (λ o.
          (let done = after_unmarshal s o last qos false st1 in
            seen (done.0.resp, done.0.complete, finish s id model true qos false done))
          ≡ whole_answer res.usage st.world st.metrics)
        (sym parsed) (last-answer last res st1 named)

  -- However a response is cut into parts, each part before the last one is let through unchanged, and
  -- the last one has the effect of the whole: if the parts together parse to a response with a model,
  -- then nothing is counted for a usage of 0 tokens, and otherwise the tokens are counted once, and
  -- one usage metric and one time metric are recorded. No buffer may be left from an earlier response.
  pub handle_response_body-parts :
      (ps : List Text) (last : Text) (res : ResponseFields) (st : State W)
      → st.buffers id ≡ none
      → s.codec.parse_response (join ps ++ last) ≡ ok res
      → res.model ≢ []
      → ((before_last ps st).0 ≡ map (λ p. pass_body) ps)
        × (seen (handle_response_body s id last true qos model false false (before_last ps st).1)
            ≡ whole_answer res.usage st.world st.metrics)
  handle_response_body-parts ps last res st empty parsed named =
      let st' = (before_last ps st).1 in
      let (r, (b, w, m)) = before_last-Kept ps st in
      let e = subst (λ o. buffered s (st'.buffers id) ≡ buffered s o ++ join ps) empty b in
      let answer =
        last-whole last res st'
          (subst (λ t. s.codec.parse_response (t ++ last) ≡ ok res) (sym e) parsed)
          (text_eq-ne res.model [] named) in
      (
        r,
        subst
            (λ x.
              seen (handle_response_body s id last true qos model false false st')
              ≡ whole_answer res.usage x st.metrics)
            w
            (subst
              (λ x.
                seen (handle_response_body s id last true qos model false false st')
                ≡ whole_answer res.usage st'.world x)
              m answer),
      )
