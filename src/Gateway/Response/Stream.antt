-- ===== src/Gateway/Response/Stream.antt =====
-- The parts of a response that streams: what is counted, and which metrics are recorded.
use arks.Prelude.{
  none, true, Bool, ◌≡◌, ◌∙◌, ◌&&◌, ◌∷◌, inl, Option-cases, not, refl, inr, false, Bool-cases,
  if◌then◌else◌, [], List, sym,
}
use arks.Gateway.Messages.{
  Server, State, Decoded, CompletionUsage, Metric, no_usage, ProcessingResponse, pass_body,
  processing_time, token_usage,
}
use arks.Prelude.Text.{Text, text_eq_refl}
use arks.QosConfig.{UserQos}
use arks.Gateway.Response.{
  handle_response_body, finish, Handled, count_usage, is_zero_ℤ, handle_stream, put, after_decode,
  last_usage, count_tokens,
}
use arks.Prelude.Int.{is_zero_ℤ}
use arks.Gateway.Response.Parts.{seen, Seen}
use mathlib.Core.Path.{subst}

module _ {W : Type 0} (s : Server W) (id : Text) (qos : UserQos) (model : Text) where
  -- Counting the usage of a part leaves the metrics and the running times, and completes what is
  -- complete.
  abbrev Quiet : Bool → State W → Handled × State W → Type 0
  Quiet has_completed st (h, st') =
      (st'.metrics ≡ st.metrics)
      × (st'.timed ≡ st.timed)
      × (has_completed ≡ true → h.complete ≡ true)

  count_usage-Quiet :
      (usage : CompletionUsage) (has_completed : Bool) (st : State W)
      → Quiet has_completed st (count_usage s qos usage has_completed st)
  unfolding count_usage
  count_usage-Quiet usage has_completed st = elim (Bool-cases (is_zero_ℤ usage.total_tokens)) [
    | inl z ↦ rw z (refl, refl, λ h. h)
    | inr z ↦ rw z (refl, refl, λ h. refl)
  ]

  after_decode-Quiet :
      (d : Decoded) (has_completed : Bool) (st : State W)
      → Quiet has_completed st (after_decode s d qos has_completed st)
  after_decode-Quiet d has_completed st = elim (Option-cases d.failure) [
    | inl e ↦ rw e (count_usage-Quiet (last_usage no_usage d.chunks) has_completed st)
    | inr (m, e) ↦ rw e (refl, refl, λ h. refl)
  ]

  -- The parts that follow, each with its end-of-stream flag, as `Process` passes `completed` on.
  abbrev pub stream_parts : List (Text × Bool) → Bool → State W → Bool × State W
  stream_parts [] has_completed st = (has_completed, st)
  stream_parts ((body, end_of_stream) ∷ rest) has_completed st =
      let (resp, complete, st') =
        handle_response_body s id body end_of_stream qos model true has_completed st in
      stream_parts rest complete st'

  -- A part that completes, records nothing and leaves the time running.
  abbrev Silent : State W → ProcessingResponse × Bool × State W → Type 0
  Silent st (resp, complete, st') =
      (complete ≡ true) × (st'.metrics ≡ st.metrics) × (st'.timed id ≡ true)

  part-Silent :
      (body : Text) (end_of_stream : Bool) (st : State W)
      → Silent st (handle_response_body s id body end_of_stream qos model true true st)
  unfolding handle_response_body finish handle_stream
  part-Silent body end_of_stream st =
      let (m, t, c) =
        after_decode-Quiet (s.codec.decode_stream body) true
          (record st { timed = put st.timed id true }) in
      (c refl, m, rw (t, text_eq_refl id) refl)

  -- After a silent part, the rest of the parts is silent too.
  stream_parts-Silent :
      (parts : List (Text × Bool)) (st : State W) (r : ProcessingResponse × Bool × State W)
      → Silent st r
      → ((stream_parts parts r.1 r.2).1.metrics ≡ st.metrics)
        × ((stream_parts parts r.1 r.2).1.timed id ≡ true)
  stream_parts-Silent [] st (resp, complete, st') (c, m, t) = (m, t)
  stream_parts-Silent ((body, end_of_stream) ∷ rest) st (resp, complete, st') (c, m, t) =
      let r' = handle_response_body s id body end_of_stream qos model true true st' in
      let (m', t') = stream_parts-Silent rest st' r' (part-Silent body end_of_stream st') in
      subst
        (λ b.
          ((stream_parts ((body, end_of_stream) ∷ rest) b st').1.metrics ≡ st.metrics)
          × ((stream_parts ((body, end_of_stream) ∷ rest) b st').1.timed id ≡ true))
        (sym c) (m' ∙ m, t')

  -- The part decodes without an error, and its last event without choices has a usage.
  abbrev pub HasUsage : Text → Type 0
  HasUsage body =
      ((s.codec.decode_stream body).failure ≡ none)
      × (is_zero_ℤ (last_usage no_usage (s.codec.decode_stream body).chunks).total_tokens ≡ false)

  after_decode-count_usage :
      (d : Decoded) (has_completed : Bool) (st : State W)
      → d.failure ≡ none
      → after_decode s d qos has_completed st
        ≡ count_usage s qos (last_usage no_usage d.chunks) has_completed st
  after_decode-count_usage d has_completed st e = rw e refl

  usage-Silent :
      (body : Text) (st : State W)
      → HasUsage body
      → Silent st (handle_response_body s id body false qos model true false st)
  unfolding handle_response_body finish handle_stream count_usage
  usage-Silent body st (no_failure, usage) =
      let d = s.codec.decode_stream body in
      let st1 = record st { timed = put st.timed id true } in
      subst (λ x. Silent st (x.0.resp, x.0.complete, finish s id model false qos false x))
        (sym (after_decode-count_usage d false st1 no_failure))
        (rw usage (refl, refl, rw (text_eq_refl id) refl))

  -- When the usage of a stream arrives in a part before the end-of-stream part, no usage metric and
  -- no time metric is ever recorded for the response, whatever parts follow, and the entry of its
  -- processing time is never deleted.
  pub stream_parts-usage_before_end :
      (body : Text) (parts : List (Text × Bool)) (st : State W)
      → HasUsage body
      → ((stream_parts ((body, false) ∷ parts) false st).1.metrics ≡ st.metrics)
        × ((stream_parts ((body, false) ∷ parts) false st).1.timed id ≡ true)
  stream_parts-usage_before_end body parts st h =
      stream_parts-Silent parts st (handle_response_body s id body false qos model true false st)
        (usage-Silent body st h)

  -- What a part of a stream is answered with, by its usage.
  abbrev pub part_answer : CompletionUsage → Bool → Bool → W → List Metric → Seen W
  part_answer usage end_of_stream has_completed w ms =
      let (resp, w') = count_tokens s qos usage w in
      if is_zero_ℤ usage.total_tokens then (pass_body, has_completed, w, ms) else (
        resp,
        true,
        w',
        if not has_completed && end_of_stream
            then processing_time qos model
              ∷ token_usage qos model usage.prompt_tokens usage.completion_tokens
              ∷ ms
            else ms,
      )

  count_usage-answer :
      (usage : CompletionUsage) (end_of_stream has_completed : Bool) (st : State W)
      → is_zero_ℤ usage.total_tokens ≡ false
      → (let done = count_usage s qos usage has_completed st in
          seen
            (done.0.resp, done.0.complete, finish s id model end_of_stream qos has_completed done))
        ≡ part_answer usage end_of_stream has_completed st.world st.metrics
  unfolding finish count_usage
  count_usage-answer usage true true st z = rw z refl
  count_usage-answer usage true false st z = rw z refl
  count_usage-answer usage false true st z = rw z refl
  count_usage-answer usage false false st z = rw z refl

  -- A part of a stream with a usage is answered as `part_answer` has it, whether it is the last one or
  -- not.
  pub handle_response_body-usage :
      (body : Text) (end_of_stream has_completed : Bool) (st : State W)
      → HasUsage body
      → seen (handle_response_body s id body end_of_stream qos model true has_completed st)
        ≡ part_answer
            (last_usage no_usage (s.codec.decode_stream body).chunks)
            end_of_stream
            has_completed
            st.world
            st.metrics
  unfolding handle_response_body handle_stream
  handle_response_body-usage body end_of_stream has_completed st (no_failure, usage) =
      let d = s.codec.decode_stream body in
      let st1 = record st { timed = put st.timed id true } in
      subst
        (λ x.
          seen (x.0.resp, x.0.complete, finish s id model end_of_stream qos has_completed x)
          ≡ part_answer (last_usage no_usage d.chunks) end_of_stream has_completed st.world
              st.metrics)
        (sym (after_decode-count_usage d has_completed st1 no_failure))
        (count_usage-answer (last_usage no_usage d.chunks) end_of_stream has_completed st1 usage)
