-- ===== src/Review/Generate/Reasons.antt =====
-- The answers of the model and the result of `_generate_batch`.
use dovi_ai_server.Base.{
  ◌≤◌, ◌≡◌, refl, Option, none, some, arith, nat_eq, list_eq, triple_eq, length, length-take, take,
  Option-cases, inl, inr, Text,
}
use dovi_ai_server.Review.Schema.{
  ReviewModelOutput, FailureReason, parse_error, timeout, server_error, output_truncated,
}
use dovi_ai_server.Review.Model.{
  Messages, Model, Settings, Session, Answer, answered, timed_out, truncated, invalid, crashed,
}
use dovi_ai_server.Llm.Partial.{Decoders, PartialRecoveryResult, parse_partial_review_output}
use dovi_ai_server.Review.Generate.{
  Generated, generated, gave_up, capped, retry_result, retry_shortened, send_shortened, of_retry,
  on_answer, generate_loop, generate_batch,
}

module _ (m : Model) (d : Decoders) (o : Settings) where
  length-capped :
      (output : ReviewModelOutput)
      → length (capped m d o output).reviews ≤ o.truncation_retry_max_findings
  length-capped output = omega (arith, length-take o.truncation_retry_max_findings output.reviews)

  FewOf : Option (ReviewModelOutput × Messages) → Type 0
  FewOf none = Unit
  FewOf (some (output, messages)) = length output.reviews ≤ o.truncation_retry_max_findings

  recovered-few :
      (messages : Messages) (found : Option PartialRecoveryResult)
      → FewOf (elim found [
        | some recovered ↦ some (capped m d o recovered.output, messages)
        | none ↦ none
      ])
  unfolding FewOf
  recovered-few messages (some recovered) = length-capped recovered.output
  recovered-few messages none = tt

  retry_result-few :
      (messages : Messages) (answer : Answer) → FewOf (retry_result m d o messages answer)
  unfolding retry_result FewOf
  retry_result-few messages (answered output) = length-capped output
  retry_result-few messages (truncated raw) =
      recovered-few messages (parse_partial_review_output d raw)
  retry_result-few messages timed_out = tt
  retry_result-few messages invalid = tt
  retry_result-few messages crashed = tt

  FewOf-elim :
      {r : Option (ReviewModelOutput × Messages)} {output : ReviewModelOutput} {messages : Messages}
      → FewOf r
      → r ≡ some (output, messages)
      → length output.reviews ≤ o.truncation_retry_max_findings
  unfolding FewOf
  FewOf-elim {r = none} h e = absurd (none_some e)
    where
      none_some :
          {q : ReviewModelOutput × Messages}
          → ◌≡◌ {A = Option (ReviewModelOutput × Messages)} none (some q)
          → ⊥
      none_some p = cc
  FewOf-elim {r = some (out, q)} {output = output} {messages = messages} h e = rw (← same e) h
    where
      same :
          ◌≡◌ {A = Option (ReviewModelOutput × Messages)} (some (out, q)) (some (output, messages))
          → out ≡ output
      same p = cc

  module _ (assemble : Session m → Option Messages × Session m) where
    sent-few : (r : Option Messages × Session m) → FewOf (send_shortened m d o assemble r).0
    unfolding FewOf
    sent-few (none, s) = tt
    sent-few (some messages, (st, cached)) =
        retry_result-few messages (m.generate messages (some o.truncation_retry_max_findings) st).0

    -- Whatever the server answers to the shortened request, `_retry_shortened` returns at most
    -- `truncation_retry_max_findings` findings when it returns an output.
    pub retry_shortened-few :
        (s : Session m) (output : ReviewModelOutput) (messages : Messages)
        → (retry_shortened m d o assemble s).0 ≡ some (output, messages)
        → length output.reviews ≤ o.truncation_retry_max_findings
    unfolding retry_shortened
    retry_shortened-few s output messages e = FewOf-elim (sent-few (assemble s)) e

    -- What `_generate_batch` returns when its first request is answered by `first`, and a second
    -- one, sent after an error, by `second`; `cut` gives its result for an answer cut off.
    abbrev pub expected :
        Messages
        → Answer × Session m
        → Answer × Session m
        → (Text → Session m → Generated)
        → Generated
    expected messages (answered output, s) second cut = generated output messages
    expected messages (timed_out, s) second cut = gave_up timeout
    expected messages (truncated raw, s) second cut = cut raw s
    expected messages (_, s) (answered output, s') cut = generated output messages
    expected messages (_, s) (timed_out, s') cut = gave_up timeout
    expected messages (_, s) (truncated raw, s') cut = cut raw s'
    expected messages (_, s) (invalid, s') cut = gave_up parse_error
    expected messages (_, s) (crashed, s') cut = gave_up server_error

    -- What the answer to the request for a shorter one gives: at most so many findings as it asks
    -- for, and else the reason that the output was cut off.
    abbrev pub shortened_answer : Messages → Answer → Generated
    shortened_answer q (answered output) =
        generated (record output { reviews = take o.truncation_retry_max_findings output.reviews })
          q
    shortened_answer q (truncated raw) = elim (parse_partial_review_output d raw) [
      | some recovered ↦
          generated
            (record recovered.output {
              reviews = take o.truncation_retry_max_findings recovered.output.reviews;
            })
            q
      | none ↦ gave_up output_truncated
    ]
    shortened_answer q timed_out = gave_up output_truncated
    shortened_answer q invalid = gave_up output_truncated
    shortened_answer q crashed = gave_up output_truncated

    -- Where the prompt with the request does not fit, nothing is sent.
    abbrev pub after_shortened : Option Messages × Session m → Generated
    after_shortened (none, s) = gave_up output_truncated
    after_shortened (some q, (st, cached)) =
        shortened_answer q (m.generate q (some o.truncation_retry_max_findings) st).0

    -- For an answer cut off: what is recovered of it, or what the shortened request gives.
    abbrev pub after_cut : Messages → Text → Session m → Generated
    after_cut messages raw s = elim (parse_partial_review_output d raw) [
      | some recovered ↦ generated recovered.output messages
      | none ↦ after_shortened (assemble s)
    ]

    retry_result-shortened_answer :
        (q : Messages) (answer : Answer) (s : Session m)
        → (of_retry m d o assemble (retry_result m d o q answer, s)).0 ≡ shortened_answer q answer
    unfolding retry_result
    retry_result-shortened_answer q (answered output) s = refl
    retry_result-shortened_answer q (truncated raw) s =
        elim (Option-cases (parse_partial_review_output d raw)) [
          | inl e ↦ rw (e, of_retry, retry_result, shortened_answer) refl
          | inr (recovered, e) ↦ rw (e, of_retry, retry_result, shortened_answer) refl
        ]
    retry_result-shortened_answer q timed_out s = refl
    retry_result-shortened_answer q invalid s = refl
    retry_result-shortened_answer q crashed s = refl

    send_shortened-after_shortened :
        (r : Option Messages × Session m)
        → (of_retry m d o assemble (send_shortened m d o assemble r)).0 ≡ after_shortened r
    send_shortened-after_shortened (none, s) = refl
    send_shortened-after_shortened (some q, (st, cached)) =
        retry_result-shortened_answer q (m.generate q (some o.truncation_retry_max_findings) st).0
          ((m.generate q (some o.truncation_retry_max_findings) st).1, cached)

    -- A request, with the session behind it.
    abbrev pub ask : Messages → Session m → Answer × Session m
    ask messages (st, cached) =
        let (answer, st') = m.generate messages none st in (answer, (st', cached))

    cut_same :
        (messages : Messages) (raw : Text) (s : Session m)
        (again : FailureReason → Session m → Generated × Session m)
        → (on_answer m d o assemble again messages (truncated raw) s).0 ≡ after_cut messages raw s
    unfolding on_answer retry_shortened
    cut_same messages raw s again = elim (Option-cases (parse_partial_review_output d raw)) [
      | inl e ↦ rw (e, on_answer, after_cut) (send_shortened-after_shortened (assemble s))
      | inr (recovered, e) ↦ rw (e, on_answer, after_cut) refl
    ]

    last_turn :
        (messages : Messages) (b : Answer) (s s' : Session m) (reason : FailureReason)
        → (on_answer m d o assemble
            (λ r t. generate_loop m d o assemble 0 r messages t)
            messages
            b
            s').0
          ≡ expected messages (invalid, s) (b, s') (after_cut messages)
    unfolding on_answer generate_loop
    last_turn messages (answered output) s s' reason = refl
    last_turn messages timed_out s s' reason = refl
    last_turn messages (truncated raw) s s' reason =
        cut_same messages raw s' (λ r t. generate_loop m d o assemble 0 r messages t)
    last_turn messages invalid s s' reason = refl
    last_turn messages crashed s s' reason = refl

    first_turn :
        (messages : Messages) (a : Answer) (s : Session m)
        → (on_answer m d o assemble
            (λ r t. generate_loop m d o assemble 1 r messages t)
            messages
            a
            s).0
          ≡ expected messages (a, s) (ask messages s) (after_cut messages)
    unfolding on_answer generate_loop
    first_turn messages (answered output) s = refl
    first_turn messages timed_out s = refl
    first_turn messages (truncated raw) s =
        cut_same messages raw s (λ r t. generate_loop m d o assemble 1 r messages t)
    first_turn messages invalid (st, cached) =
        last_turn messages (m.generate messages none st).0 (st, cached) _ parse_error
    first_turn messages crashed (st, cached) =
        last_turn messages (m.generate messages none st).0 (st, cached) _ server_error

    -- What `_generate_batch` returns, by the answer to its first request: an output, with the
    -- messages; for a timeout, that reason; for an answer cut off, what is recovered of it. If
    -- nothing is recovered, one shortened request is sent if its prompt fits: an output or what is
    -- recovered of it is returned, cut to the number of findings that it asks for, and in every
    -- other case the reason is `output_truncated`. After an answer that is not read, or another
    -- error, the same messages are sent a second time, with the same cases, but the reason of an
    -- answer that is not read is then `parse_error`, and that of another error `server_error`.
    pub generate_batch-table :
        (messages : Messages) (s : Session m)
        → let first = ask messages s in
          (generate_batch m d o assemble messages s).0
          ≡ expected messages first (ask messages first.1) (after_cut messages)
    unfolding generate_batch generate_loop
    generate_batch-table messages (st, cached) =
        first_turn messages (m.generate messages none st).0 _
